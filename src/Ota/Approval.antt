-- ===== src/Ota/Approval.antt =====
-- The states of src/ota/interface/OTAInterface.cpp: an update that wants the user's approval waits for
-- it.
use arduino_io_tcloud.Common.{
  ℕ, ◌≡◌, refl, sym, ap, ap₂, ◌∙◌, Bool, true, false, not, ◌&&◌, Option, none, some, List, [], ◌∷◌,
  if_both, if◌then◌else◌, ◌==◌, ℤ,
}
use mathlib.Core.Path.{subst}
use arduino_io_tcloud.Ota.{
  Process, Board, Message, OtaContext, State, ota_available, start_ota, announce, report_status,
  report_for, deliver_report, is_reported, report_data, arrive, dispatch, same_state, update_state,
  handle_message, update, approve_ota, ota_available_state,
}

-- The messages that come, and what the board answers, turn by turn.
unfoldable pub turns : List (Board × Option Message) → Process → Process
turns [] s = s
turns ((w, msg) ∷ ts) s = turns ts (handle_message w msg s)

-- An update that waits for the user.
pub record Waits (s : Process) : Type 0 where
  pub is_available : s.state ≡ ota_available
  pub is_required : s.approval_required ≡ true
  pub not_approved : s.approved ≡ false

-- The fields that a report leaves alone.
abbrev pub SameUpdate : Process → Process → Type 0
SameUpdate s s' =
    (s'.state ≡ s.state)
    × (s'.approval_required ≡ s.approval_required)
    × (s'.approved ≡ s.approved)
    × (s'.context ≡ s.context)

deliver_report-SameUpdate :
    (context : OtaContext) (timestamp : ℕ) (d : ℤ) (s : Process)
    → SameUpdate s (deliver_report context timestamp d s)
unfolding deliver_report
deliver_report-SameUpdate context timestamp d s =
    if_both (SameUpdate s) (timestamp == s.report_last_timestamp) _ _ (refl, refl, refl, refl)
      (refl, refl, refl, refl)

report_for-SameUpdate :
    (c : Option OtaContext) (timestamp : ℕ) (d : ℤ) (s : Process)
    → SameUpdate s (report_for c timestamp d s)
report_for-SameUpdate none timestamp d s = (refl, refl, refl, refl)
report_for-SameUpdate (some context) timestamp d s = deliver_report-SameUpdate context timestamp d s

pub announce-SameUpdate : (w : Board) (s : Process) → SameUpdate s (announce w s)
unfolding announce report_status
announce-SameUpdate w s =
    if_both (SameUpdate s) (is_reported s.state && not (same_state s.previous_state s.state)) _ s
      (report_for-SameUpdate s.context w.time (report_data s.state) s) (refl, refl, refl, refl)

announce-Waits : (w : Board) (s : Process) → Waits s → Waits (announce w s)
announce-Waits w s h =
    let a = announce-SameUpdate w s in
    record {
      is_available = a.0 ∙ h.is_available;
      is_required = a.1 ∙ h.is_required;
      not_approved = a.2 ∙ h.not_approved;
    }

-- The state `OtaAvailable`, by the test that it makes.
available-waits :
    (s : Process)
    → (s.approval_required && not s.approved) ≡ true
    → ota_available_state s ≡ (ota_available, s)
unfolding ota_available_state
available-waits s e =
    ap (λ b. if b then (ota_available, s) else (start_ota, record s { approved = false })) e

available-starts :
    (s : Process)
    → (s.approval_required && not s.approved) ≡ false
    → ota_available_state s ≡ (start_ota, record s { approved = false })
unfolding ota_available_state
available-starts s e =
    ap (λ b. if b then (ota_available, s) else (start_ota, record s { approved = false })) e

dispatch-Waits :
    (w : Board) (msg : Option Message) (s : Process) → Waits s → Waits (dispatch w msg s.state s)
unfolding update_state
dispatch-Waits w msg s h =
    let x = record s { previous_state = ota_available } in
    let asked : (s.approval_required && not s.approved) ≡ true =
      ap₂ (λ a b. a && not b) h.is_required h.not_approved in
    subst Waits
      (sym (ap (λ st. dispatch w msg st s) h.is_available ∙ ap arrive (available-waits x asked)))
      (if_both Waits (same_state s.state ota_available) x _
        (record {
          is_available = h.is_available;
          is_required = h.is_required;
          not_approved = h.not_approved;
        })
        (record {
          is_available = refl;
          is_required = h.is_required;
          not_approved = h.not_approved;
        }))

Waits-handle_message :
    (w : Board) (msg : Option Message) (s : Process) → Waits s → Waits (handle_message w msg s)
unfolding handle_message
Waits-handle_message w msg s h = dispatch-Waits w msg (announce w s) (announce-Waits w s h)

pub and_false : (b : Bool) → (b && false) ≡ false
and_false true = refl
and_false false = refl

-- The state after one that has ended.
abbrev pub moved_on : State → Process → Process
moved_on st s = record s { previous_state = s.state; state = st }

dispatch-started :
    (w : Board) (s : Process)
    → s.state ≡ ota_available
    → s.approved ≡ true
    → dispatch w none s.state s
      ≡ moved_on start_ota (record s { previous_state = ota_available; approved = false })
unfolding update_state
dispatch-started w s e f =
    let x = record s { previous_state = ota_available } in
    let y = record x { approved = false } in
    let asked : (s.approval_required && not s.approved) ≡ false =
      ap (λ b. s.approval_required && not b) f ∙ and_false s.approval_required in
    ap (λ st. dispatch w none st s) e
    ∙ ap arrive (available-starts x asked)
    ∙ ap (λ st. if same_state st start_ota then y else moved_on start_ota y) e

pub turns-Waits : (ts : List (Board × Option Message)) (s : Process) → Waits s → Waits (turns ts s)
unfolding turns
turns-Waits [] s h = h
turns-Waits ((w, msg) ∷ ts) s h = turns-Waits ts _ (Waits-handle_message w msg s h)

-- An update that needs approval waits through any number of turns, whatever messages come; once it is
-- approved, the next turn starts it and uses the approval up.
pub approve-start :
    (ts : List (Board × Option Message)) (w : Board) (s : Process)
    → Waits s
    → let waiting = turns ts s in
      let started = update w (approve_ota waiting) in
      (waiting.state ≡ ota_available) × (started.state ≡ start_ota) × (started.approved ≡ false)
unfolding update handle_message approve_ota
approve-start ts w s h =
    let k = turns-Waits ts s h in
    let s' = announce w (approve_ota (turns ts s)) in
    let a = announce-SameUpdate w (approve_ota (turns ts s)) in
    let e = dispatch-started w s' (a.0 ∙ k.is_available) a.2 in
    (k.is_available, ap (λ (x : Process). x.state) e, ap (λ (x : Process). x.approved) e)
