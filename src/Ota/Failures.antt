-- ===== src/Ota/Failures.antt =====
-- The failures of src/ota/interface/OTAInterface.cpp: each ends the update.
use arduino_io_tcloud.Common.{
  ℕ, ◌+◌, ◌*◌, ◌%◌, ◌≤◌, ◌≡◌, ◌⊎◌, inl, inr, refl, sym, ap, ◌∙◌, u32_mod, arith, true, false, not,
  ◌&&◌, Option, none, some, List, ◌∷◌, if_both, Option-cases, Bool-cases, if◌then◌else◌, ◌==◌, ℤ,
}
use mathlib.Core.Path.{subst}
use arduino_io_tcloud.Ota.{
  Process, Board, Message, OtaContext, State, Delivery, ota_progress_cmd_up, reported_state, fail,
  idle, failure, announce, report_status, report_for, deliver_report, is_reported, report_data,
  arrive, dispatch, same_state, update_state, handle_message, fail_state,
}
use arduino_io_tcloud.Ota.Approval.{announce-SameUpdate, moved_on, and_false}

-- A failure, with the data of its report: none is known of `Fail`, and its number of any other.
abbrev pub IsFailure : State → ℤ → Type 0
IsFailure st code =
    ((st ≡ fail) × (code ≡ ℤ.pos 0)) ⊎ ((n : ℕ) × (st ≡ failure n) × (code ≡ ℤ.negsuc n))

-- The log of `s` has one report more than `before`: that the update has failed, with this code and a
-- time in the current second or later.
abbrev pub IsFailedReport : OtaContext → ℕ → ℤ → List Delivery → Process → Type 0
IsFailedReport context timestamp code before s =
    (time : ℕ) × (timestamp * 1000000 ≤ time)
    × (s.delivered ≡ ota_progress_cmd_up context.id fail time code ∷ before)

deliver_report-IsFailedReport :
    (context : OtaContext) (timestamp : ℕ) (code : ℤ) (s : Process)
    → reported_state s.state ≡ fail
    → IsFailedReport context timestamp code s.delivered (deliver_report context timestamp code s)
unfolding deliver_report
deliver_report-IsFailedReport context timestamp code s e =
    let counter = (s.report_counter + 1) % u32_mod in
    let log =
      λ (time : ℕ). ap (λ st. ota_progress_cmd_up context.id st time code ∷ s.delivered) e in
    if_both (IsFailedReport context timestamp code s.delivered)
      (timestamp == s.report_last_timestamp) _ _
      (timestamp * 1000000 + counter, omega arith, log (timestamp * 1000000 + counter))
      (timestamp * 1000000, omega arith, log (timestamp * 1000000))

announce-failed :
    (w : Board) (st : State) (code : ℤ) (context : OtaContext) (s : Process)
    → s.state ≡ st
    → is_reported st ≡ true
    → report_data st ≡ code
    → s.context ≡ some context
    → same_state s.previous_state s.state ≡ false
    → announce w s ≡ deliver_report context w.time code s
unfolding announce report_status
announce-failed w st code context s e i d c p =
    let reported = report_status w.time (report_data s.state) s in
    ap (λ b. if is_reported s.state && not b then reported else s) p
    ∙ ap
        (λ st. if is_reported st && true then report_for s.context w.time (report_data st) s else s)
        e
    ∙ ap (λ b. if b && true then report_for s.context w.time (report_data st) s else s) i
    ∙ ap (λ k. report_for s.context w.time k s) d
    ∙ ap (λ x. report_for x w.time code s) c

-- No report is made of a state that was there before, nor without an update.
announce-same :
    (w : Board) (s : Process) → same_state s.previous_state s.state ≡ true → announce w s ≡ s
unfolding announce
announce-same w s p =
    let reported = report_status w.time (report_data s.state) s in
    ap (λ b. if is_reported s.state && not b then reported else s) p
    ∙ ap (λ b. if b then reported else s) (and_false (is_reported s.state))

announce-unknown : (w : Board) (s : Process) → s.context ≡ none → announce w s ≡ s
unfolding announce report_status
announce-unknown w s c =
    if_both (λ x. x ≡ s) (is_reported s.state && not (same_state s.previous_state s.state)) _ s
      (ap (λ x. report_for x w.time (report_data s.state) s) c) refl

-- What is delivered of a failure: one report, or none if no update is known or the state before was
-- the same.
abbrev pub Reported : Board → ℤ → Process → Process → Type 0
Reported w code s s' =
    ((context : OtaContext) × (s.context ≡ some context)
      × (same_state s.previous_state s.state ≡ false)
      × IsFailedReport context w.time code s.delivered s')
    ⊎ (((s.context ≡ none) ⊎ (same_state s.previous_state s.state ≡ true))
        × (s'.delivered ≡ s.delivered))

announce-Reported :
    (w : Board) (st : State) (code : ℤ) (s : Process)
    → s.state ≡ st
    → is_reported st ≡ true
    → report_data st ≡ code
    → reported_state st ≡ fail
    → Reported w code s (announce w s)
announce-Reported w st code s e i d f = elim (Option-cases s.context) [
  | inl c ↦ inr (inl c, ap (λ (x : Process). x.delivered) (announce-unknown w s c))
  | inr (context, c) ↦ elim (Bool-cases (same_state s.previous_state s.state)) [
    | inl p ↦ inr (inr p, ap (λ (x : Process). x.delivered) (announce-same w s p))
    | inr p ↦ inl (
      context,
      c,
      p,
      subst (IsFailedReport context w.time code s.delivered)
          (sym (announce-failed w st code context s e i d c p))
          (deliver_report-IsFailedReport context w.time code s (ap (λ x. reported_state x) e ∙ f)),
    )
  ]
]

failed-idle :
    (w : Board) (msg : Option Message) (st : State) (code : ℤ) (s : Process)
    → ((x : Process) → dispatch w msg st x ≡ arrive (fail_state (record x { previous_state = st })))
    → is_reported st ≡ true
    → report_data st ≡ code
    → reported_state st ≡ fail
    → same_state st idle ≡ false
    → s.state ≡ st
    → let s' = handle_message w msg s in
      (s'.state ≡ idle) × (s'.context ≡ none) × Reported w code s s'
unfolding handle_message update_state fail_state
failed-idle w msg st code s run i d f k e =
    let s1 = announce w s in
    let st1 = (announce-SameUpdate w s).0 ∙ e in
    let y = record s1 { previous_state = st; context = none } in
    let r : handle_message w msg s ≡ moved_on idle y =
      ap (λ x. dispatch w msg x s1) st1
      ∙ run s1
      ∙ ap (λ b. if b then y else moved_on idle y) (ap (λ x. same_state x idle) st1 ∙ k) in
    subst (λ (x : Process). (x.state ≡ idle) × (x.context ≡ none) × Reported w code s x) (sym r)
      (refl, refl, announce-Reported w st code s e i d f)

-- After a failure of any kind, `Fail` included, the process is idle, without the update, in the next
-- turn, whatever message comes. If an update is known and the state before was not the same failure,
-- exactly one report is delivered before that: of `Fail`, with the number of the failure (0 for
-- `Fail` itself), at a time in microseconds that lies in the current second or later. Otherwise none
-- is delivered.
pub failure-idle :
    (w : Board) (msg : Option Message) (code : ℤ) (s : Process)
    → IsFailure s.state code
    → let s' = handle_message w msg s in
      (s'.state ≡ idle) × (s'.context ≡ none) × Reported w code s s'
failure-idle w msg code s (inl (e, d)) =
    failed-idle w msg fail code s (λ x. refl) refl (sym d) refl refl e
failure-idle w msg code s (inr (n, e, d)) =
    failed-idle w msg (failure n) code s (λ x. refl) refl (sym d) refl refl e
