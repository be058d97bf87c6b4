-- ===== src/Lzss/Machine.antt =====
-- The state machine of src/utility/lzss/lzss.cpp over an ideal bit string: it takes bits as long as
-- enough are there for its state.
use arduino_io_tcloud.Common.{
  ℕ, zero, suc, ◌+◌, ◌<◌, ◌≤◌, ◌≡◌, refl, sym, ◌∙◌, inl, inr, none, some, List, [], ◌++◌, length,
  length-append, Option-cases, arith, Bool, true, false, if◌then◌else◌, nonzero, ap,
}
use mathlib.Core.Path.{subst}
use native.Mathlib.Decide.{dec_lt}
use arduino_io_tcloud.Lzss.{
  Core, FsmState, fsm_0, fsm_1, fsm_2, fsm_3, fsm_eof, bits_required, dispatch,
}
use arduino_io_tcloud.Lzss.Bits.{pull, pull_more}

unfoldable pub drive : ℕ → Core → List ℕ → Core × List ℕ
drive zero w bs = (w, bs)
drive (suc f) w bs = elim (pull (bits_required w.state) bs) [
  | none ↦ (w, bs)
  | some (v, rest) ↦ drive f (dispatch w.state v w) rest
]

-- The machine run on all of `bs`: its state, and the bits that were too few for a further step.
unfoldable pub absorb : Core → List ℕ → Core × List ℕ
absorb w bs = drive (suc (length bs)) w bs

-- Every state but the last reads at least one bit.
abbrev pub IsLive : FsmState → Type 0
IsLive fsm_eof = ⊥
IsLive _ = Unit {0}

pub bits_required-pos : (s : FsmState) → IsLive s → 0 < bits_required s
bits_required-pos fsm_0 h = omega arith
bits_required-pos fsm_1 h = omega arith
bits_required-pos fsm_2 h = omega arith
bits_required-pos fsm_3 h = omega arith
bits_required-pos fsm_eof h = absurd h

pub bits_required-le : (s : FsmState) → bits_required s ≤ 11
bits_required-le fsm_0 = omega arith
bits_required-le _ = omega arith

if-IsLive : (b : Bool) → IsLive (if b then fsm_1 else fsm_2)
if-IsLive true = tt
if-IsLive false = tt

pub dispatch-IsLive : (s : FsmState) (v : ℕ) (w : Core) → IsLive s → IsLive (dispatch s v w).state
unfolding dispatch
dispatch-IsLive fsm_0 v w h = if-IsLive (nonzero v)
dispatch-IsLive fsm_1 v w h = tt
dispatch-IsLive fsm_2 v w h = tt
dispatch-IsLive fsm_3 v w h = tt
dispatch-IsLive fsm_eof v w h = absurd h

pub drive-none :
    (f : ℕ) (w : Core) (bs : List ℕ)
    → pull (bits_required w.state) bs ≡ none
    → drive f w bs ≡ (w, bs)
unfolding drive
drive-none zero w bs h = refl
drive-none (suc f) w bs h = rw (h, drive)

pub drive-some :
    (f : ℕ) (w : Core) (bs : List ℕ) {v : ℕ} {rest : List ℕ}
    → pull (bits_required w.state) bs ≡ some (v, rest)
    → drive (suc f) w bs ≡ drive f (dispatch w.state v w) rest
unfolding drive
drive-some f w bs h = rw (h, drive)

-- One step of the machine takes at least a bit off.
pull-shorter :
    (w : Core) (bs : List ℕ) {v : ℕ} {rest : List ℕ}
    → IsLive w.state
    → pull (bits_required w.state) bs ≡ some (v, rest)
    → length rest < length bs
pull-shorter w bs l h =
    omega (arith, (pull_more (bits_required w.state) bs [] h).1, bits_required-pos w.state l)

pub drive-IsLive : (f : ℕ) (w : Core) (bs : List ℕ) → IsLive w.state → IsLive (drive f w bs).0.state
drive-IsLive zero w bs l = unfold drive in l
drive-IsLive (suc f) w bs l = elim (Option-cases (pull (bits_required w.state) bs)) [
  | inl e ↦ rw (drive-none (suc f) w bs e) l
  | inr (p, e) ↦
      rw (drive-some f w bs e)
        (drive-IsLive f (dispatch w.state p.0 w) p.1 (dispatch-IsLive w.state p.0 w l))
]

length-drive :
    (f : ℕ) (w : Core) (bs : List ℕ) → IsLive w.state → length (drive f w bs).1 ≤ length bs
length-drive zero w bs l = unfold drive in omega arith
length-drive (suc f) w bs l = elim (Option-cases (pull (bits_required w.state) bs)) [
  | inl e ↦ rw (drive-none (suc f) w bs e) (omega arith)
  | inr (p, e) ↦ rw (drive-some f w bs e) (
      omega (
        arith,
        pull-shorter w bs l e,
        length-drive f (dispatch w.state p.0 w) p.1 (dispatch-IsLive w.state p.0 w l),
      ))
]

-- More fuel than bits is as good as any other such fuel.
pub drive_fuel :
    (f : ℕ) (w : Core) (bs : List ℕ)
    → IsLive w.state
    → length bs < f
    → drive (suc f) w bs ≡ drive f w bs
drive_fuel zero w bs l h = absurd (omega arith)
drive_fuel (suc f) w bs l h = elim (Option-cases (pull (bits_required w.state) bs)) [
  | inl e ↦ drive-none (suc (suc f)) w bs e ∙ sym (drive-none (suc f) w bs e)
  | inr (p, e) ↦
      let ih =
        drive_fuel f (dispatch w.state p.0 w) p.1 (dispatch-IsLive w.state p.0 w l)
          (omega (arith, pull-shorter w bs l e)) in
      drive-some (suc f) w bs e ∙ ih ∙ sym (drive-some f w bs e)
]

-- It stops only where the bits left are too few for its state.
pub drive-stuck :
    (f : ℕ) (w : Core) (bs : List ℕ)
    → IsLive w.state
    → length bs < f
    → pull (bits_required (drive f w bs).0.state) (drive f w bs).1 ≡ none
drive-stuck zero w bs l h = absurd (omega arith)
drive-stuck (suc f) w bs l h = elim (Option-cases (pull (bits_required w.state) bs)) [
  | inl e ↦ rw (drive-none (suc f) w bs e) e
  | inr (p, e) ↦ rw (drive-some f w bs e) (
      drive-stuck f (dispatch w.state p.0 w) p.1 (dispatch-IsLive w.state p.0 w l)
        (omega (arith, pull-shorter w bs l e)))
]

-- To go on with more bits from where the machine stopped is to have had them all at once.
drive-append :
    (f g : ℕ) (w : Core) (bs more : List ℕ)
    → IsLive w.state
    → length bs < f
    → length bs + length more < g
    → drive g w (bs ++ more) ≡ drive g (drive f w bs).0 ((drive f w bs).1 ++ more)
drive-append zero g w bs more l h k = absurd (omega arith)
drive-append (suc f) zero w bs more l h k = absurd (omega arith)
drive-append (suc f) (suc g) w bs more l h k =
    elim (Option-cases (pull (bits_required w.state) bs)) [
      | inl e ↦ rw (drive-none (suc f) w bs e)
      | inr (p, e) ↦
          let live = dispatch-IsLive w.state p.0 w l in
          let shorter = pull-shorter w bs l e in
          let w' = dispatch w.state p.0 w in
          let ih = drive-append f g w' p.1 more live (omega arith) (omega arith) in
          let bound = length-drive f w' p.1 live in
          rw (drive-some f w bs e) (
            drive-some g w (bs ++ more) (pull_more (bits_required w.state) bs more e).0
            ∙ ih
            ∙ sym (
                drive_fuel g _ ((drive f w' p.1).1 ++ more) (drive-IsLive f w' p.1 live)
                  (omega (arith, length-append (drive f w' p.1).1 more))))
    ]

pub drive-absorb :
    (f : ℕ) (w : Core) (bs : List ℕ) → IsLive w.state → length bs < f → drive f w bs ≡ absorb w bs
unfolding absorb
drive-absorb zero w bs l h = absurd (omega arith)
drive-absorb (suc f) w bs l h = elim (dec_lt (length bs) f) [
  | yes more ↦ drive_fuel f w bs l more ∙ drive-absorb f w bs l more
  | no last ↦ let e : f ≡ length bs = omega arith in ap (λ n. drive (suc n) w bs) e
]

pub absorb-IsLive : (w : Core) (bs : List ℕ) → IsLive w.state → IsLive (absorb w bs).0.state
unfolding absorb
absorb-IsLive w bs l = drive-IsLive (suc (length bs)) w bs l

pub length-absorb : (w : Core) (bs : List ℕ) → IsLive w.state → length (absorb w bs).1 ≤ length bs
unfolding absorb
length-absorb w bs l = length-drive (suc (length bs)) w bs l

pub absorb-append :
    (w : Core) (bs more : List ℕ)
    → IsLive w.state
    → absorb w (bs ++ more) ≡ absorb (absorb w bs).0 ((absorb w bs).1 ++ more)
unfolding absorb
absorb-append w bs more l =
    let g = suc (length bs + length more) in
    let f = suc (length bs) in
    let left = (drive f w bs).1 in
    sym (drive-absorb g w (bs ++ more) l (omega (arith, length-append bs more)))
    ∙ drive-append f g w bs more l (omega arith) (omega arith)
    ∙ drive-absorb g (drive f w bs).0 (left ++ more) (drive-IsLive f w bs l)
        (omega (arith, length-append left more, length-drive f w bs l))

-- One step, in state `s`.
pub absorb-none :
    (s : FsmState) (w : Core) (bs : List ℕ)
    → w.state ≡ s
    → pull (bits_required s) bs ≡ none
    → absorb w bs ≡ (w, bs)
unfolding absorb
absorb-none s w bs e h =
    drive-none (suc (length bs)) w bs (ap (λ t. pull (bits_required t) bs) e ∙ h)

pub absorb-some :
    (s : FsmState) (w : Core) (bs : List ℕ) {v : ℕ} {rest : List ℕ}
    → w.state ≡ s
    → IsLive s
    → pull (bits_required s) bs ≡ some (v, rest)
    → (absorb w bs ≡ absorb (dispatch s v w) rest) × (length rest < length bs)
unfolding absorb
absorb-some s w bs {v} {rest} e l h =
    let live = subst (λ t. IsLive t) (sym e) l in
    let found = ap (λ t. pull (bits_required t) bs) e ∙ h in
    let less = pull-shorter w bs live found in
    (
      drive-some (length bs) w bs found
          ∙ drive-absorb (length bs) (dispatch w.state v w) rest (dispatch-IsLive w.state v w live)
              less
          ∙ ap (λ t. absorb (dispatch t v w) rest) e,
      less,
    )
