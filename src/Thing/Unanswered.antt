-- ===== src/Thing/Unanswered.antt =====
-- How src/ArduinoIoTCloudThing.cpp gives up when its requests for the last values get no answer.
use mathlib.Core.Path.{subst}
use native.Mathlib.Decide.{dec_lt}
use arduino_io_tcloud.Common.{
  ℕ, zero, suc, ◌+◌, ◌≤◌, ◌≡◌, refl, sym, ap, inl, inr, Bool-cases, ◌∙◌, Bool, true, false, not,
  ◌&&◌, none, List, [], ◌∷◌, ltb, if◌then◌else◌, arith,
}
use arduino_io_tcloud.Messages.{CommandId, last_values_begin_cmd_id}
use arduino_io_tcloud.TimedAttempt.{is_retry, is_expired, retry}
use arduino_io_tcloud.Property.{Methods}
use arduino_io_tcloud.Container.{PropertyContainer}
use arduino_io_tcloud.Thing.{
  Thing, State, Clock, request_last_values, disconnect, handle_message, run_state,
  lastvalues_sync_max_retry_cnt, deliver,
}

pub not-true : (b : Bool) → not b ≡ true → b ≡ false
not-true true h = cc
not-true false h = refl

not-false : (b : Bool) → not b ≡ false → b ≡ true
not-false true h = refl
not-false false h = cc

-- A log after some more requests for the last values.
abbrev pub requests : ℕ → List CommandId → List CommandId
requests zero log = log
requests (suc n) log = last_values_begin_cmd_id ∷ requests n log

requests-cons :
    (n : ℕ) (log : List CommandId)
    → requests n (last_values_begin_cmd_id ∷ log) ≡ requests (suc n) log
requests-cons zero log = refl
requests-cons (suc n) log = ap (λ l. last_values_begin_cmd_id ∷ l) (requests-cons n log)

module _ {V D E M : Type 0} (m : Methods V D E M) where
  -- Whether a request is due: the first one, or one whose timer has run out.
  abbrev pub is_due : Clock → Thing (PropertyContainer V D) → Bool
  is_due now t = not (is_retry t.sync_attempt && not (is_expired now.millis t.sync_attempt))

  -- Calls of `update`, with no message from the cloud in between.
  unfoldable pub updates :
      List Clock → Thing (PropertyContainer V D) → Thing (PropertyContainer V D)
  updates [] t = t
  updates (now ∷ cs) t = updates cs (handle_message m now none t)

  -- How many of the calls come when a request is due.
  unfoldable pub due_count : List Clock → Thing (PropertyContainer V D) → ℕ
  due_count [] t = 0
  due_count (now ∷ cs) t =
      (if is_due now t then 1 else 0) + due_count cs (handle_message m now none t)

  -- A due call in this state, within the limit and beyond it.
  run_state-due :
      (now : Clock) (t : Thing (PropertyContainer V D))
      → t.state ≡ request_last_values
      → is_due now t ≡ true
      → run_state m now t.state t ≡ (
          if ltb lastvalues_sync_max_retry_cnt t.sync_attempt.retry_count
          then (disconnect, t)
          else (
            request_last_values,
            deliver last_values_begin_cmd_id
                (record t { sync_attempt = retry now.millis t.sync_attempt }),
          ))
  unfolding run_state
  run_state-due now t s d =
      ap (λ (x : State). run_state m now x t) s
      ∙ rw (not-true (is_retry t.sync_attempt && not (is_expired now.millis t.sync_attempt)) d)

  pub request-again :
      (now : Clock) (t : Thing (PropertyContainer V D))
      → t.state ≡ request_last_values
      → is_due now t ≡ true
      → t.sync_attempt.retry_count ≤ lastvalues_sync_max_retry_cnt
      → let u = handle_message m now none t in
        (u.state ≡ request_last_values)
        × (u.sync_attempt.retry_count ≡ suc t.sync_attempt.retry_count)
        × (u.delivered ≡ last_values_begin_cmd_id ∷ t.delivered)
  unfolding handle_message retry
  request-again now t s d h =
      let within : ltb lastvalues_sync_max_retry_cnt t.sync_attempt.retry_count ≡ false =
        ground arith in
      let sent =
        deliver last_values_begin_cmd_id
          (record t { sync_attempt = retry now.millis t.sync_attempt }) in
      let r =
        run_state-due now t s d
        ∙ ap (λ b. if b then (disconnect, t) else (request_last_values, sent)) within in
      (
        ap (λ (x : State × Thing (PropertyContainer V D)). x.0) r,
        ap (λ (x : State × Thing (PropertyContainer V D)). x.1.sync_attempt.retry_count) r
            ∙ omega arith,
        ap (λ (x : State × Thing (PropertyContainer V D)). x.1.delivered) r,
      )

  give-up :
      (now : Clock) (t : Thing (PropertyContainer V D))
      → t.state ≡ request_last_values
      → is_due now t ≡ true
      → t.sync_attempt.retry_count ≡ suc lastvalues_sync_max_retry_cnt
      → handle_message m now none t ≡ record t { state = disconnect }
  unfolding handle_message
  give-up now t s d h =
      let beyond : ltb lastvalues_sync_max_retry_cnt t.sync_attempt.retry_count ≡ true =
        ground arith in
      let sent =
        deliver last_values_begin_cmd_id
          (record t { sync_attempt = retry now.millis t.sync_attempt }) in
      let r =
        run_state-due now t s d
        ∙ ap (λ b. if b then (disconnect, t) else (request_last_values, sent)) beyond in
      ap (λ (x : State × Thing (PropertyContainer V D)). record (x.1) { state = x.0 }) r

  wait-on :
      (now : Clock) (t : Thing (PropertyContainer V D))
      → t.state ≡ request_last_values
      → is_due now t ≡ false
      → handle_message m now none t ≡ record t { state = request_last_values }
  unfolding handle_message run_state
  wait-on now t s d =
      let e = not-false (is_retry t.sync_attempt && not (is_expired now.millis t.sync_attempt)) d in
      let r : run_state m now t.state t ≡ (request_last_values, t) =
        ap (λ (x : State). run_state m now x t) s ∙ rw e in
      ap (λ (x : State × Thing (PropertyContainer V D)). record (x.1) { state = x.0 }) r

  disconnected-stays :
      (cs : List Clock) (t : Thing (PropertyContainer V D))
      → t.state ≡ disconnect
      → ((updates cs t).state ≡ disconnect) × ((updates cs t).delivered ≡ t.delivered)
  unfolding updates handle_message run_state
  disconnected-stays [] t s = (s, refl)
  disconnected-stays (now ∷ cs) t s =
      let r : handle_message m now none t ≡ record t { state = disconnect } =
        ap (λ (x : State). let (next, u) = run_state m now x t in record u { state = next }) s in
      subst (λ u. ((updates cs u).state ≡ disconnect) × ((updates cs u).delivered ≡ t.delivered))
        (sym r) (disconnected-stays cs (record t { state = disconnect }) refl)

  -- `u` is `t` after the requests that were left of the eleven, disconnected.
  abbrev pub GaveUp : Thing (PropertyContainer V D) → Thing (PropertyContainer V D) → Type 0
  GaveUp t u =
      (u.state ≡ disconnect)
      × ((left : ℕ) × (left + t.sync_attempt.retry_count ≡ 11)
          × (u.delivered ≡ requests left t.delivered))

  -- With no answer, whenever `update` is called: once more calls were due than requests are left of
  -- the eleven, exactly these requests, messages with the id `LastValuesBeginCmdId`, have been
  -- sent, and the process is in `disconnect`.
  pub updates-disconnect :
      (cs : List Clock) (t : Thing (PropertyContainer V D))
      → t.state ≡ request_last_values
      → t.sync_attempt.retry_count ≤ 11
      → 12 ≤ t.sync_attempt.retry_count + due_count cs t
      → GaveUp t (updates cs t)
  unfolding updates due_count
  updates-disconnect [] t s h d = absurd (omega arith)
  updates-disconnect (now ∷ cs) t s h d = elim (Bool-cases (is_due now t)) [
    | inr early ↦
        let e = wait-on now t s early in
        let u = record t { state = request_last_values } in
        let same : due_count (now ∷ cs) t ≡ due_count cs u =
          ap (λ b. (if b then 1 else 0) + due_count cs (handle_message m now none t)) early
          ∙ ap (λ x. 0 + due_count cs x) e
          ∙ omega arith in
        subst (λ x. GaveUp t (updates cs x)) (sym e)
          (updates-disconnect cs u refl h (omega (arith, same)))
    | inl due ↦
        let same : due_count (now ∷ cs) t ≡ 1 + due_count cs (handle_message m now none t) =
          ap (λ b. (if b then 1 else 0) + due_count cs (handle_message m now none t)) due in
        elim (dec_lt t.sync_attempt.retry_count 11) [
          | yes more ↦
              let u = request-again now t s due (omega arith) in
              let ih =
                updates-disconnect cs (handle_message m now none t) u.0 (omega (arith, u.1))
                  (omega (arith, u.1, same)) in
              (
                ih.0,
                (
                  suc ih.1.0,
                  omega (arith, ih.1.1, u.1),
                  ih.1.2 ∙ ap (requests ih.1.0) u.2 ∙ requests-cons ih.1.0 t.delivered,
                ),
              )
          | no last ↦
              let e = give-up now t s due (omega arith) in
              let k = disconnected-stays cs (record t { state = disconnect }) refl in
              subst (λ x. GaveUp t (updates cs x)) (sym e) (k.0, (0, omega arith, k.1))
        ]
  ]
