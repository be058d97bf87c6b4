-- ===== src/Ota/Reports.antt =====
-- The times of the reports that src/ota/interface/OTAInterface.cpp sends.
use arduino_io_tcloud.Common.{
  ℕ, suc, ◌+◌, ◌*◌, ◌%◌, ◌≤◌, ◌<◌, ◌≡◌, refl, sym, Bool, true, false, Option, none, some, List, [],
  ◌∷◌, ◌==◌, ==_iff, length, Bool-cases, inl, inr, if◌then◌else◌, ℤ, u32_mod, arith,
}
use mathlib.Core.Path.{subst}
use arduino_io_tcloud.Ota.{
  Process, OtaContext, Delivery, ota_begin_up, ota_progress_cmd_up, deliver_report, report_for,
  report_status, reported_state,
}

-- Some calls of `reportStatus`.
unfoldable pub reports : List (ℕ × ℤ) → Process → Process
reports [] s = s
reports ((timestamp, state_data) ∷ rs) s = reports rs (report_status timestamp state_data s)

-- The time of the last report.
abbrev pub last_time : Process → ℕ
last_time s = s.report_last_timestamp * 1000000 + s.report_counter

-- The times of the reports in a log go up, to below `t`.
abbrev pub Ascend : ℕ → List Delivery → Type 0
Ascend t [] = Unit {0}
Ascend t (ota_begin_up sha ∷ ds) = Ascend t ds
Ascend t (ota_progress_cmd_up id st time state_data ∷ ds) = (time < t) × Ascend time ds

-- Timestamps that do not go back, from `t` on.
abbrev pub IsSorted : ℕ → List (ℕ × ℤ) → Type 0
IsSorted t [] = Unit {0}
IsSorted t ((timestamp, state_data) ∷ rs) = (t ≤ timestamp) × IsSorted timestamp rs

pub record IsOrdered (n : ℕ) (s : Process) : Type 0 where
  pub counted : s.report_counter ≤ n
  pub ascending : Ascend (suc (last_time s)) s.delivered

Ascend-mono : (t t' : ℕ) (ds : List Delivery) → t ≤ t' → Ascend t ds → Ascend t' ds
Ascend-mono t t' [] h a = a
Ascend-mono t t' (ota_begin_up sha ∷ ds) h a = Ascend-mono t t' ds h a
Ascend-mono t t' (ota_progress_cmd_up id st time d ∷ ds) h a = (omega arith, a.1)

-- A process with a report more.
abbrev sent : OtaContext → ℤ → ℕ → ℕ → ℕ → Process → Process
sent context d timestamp counter time s = record s {
  report_counter = counter;
  report_last_timestamp = timestamp;
  delivered = ota_progress_cmd_up context.id (reported_state s.state) time d ∷ s.delivered;
}

sent-IsOrdered :
    (n timestamp counter time : ℕ) (d : ℤ) (context : OtaContext) (s : Process)
    → last_time s < time
    → time ≡ timestamp * 1000000 + counter
    → counter ≤ suc n
    → IsOrdered n s
    → IsOrdered (suc n) (sent context d timestamp counter time s)
sent-IsOrdered n timestamp counter time d context s h e k o = record {
  counted = k;
  ascending = (omega arith, Ascend-mono _ _ s.delivered (omega arith) o.ascending);
}

-- The two branches of a report: its timestamp is the last one, or a later one.
deliver-IsOrdered :
    (n timestamp : ℕ) (d : ℤ) (context : OtaContext) (s : Process) (b : Bool)
    → (timestamp == s.report_last_timestamp) ≡ b
    → s.report_last_timestamp ≤ timestamp
    → suc n < 1000000
    → IsOrdered n s
    → let counter = (s.report_counter + 1) % u32_mod in
      IsOrdered (suc n) (
        if b
        then sent context d s.report_last_timestamp counter (timestamp * 1000000 + counter) s
        else sent context d timestamp 0 (timestamp * 1000000) s)
deliver-IsOrdered n timestamp d context s true e h k o =
    let same = (==_iff timestamp s.report_last_timestamp).0 e in
    let small = o.counted in
    sent-IsOrdered n _ _ _ d context s (omega (arith, same, small)) (omega (arith, same))
      (omega (arith, small)) o
deliver-IsOrdered n timestamp d context s false e h k o =
    let later : s.report_last_timestamp < timestamp = ground (arith, e) in
    let small = o.counted in
    sent-IsOrdered n _ _ _ d context s (omega (arith, later, small)) (omega arith) (omega arith) o

deliver_report-IsOrdered :
    (n timestamp : ℕ) (d : ℤ) (context : OtaContext) (s : Process)
    → s.report_last_timestamp ≤ timestamp
    → suc n < 1000000
    → IsOrdered n s
    → IsOrdered (suc n) (deliver_report context timestamp d s)
unfolding deliver_report
deliver_report-IsOrdered n timestamp d context s h k o =
    deliver-IsOrdered n timestamp d context s (timestamp == s.report_last_timestamp) refl h k o

deliver_report-timestamp :
    (timestamp : ℕ) (d : ℤ) (context : OtaContext) (s : Process)
    → (deliver_report context timestamp d s).report_last_timestamp ≡ timestamp
unfolding deliver_report
deliver_report-timestamp timestamp d context s =
    elim (Bool-cases (timestamp == s.report_last_timestamp)) [
      | inl e ↦ rw e (sym ((==_iff timestamp s.report_last_timestamp).0 e))
      | inr e ↦ rw e
    ]

-- A report, if there is an update to report on.
status-IsOrdered :
    (n timestamp : ℕ) (d : ℤ) (s : Process) (c : Option OtaContext)
    → s.report_last_timestamp ≤ timestamp
    → suc n < 1000000
    → IsOrdered n s
    → let s' = report_for c timestamp d s in
      (s'.report_last_timestamp ≤ timestamp) × IsOrdered (suc n) s'
status-IsOrdered n timestamp d s none h k o =
    (h, record { counted = omega (arith, o.counted); ascending = o.ascending })
status-IsOrdered n timestamp d s (some x) h k o = (
  omega (arith, deliver_report-timestamp timestamp d x s),
  deliver_report-IsOrdered n timestamp d x s h k o,
)

IsSorted-mono : (t t' : ℕ) (rs : List (ℕ × ℤ)) → t ≤ t' → IsSorted t' rs → IsSorted t rs
IsSorted-mono t t' [] h a = a
IsSorted-mono t t' ((timestamp, d) ∷ rs) h a = (omega arith, a.1)

-- Each report has a later time than those before it, as long as the clock does not go back, and for
-- less than a million reports.
pub reports-IsOrdered :
    (n : ℕ) (rs : List (ℕ × ℤ)) (s : Process)
    → IsSorted s.report_last_timestamp rs
    → n + length rs < 1000000
    → IsOrdered n s
    → IsOrdered (n + length rs) (reports rs s)
unfolding reports report_status
reports-IsOrdered n [] s h k o = subst (λ m. IsOrdered m s) (omega arith) o
reports-IsOrdered n ((timestamp, d) ∷ rs) s h k o =
    let r = status-IsOrdered n timestamp d s s.context h.0 (omega arith) o in
    subst (λ m. IsOrdered m (reports rs (report_status timestamp d s))) (omega arith)
      (reports-IsOrdered (suc n) rs _ (IsSorted-mono _ timestamp rs r.0 h.1) (omega arith) r.1)
