-- ===== src/Ota.antt =====
-- src/ota/interface/OTAInterface.{h,cpp}: the process of an update over the air. What the derived
-- class of a board does in a turn are the fields of a `Board`; what is delivered to the cloud is a
-- log, the latest first. Ota.Download and its siblings are src/ota/interface/OTAInterfaceDefault.cpp.
pub mod Crc
pub mod Download
pub mod Images
pub mod Fetches
pub mod Decoded
pub mod Splits
pub mod Approval
pub mod Failures
pub mod Reports
use Prim.Native.String.{String}
use arduino_io_tcloud.Common.{
  ℕ, ◌+◌, ◌*◌, ◌%◌, Bool, true, false, not, ◌&&◌, Option, none, some, List, [], ◌∷◌, leb, ◌==◌,
  if◌then◌else◌, ℤ, int_eq, u32_mod,
}

-- `State`; `failure n` is the error state with the number -(n + 1).
pub data State : Type 0 where
  resume ota_begin idle ota_available start_ota fetch flash_ota reboot fail ota_unavailable : State
  failure : ℕ → State

abbrev pub number : State → ℤ
number resume = ℤ.pos 0
number ota_begin = ℤ.pos 1
number idle = ℤ.pos 2
number ota_available = ℤ.pos 3
number start_ota = ℤ.pos 4
number fetch = ℤ.pos 5
number flash_ota = ℤ.pos 6
number reboot = ℤ.pos 7
number fail = ℤ.pos 8
number ota_unavailable = ℤ.pos 9
number (failure n) = ℤ.negsuc n

abbrev pub same_state : State → State → Bool
same_state a b = int_eq (number a) (number b)

pub record OtaContext : Type 0 where
  pub id : List ℕ
  pub url : String
  pub initial_sha256 : List ℕ
  pub final_sha256 : List ℕ

-- A message: an `OtaUpdateCmdDown` or another one.
pub data Message : Type 0 where
  ota_update_cmd_down : OtaContext → Message
  other_message : Message

-- What is delivered: an `OtaBeginUp` or an `OtaProgressCmdUp`.
pub data Delivery : Type 0 where
  ota_begin_up : List ℕ → Delivery
  ota_progress_cmd_up : List ℕ → State → ℕ → ℤ → Delivery

-- What the board's class answers in a turn: the next states, and the time.
pub record Board : Type 0 where
  pub is_ota_capable : Bool
  pub sha256 : List ℕ
  pub time : ℕ
  pub resume : Option Message → State
  pub start_ota : State
  pub fetch : State
  pub flash_ota : State
  pub reboot : State

-- `policies` are two flags.
pub record Process : Type 0 where
  pub approval_required : Bool
  pub approved : Bool
  pub state : State
  pub previous_state : State
  pub report_last_timestamp : ℕ
  pub report_counter : ℕ
  pub context : Option OtaContext
  pub delivered : List Delivery

unfoldable pub create : Process
create = record {
  approval_required = false;
  approved = false;
  state = resume;
  previous_state = resume;
  report_last_timestamp = 0;
  report_counter = 0;
  context = none;
  delivered = [];
}

unfoldable pub approve_ota : Process → Process
approve_ota s = record s { approved = true }

unfoldable pub set_ota_policies : Bool → Bool → Process → Process
set_ota_policies required approved s = record s {
  approval_required = required;
  approved = approved;
}

unfoldable pub update_state : State → Process → Process
update_state st s =
    if same_state s.state st then s else record s { previous_state = s.state; state = st }

-- The state that a report gives: a failure is `Fail`.
abbrev pub reported_state : State → State
reported_state (failure n) = fail
reported_state st = st

-- A report in the same second as the last one gets the next microsecond.
unfoldable pub deliver_report : OtaContext → ℕ → ℤ → Process → Process
deliver_report context timestamp state_data s =
    let counter = (s.report_counter + 1) % u32_mod in
    let report = ota_progress_cmd_up context.id (reported_state s.state) in
    if timestamp == s.report_last_timestamp
    then record s {
      report_counter = counter;
      delivered = report (timestamp * 1000000 + counter) state_data ∷ s.delivered;
    }
    else record s {
      report_counter = 0;
      report_last_timestamp = timestamp;
      delivered = report (timestamp * 1000000) state_data ∷ s.delivered;
    }

abbrev pub report_for : Option OtaContext → ℕ → ℤ → Process → Process
report_for none timestamp state_data s = s
report_for (some context) timestamp state_data s = deliver_report context timestamp state_data s

unfoldable pub report_status : ℕ → ℤ → Process → Process
report_status timestamp state_data s = report_for s.context timestamp state_data s

unfoldable pub ota_begin_state : Board → Process → State × Process
ota_begin_state w s =
    if not w.is_ota_capable
    then (ota_unavailable, s)
    else (idle, record s { delivered = ota_begin_up w.sha256 ∷ s.delivered })

unfoldable pub idle_state : Option Message → Process → State × Process
idle_state (some (ota_update_cmd_down context)) s =
    (ota_available, record s { context = some context })
idle_state (some other_message) s = (idle, s)
idle_state none s = (idle, s)

unfoldable pub ota_available_state : Process → State × Process
ota_available_state s =
    if s.approval_required && not s.approved
    then (ota_available, s)
    else (start_ota, record s { approved = false })

-- `fail`; `reset` changes nothing that is kept here.
unfoldable pub fail_state : Process → State × Process
fail_state s = (idle, record s { context = none })

-- Whether the state is one that is reported, and the data of its report.
abbrev pub is_reported : State → Bool
is_reported resume = false
is_reported ota_begin = false
is_reported idle = false
is_reported _ = true

abbrev pub report_data : State → ℤ
report_data (failure n) = ℤ.negsuc n
report_data st = ℤ.pos 0

abbrev pub run_state : Board → Option Message → State → Process → State × Process
run_state w msg resume s = (w.resume msg, s)
run_state w msg ota_begin s = ota_begin_state w s
run_state w msg idle s = idle_state msg s
run_state w msg ota_available s = ota_available_state s
run_state w msg start_ota s = (w.start_ota, s)
run_state w msg fetch s = (w.fetch, s)
run_state w msg flash_ota s = (w.flash_ota, s)
run_state w msg reboot s = (w.reboot, s)
run_state w msg ota_unavailable s = (ota_unavailable, s)
run_state w msg fail s = fail_state s
run_state w msg (failure n) s = fail_state s

-- The report of a state that is new.
unfoldable pub announce : Board → Process → Process
announce w s =
    if is_reported s.state && not (same_state s.previous_state s.state)
    then report_status w.time (report_data s.state) s
    else s

abbrev pub arrive : State × Process → Process
arrive (st, s) = update_state st s

abbrev pub dispatch : Board → Option Message → State → Process → Process
dispatch w msg st s = arrive (run_state w msg st (record s { previous_state = st }))

unfoldable pub handle_message : Board → Option Message → Process → Process
handle_message w msg s = let s' = announce w s in dispatch w msg s'.state s'

unfoldable pub update : Board → Process → Process
update w s = handle_message w none s
