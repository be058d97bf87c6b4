-- ===== src/Messages.antt =====
-- src/message/Commands.h: the commands that the cloud processes exchange.
use arduino_io_tcloud.Common.{ℕ}

pub data CommandId : Type 0 where
  device_begin_cmd_id thing_begin_cmd_id thing_update_cmd_id thing_detach_cmd_id : CommandId
  device_registered_cmd_id device_attached_cmd_id device_detached_cmd_id : CommandId
  last_values_begin_cmd_id last_values_update_cmd_id properties_update_cmd_id : CommandId
  reset_cmd_id : CommandId
  ota_begin_up_id ota_progress_cmd_up_id ota_update_cmd_down_id : CommandId
  timezone_command_up_id timezone_command_down_id : CommandId
  unknown_cmd_id : CommandId

-- A message, as a cloud process reads it: `offset` and `until` are the parameters of a
-- `TimezoneCommandDown` (the offset, an `int`, as its 32-bit pattern), and are read for that id only.
pub record Message : Type 0 where
  pub id : CommandId
  pub offset : ℕ
  pub until : ℕ

-- `Message message = { id };`
abbrev pub message : CommandId → Message
message c = record { id = c; offset = 0; until = 0 }
