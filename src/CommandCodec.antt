-- ===== src/CommandCodec.antt =====
-- src/cbor/CBOR.cpp: the tags of the commands in CBOR. Its children are the two halves of the codec,
-- which the processes of Tcp take as a parameter.
pub mod Encoder
pub mod Decoder
pub mod Sending
pub mod Params
pub mod Receiving
pub mod Rounds
use arduino_io_tcloud.Common.{ℕ, ◌≡◌, ◌≢◌, refl, ◌==◌, if◌then◌else◌}
use arduino_io_tcloud.Messages.{
  CommandId, device_begin_cmd_id, thing_begin_cmd_id, thing_update_cmd_id, thing_detach_cmd_id,
  device_registered_cmd_id, device_attached_cmd_id, device_detached_cmd_id,
  last_values_begin_cmd_id, last_values_update_cmd_id, properties_update_cmd_id, reset_cmd_id,
  ota_begin_up_id, ota_progress_cmd_up_id, ota_update_cmd_down_id, timezone_command_up_id,
  timezone_command_down_id, unknown_cmd_id,
}

unfoldable pub to_command_id : ℕ → CommandId
to_command_id tag =
    if tag == 0x010000
    then ota_begin_up_id
    else if tag == 0x010300
    then thing_begin_cmd_id
    else if tag == 0x010500
    then last_values_begin_cmd_id
    else if tag == 0x010700
    then device_begin_cmd_id
    else if tag == 0x010200
    then ota_progress_cmd_up_id
    else if tag == 0x010800
    then timezone_command_up_id
    else if tag == 0x010100
    then ota_update_cmd_down_id
    else if tag == 0x010400
    then thing_update_cmd_id
    else if tag == 0x011000
    then thing_detach_cmd_id
    else if tag == 0x010600
    then last_values_update_cmd_id
    else if tag == 0x010900
    then timezone_command_down_id
    else unknown_cmd_id

unfoldable pub to_cbor_command_tag : CommandId → ℕ
to_cbor_command_tag ota_begin_up_id = 0x010000
to_cbor_command_tag thing_begin_cmd_id = 0x010300
to_cbor_command_tag last_values_begin_cmd_id = 0x010500
to_cbor_command_tag device_begin_cmd_id = 0x010700
to_cbor_command_tag ota_progress_cmd_up_id = 0x010200
to_cbor_command_tag timezone_command_up_id = 0x010800
to_cbor_command_tag ota_update_cmd_down_id = 0x010100
to_cbor_command_tag thing_update_cmd_id = 0x010400
to_cbor_command_tag thing_detach_cmd_id = 0x011000
to_cbor_command_tag last_values_update_cmd_id = 0x010600
to_cbor_command_tag timezone_command_down_id = 0x010900
to_cbor_command_tag _ = 0xffffffff

-- The commands that the other side can be told.
abbrev pub HasTag : CommandId → Type 0
HasTag c = to_cbor_command_tag c ≢ 0xffffffff

-- A tag names the command it is made from; no tag names a command without one.
pub to_command_id-to_cbor_command_tag :
    (c : CommandId) → HasTag c → to_command_id (to_cbor_command_tag c) ≡ c
unfolding to_command_id to_cbor_command_tag
to_command_id-to_cbor_command_tag ota_begin_up_id h = refl
to_command_id-to_cbor_command_tag thing_begin_cmd_id h = refl
to_command_id-to_cbor_command_tag last_values_begin_cmd_id h = refl
to_command_id-to_cbor_command_tag device_begin_cmd_id h = refl
to_command_id-to_cbor_command_tag ota_progress_cmd_up_id h = refl
to_command_id-to_cbor_command_tag timezone_command_up_id h = refl
to_command_id-to_cbor_command_tag ota_update_cmd_down_id h = refl
to_command_id-to_cbor_command_tag thing_update_cmd_id h = refl
to_command_id-to_cbor_command_tag thing_detach_cmd_id h = refl
to_command_id-to_cbor_command_tag last_values_update_cmd_id h = refl
to_command_id-to_cbor_command_tag timezone_command_down_id h = refl
to_command_id-to_cbor_command_tag device_registered_cmd_id h = absurd (h refl)
to_command_id-to_cbor_command_tag device_attached_cmd_id h = absurd (h refl)
to_command_id-to_cbor_command_tag device_detached_cmd_id h = absurd (h refl)
to_command_id-to_cbor_command_tag properties_update_cmd_id h = absurd (h refl)
to_command_id-to_cbor_command_tag reset_cmd_id h = absurd (h refl)
to_command_id-to_cbor_command_tag unknown_cmd_id h = absurd (h refl)
