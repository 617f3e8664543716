-- ===== src/Defs.antt =====
-- defs.go: the enumerations of the protocol, each with its numbers.
pub mod Group
pub mod ReturnCode
pub mod Device
use go_adstc.Prelude.{ℕ}

-- When the controller sends a notification.
pub data TransMode : Type 0 where
  no_transmission client_cycle client_on_change server_cycle server_on_change : TransMode
  client1_reqest : TransMode

abbrev pub mode_number : TransMode → ℕ
mode_number no_transmission = 0
mode_number client_cycle = 1
mode_number client_on_change = 2
mode_number server_cycle = 3
mode_number server_on_change = 4
mode_number client1_reqest = 5

-- The commands.
pub data CommandId : Type 0 where
  in_value_id read_device_info read write read_state write_control : CommandId
  add_device_notification delete_device_notification device_notification read_write : CommandId

abbrev pub command_number : CommandId → ℕ
command_number in_value_id = 0
command_number read_device_info = 1
command_number read = 2
command_number write = 3
command_number read_state = 4
command_number write_control = 5
command_number add_device_notification = 6
command_number delete_device_notification = 7
command_number device_notification = 8
command_number read_write = 9
