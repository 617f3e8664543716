-- ===== src/Defs/Device.antt =====
-- defs.go: what a device is asked for: its ports, its states and where they stand.
use go_adstc.Prelude.{ℕ, ◌+◌}

-- The state of a device.
pub data AdsState : Type 0 where
  invalid idle reset init start run stop save_cfg load_cfg power_failure power_good : AdsState
  error shutdown suspend resume config reconfig max_states : AdsState

abbrev pub state_number : AdsState → ℕ
state_number invalid = 0
state_number idle = 1
state_number reset = 2
state_number init = 3
state_number start = 4
state_number run = 5
state_number stop = 6
state_number save_cfg = 7
state_number load_cfg = 8
state_number power_failure = 9
state_number power_good = 10
state_number error = 11
state_number shutdown = 12
state_number suspend = 13
state_number resume = 14
state_number config = 15
state_number reconfig = 16
state_number max_states = 255

-- The ports of TwinCAT. Two names stand for 801.
pub data Port : Type 0 where
  logger r0_rtime r0_trace r0_io r0_sps r0_nc r0_isg r0_pcs r0_plc r0_plc_rts1 : Port
  r0_plc_rts2 r0_plc_rts3 r0_plc_rts4 r0_plc_tc3 : Port

abbrev pub port_number : Port → ℕ
port_number logger = 100
port_number r0_rtime = 200
port_number r0_trace = 200 + 90
port_number r0_io = 300
port_number r0_sps = 400
port_number r0_nc = 500
port_number r0_isg = 550
port_number r0_pcs = 600
port_number r0_plc = 801
port_number r0_plc_rts1 = 801
port_number r0_plc_rts2 = 811
port_number r0_plc_rts3 = 821
port_number r0_plc_rts4 = 831
port_number r0_plc_tc3 = 851

-- Where the states stand in the group of the device.
pub data Offset : Type 0 where
  device_data_ads_state device_data_device_state : Offset

abbrev pub offset_number : Offset → ℕ
offset_number device_data_ads_state = 0x0000
offset_number device_data_device_state = 0x0002
