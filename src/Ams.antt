-- ===== src/Ams.antt =====
-- ams.go and the addresses of defs.go: AMS headers and their wire format.
pub mod Dotted
pub mod Frame
use go_adstc.Prelude.{ℕ, ◌+◌, ◌%◌, ◌^◌, List, [], ◌∷◌, ◌++◌, length}
use go_adstc.Go.Binary.{Layout, field, pack}
use go_adstc.Defs.{command_number, read_device_info, read, write, read_state, read_write}
use go_adstc.Defs.{add_device_notification, delete_device_notification, device_notification}

-- [6]byte
pub record NetId : Type 0 where
  pub b0 : ℕ
  pub b1 : ℕ
  pub b2 : ℕ
  pub b3 : ℕ
  pub b4 : ℕ
  pub b5 : ℕ

pub record AmsAddress : Type 0 where
  pub net_id : NetId
  pub port : ℕ

pub record AmsTcpHeader : Type 0 where
  pub unknown1 : ℕ
  pub system : ℕ
  pub length : ℕ

pub record AmsHeader : Type 0 where
  pub target : AmsAddress
  pub source : AmsAddress
  pub command : ℕ
  pub state : ℕ
  pub length : ℕ
  pub error_code : ℕ
  pub invoke_id : ℕ

-- The commands that are sent or received.
abbrev pub command_read_device_info : ℕ
command_read_device_info = command_number read_device_info

abbrev pub command_read : ℕ
command_read = command_number read

abbrev pub command_write : ℕ
command_write = command_number write

abbrev pub command_read_state : ℕ
command_read_state = command_number read_state

abbrev pub command_add_device_notification : ℕ
command_add_device_notification = command_number add_device_notification

abbrev pub command_delete_device_notification : ℕ
command_delete_device_notification = command_number delete_device_notification

abbrev pub command_device_notification : ℕ
command_device_notification = command_number device_notification

abbrev pub command_read_write : ℕ
command_read_write = command_number read_write

abbrev pub tcp_layout : Layout
tcp_layout = 1 ∷ 1 ∷ 4 ∷ []

abbrev pub header_layout : Layout
header_layout = 1 ∷ 1 ∷ 1 ∷ 1 ∷ 1 ∷ 1 ∷ 2 ∷ 1 ∷ 1 ∷ 1 ∷ 1 ∷ 1 ∷ 1 ∷ 2 ∷ 2 ∷ 2 ∷ 4 ∷ 4 ∷ 4 ∷ []

abbrev pub tcp_values : AmsTcpHeader → List ℕ
tcp_values h = h.unknown1 ∷ h.system ∷ h.length ∷ []

abbrev pub tcp_of : List ℕ → AmsTcpHeader
tcp_of vs = record { unknown1 = field vs 0; system = field vs 1; length = field vs 2 }

abbrev pub address_values : AmsAddress → List ℕ → List ℕ
address_values a rest =
    a.net_id.b0 ∷ a.net_id.b1 ∷ a.net_id.b2 ∷ a.net_id.b3 ∷ a.net_id.b4 ∷ a.net_id.b5 ∷ a.port
    ∷ rest

abbrev pub address_of : List ℕ → ℕ → AmsAddress
address_of vs i = record {
  net_id = record {
    b0 = field vs i;
    b1 = field vs (1 + i);
    b2 = field vs (2 + i);
    b3 = field vs (3 + i);
    b4 = field vs (4 + i);
    b5 = field vs (5 + i);
  };
  port = field vs (6 + i);
}

abbrev pub header_values : AmsHeader → List ℕ
header_values h =
    address_values h.target
      (address_values h.source (h.command ∷ h.state ∷ h.length ∷ h.error_code ∷ h.invoke_id ∷ []))

abbrev pub header_of : List ℕ → AmsHeader
header_of vs = record {
  target = address_of vs 0;
  source = address_of vs 7;
  command = field vs 14;
  state = field vs 15;
  length = field vs 16;
  error_code = field vs 17;
  invoke_id = field vs 18;
}

-- The TCP header that `encode` writes: uint32(32 + len(data)) wraps.
abbrev pub request_tcp : List ℕ → AmsTcpHeader
request_tcp payload = record { unknown1 = 0; system = 0; length = (32 + length payload) % 2 ^ 32 }

-- The AMS header that `encode` writes.
abbrev pub request_header : AmsAddress → AmsAddress → ℕ → List ℕ → ℕ → AmsHeader
request_header target source command payload invoke_id = record {
  target = target;
  source = source;
  command = command;
  state = 4;
  length = length payload % 2 ^ 32;
  error_code = 0;
  invoke_id = invoke_id;
}

-- conn.encode: writing fixed-size values to a bytes.Buffer does not fail, so no error is returned.
unfoldable pub encode : AmsAddress → AmsAddress → ℕ → List ℕ → ℕ → List ℕ
encode target source command payload invoke_id =
    pack tcp_layout (tcp_values (request_tcp payload))
    ++ (pack header_layout (header_values (request_header target source command payload invoke_id))
        ++ payload)
