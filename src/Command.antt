-- ===== src/Command.antt =====
-- The files command*.go: one method for each ADS command that the client sends.
pub mod Codes
pub mod Replies
use go_adstc.Prelude.{ℕ, zero, suc, ◌+◌, ◌/◌, ◌%◌, ◌^◌, Bool, true, false, not, ltb, ◌==◌}
use go_adstc.Prelude.{List, [], ◌∷◌, ◌++◌, length, replicate, if◌then◌else◌}
use go_adstc.Go.Result.{Result, ok, err, panic, ads_error, wrong_length, notification_refused}
use go_adstc.Go.Binary.{Layout, field, pack, read_struct, read_over}
use go_adstc.Ams.{command_read, command_write, command_read_write, command_read_state}
use go_adstc.Ams.{command_read_device_info, command_add_device_notification}
use go_adstc.Ams.{command_delete_device_notification}
use go_adstc.Conn.{Env, Conn, M, ◌>>=◌, ◌>>◌, pure, fail, lift, modify, send_request}

-- readCommandPacket, and writeCommandPacket with the same fields
abbrev pub packet_layout : Layout
packet_layout = 4 ∷ 4 ∷ 4 ∷ []

-- writeReadCommandPacket
abbrev pub write_read_layout : Layout
write_read_layout = 4 ∷ 4 ∷ 4 ∷ 4 ∷ []

-- addDeviceNotificationCommandPacket, with 16 reserved bytes
abbrev pub add_notification_layout : Layout
add_notification_layout = 4 ∷ 4 ∷ 4 ∷ 4 ∷ 4 ∷ 4 ∷ replicate 16 1

-- A response of an error code and a number: readResponse, addDeviceNotificationResponse.
pub record Response : Type 0 where
  pub error : ℕ
  pub number : ℕ

abbrev pub response_layout : Layout
response_layout = 4 ∷ 4 ∷ []

abbrev pub response_of : List ℕ → Response
response_of vs = record { error = field vs 0; number = field vs 1 }

abbrev pub no_response : Response
no_response = record { error = 0; number = 0 }

-- states
pub record States : Type 0 where
  pub ads_state : ℕ
  pub device_state : ℕ

pub record DeviceInfo : Type 0 where
  pub major : ℕ
  pub minor : ℕ
  pub version : ℕ
  pub device_name : List ℕ

-- readStateResponse: the error code is read and then not looked at.
abbrev pub state_layout : Layout
state_layout = 4 ∷ 2 ∷ 2 ∷ []

abbrev pub states_of : List ℕ → States
states_of vs = record { ads_state = field vs 1; device_state = field vs 2 }

abbrev pub no_states : States
no_states = record { ads_state = 0; device_state = 0 }

abbrev pub no_info : DeviceInfo
no_info = record { major = 0; minor = 0; version = 0; device_name = replicate 16 0 }

-- Read, after binary.Read of the response.
unfoldable pub check_response : Result Response × List ℕ → Result (List ℕ)
check_response (ok response, rest) =
    if ltb 0 response.error then err (ads_error response.error) else ok rest
check_response (err e, rest) = err e
check_response (panic, rest) = panic

unfoldable pub read_response : List ℕ → Result (List ℕ)
read_response resp = check_response (read_struct response_layout response_of resp)

-- WriteRead drops the error of binary.Read.
unfoldable pub write_read_response : List ℕ → Result (List ℕ)
write_read_response resp =
    let (response, rest) = read_over response_layout response_of no_response resp in
    if ltb 0 response.error then err (ads_error response.error) else ok rest

-- Write and DeleteDeviceNotification: the response code, 0 when it cannot be read.
unfoldable pub code_response : List ℕ → Result (Unit {0})
code_response resp =
    let (code, rest) = read_over (4 ∷ []) (λ vs. field vs 0) 0 resp in
    if ltb 0 code then err (ads_error code) else ok tt

unfoldable pub check_added : Result Response × List ℕ → Result ℕ
check_added (ok response, rest) =
    if not (response.error == 0) then err notification_refused else ok response.number
check_added (err e, rest) = err e
check_added (panic, rest) = panic

-- AddDeviceNotification, after the response has come.
unfoldable pub add_notification_response : List ℕ → Result ℕ
add_notification_response resp = check_added (read_struct response_layout response_of resp)

unfoldable pub state_response : List ℕ → States
state_response resp = (read_over state_layout states_of no_states resp).0

-- binary.Read is given the struct and not a pointer to it: it fails and reads nothing, the error
-- is dropped, and the zero value is returned.
unfoldable pub info_response : List ℕ → Result DeviceInfo
info_response resp =
    if not (length resp == 24) then err (wrong_length (length resp)) else ok no_info

-- delete(conn.activeNotifications, handle)
unfoldable pub remove_handle : ℕ → List (ℕ × ℕ) → List (ℕ × ℕ)
remove_handle h [] = []
remove_handle h ((j, s) ∷ m) =
    let rest = remove_handle h m in if j == h then rest else (j, s) ∷ rest

module _ (env : Env) where
  unfoldable pub read : ℕ → ℕ → ℕ → M (List ℕ)
  read group offset length = do
    resp ← send_request env command_read (pack packet_layout (group ∷ offset ∷ length ∷ []))
    lift (read_response resp)

  unfoldable pub write : ℕ → ℕ → List ℕ → M (Unit {0})
  write group offset payload = do
    let header = pack packet_layout (group ∷ offset ∷ (length payload % 2 ^ 32) ∷ [])
    resp ← send_request env command_write (header ++ payload)
    lift (code_response resp)

  unfoldable pub write_read : ℕ → ℕ → ℕ → List ℕ → M (List ℕ)
  write_read group offset read_length payload = do
    let fields = group ∷ offset ∷ read_length ∷ (length payload % 2 ^ 32) ∷ []
    resp ← send_request env command_read_write (pack write_read_layout fields ++ payload)
    lift (write_read_response resp)

  unfoldable pub read_state : M States
  read_state = do resp ← send_request env command_read_state []; pure (state_response resp)

  unfoldable pub read_device_info : M DeviceInfo
  read_device_info = do
    resp ← send_request env command_read_device_info []
    lift (info_response resp)

  -- The delays are nanoseconds; a unit of 100 ns is sent, as a uint32.
  unfoldable pub add_device_notification : ℕ → ℕ → ℕ → ℕ → ℕ → ℕ → M ℕ
  add_device_notification group offset length mode max_delay cycle_time = do
    let delay = max_delay / 100 % 2 ^ 32
    let cycle = cycle_time / 100 % 2 ^ 32
    let fields = group ∷ offset ∷ length ∷ mode ∷ delay ∷ cycle ∷ replicate 16 0
    resp ← send_request env command_add_device_notification (pack add_notification_layout fields)
    lift (add_notification_response resp)

  unfoldable pub delete_device_notification : ℕ → M (Unit {0})
  delete_device_notification handle = do
    resp ← send_request env command_delete_device_notification (pack (4 ∷ []) (handle ∷ []))
    lift (code_response resp)
    modify (λ c. record c { active_notifications = remove_handle handle c.active_notifications })
