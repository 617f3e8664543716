-- ===== src/Defs/ReturnCode.antt =====
-- defs.go: the return codes. The source gives no name to 0x748.
use go_adstc.Prelude.{ℕ, ◌+◌}

abbrev pub return_code_error_offset : ℕ
return_code_error_offset = 0x0700

-- The return codes of ADS.
pub data ReturnCode : Type 0 where
  no_errors device_error device_service_not_supported device_invalid_group : ReturnCode
  device_invalid_offset device_invalid_access device_invalid_size device_invalid_data : ReturnCode
  device_not_ready device_busy device_invalid_context device_no_memory : ReturnCode
  device_invalid_param device_not_found device_syntax device_incompatible device_exists : ReturnCode
  device_symbol_no_found device_symbol_version_invalid device_invalid_state : ReturnCode
  device_trans_mode_not_supported device_notify_handle_invalid device_client_unknown : ReturnCode
  device_no_more_handles device_invalid_watch_size device_not_initialized : ReturnCode
  device_timeout device_no_interface device_invalid_interface device_invalid_cls_id : ReturnCode
  device_invalid_obj_id device_pending device_aborted device_warning : ReturnCode
  device_invalid_array_index device_symbol_not_active device_access_denied : ReturnCode
  device_license_not_found device_license_expired device_license_exceeded : ReturnCode
  device_license_invalid device_license_system_id device_license_no_time_limit : ReturnCode
  device_license_future_issue device_license_time_to_long device_exception : ReturnCode
  device_license_duplicated device_signature_invalid device_certificate_invalid : ReturnCode
  client_error client_invalid_parameter client_list_empty client_var_used : ReturnCode
  client_duplicate_invoke_id client_sync_timeout client_w32_error : ReturnCode
  client_timeout_invalid client_no_ams_address client_sync_internal client_add_hash : ReturnCode
  client_remove_hash client_no_more_symbols client_sync_response_invalid : ReturnCode
  client_sync_port_locked : ReturnCode

abbrev pub return_code_number : ReturnCode → ℕ
return_code_number no_errors = 0x00
return_code_number device_error = 0x00 + return_code_error_offset
return_code_number device_service_not_supported = 0x01 + return_code_error_offset
return_code_number device_invalid_group = 0x02 + return_code_error_offset
return_code_number device_invalid_offset = 0x03 + return_code_error_offset
return_code_number device_invalid_access = 0x04 + return_code_error_offset
return_code_number device_invalid_size = 0x05 + return_code_error_offset
return_code_number device_invalid_data = 0x06 + return_code_error_offset
return_code_number device_not_ready = 0x07 + return_code_error_offset
return_code_number device_busy = 0x08 + return_code_error_offset
return_code_number device_invalid_context = 0x09 + return_code_error_offset
return_code_number device_no_memory = 0x0a + return_code_error_offset
return_code_number device_invalid_param = 0x0b + return_code_error_offset
return_code_number device_not_found = 0x0c + return_code_error_offset
return_code_number device_syntax = 0x0d + return_code_error_offset
return_code_number device_incompatible = 0x0e + return_code_error_offset
return_code_number device_exists = 0x0f + return_code_error_offset
return_code_number device_symbol_no_found = 0x10 + return_code_error_offset
return_code_number device_symbol_version_invalid = 0x11 + return_code_error_offset
return_code_number device_invalid_state = 0x12 + return_code_error_offset
return_code_number device_trans_mode_not_supported = 0x13 + return_code_error_offset
return_code_number device_notify_handle_invalid = 0x14 + return_code_error_offset
return_code_number device_client_unknown = 0x15 + return_code_error_offset
return_code_number device_no_more_handles = 0x16 + return_code_error_offset
return_code_number device_invalid_watch_size = 0x17 + return_code_error_offset
return_code_number device_not_initialized = 0x18 + return_code_error_offset
return_code_number device_timeout = 0x19 + return_code_error_offset
return_code_number device_no_interface = 0x1a + return_code_error_offset
return_code_number device_invalid_interface = 0x1b + return_code_error_offset
return_code_number device_invalid_cls_id = 0x1c + return_code_error_offset
return_code_number device_invalid_obj_id = 0x1d + return_code_error_offset
return_code_number device_pending = 0x1e + return_code_error_offset
return_code_number device_aborted = 0x1f + return_code_error_offset
return_code_number device_warning = 0x20 + return_code_error_offset
return_code_number device_invalid_array_index = 0x21 + return_code_error_offset
return_code_number device_symbol_not_active = 0x22 + return_code_error_offset
return_code_number device_access_denied = 0x23 + return_code_error_offset
return_code_number device_license_not_found = 0x24 + return_code_error_offset
return_code_number device_license_expired = 0x25 + return_code_error_offset
return_code_number device_license_exceeded = 0x26 + return_code_error_offset
return_code_number device_license_invalid = 0x27 + return_code_error_offset
return_code_number device_license_system_id = 0x28 + return_code_error_offset
return_code_number device_license_no_time_limit = 0x29 + return_code_error_offset
return_code_number device_license_future_issue = 0x2a + return_code_error_offset
return_code_number device_license_time_to_long = 0x2b + return_code_error_offset
return_code_number device_exception = 0x2c + return_code_error_offset
return_code_number device_license_duplicated = 0x2d + return_code_error_offset
return_code_number device_signature_invalid = 0x2e + return_code_error_offset
return_code_number device_certificate_invalid = 0x2f + return_code_error_offset
return_code_number client_error = 0x40 + return_code_error_offset
return_code_number client_invalid_parameter = 0x41 + return_code_error_offset
return_code_number client_list_empty = 0x42 + return_code_error_offset
return_code_number client_var_used = 0x43 + return_code_error_offset
return_code_number client_duplicate_invoke_id = 0x44 + return_code_error_offset
return_code_number client_sync_timeout = 0x45 + return_code_error_offset
return_code_number client_w32_error = 0x46 + return_code_error_offset
return_code_number client_timeout_invalid = 0x47 + return_code_error_offset
return_code_number client_no_ams_address = 0x49 + return_code_error_offset
return_code_number client_sync_internal = 0x50 + return_code_error_offset
return_code_number client_add_hash = 0x51 + return_code_error_offset
return_code_number client_remove_hash = 0x52 + return_code_error_offset
return_code_number client_no_more_symbols = 0x53 + return_code_error_offset
return_code_number client_sync_response_invalid = 0x54 + return_code_error_offset
return_code_number client_sync_port_locked = 0x55 + return_code_error_offset
