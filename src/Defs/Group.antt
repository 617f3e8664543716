-- ===== src/Defs/Group.antt =====
-- defs.go: the reserved index groups.
use go_adstc.Prelude.{ℕ}

-- The reserved index groups.
pub data Group : Type 0 where
  symbol_tab symbol_name symbol_value symbol_handle_by_name symbol_value_by_name : Group
  symbol_value_by_handle symbol_release_handle symbol_info_by_name symbol_version : Group
  symbol_info_by_name_ex symbol_download symbol_upload symbol_upload_info : Group
  symbol_download2 symbol_data_type_upload symbol_upload_info2 symbol_notification : Group
  sumup_read sumup_write sumup_read_write sumup_read_ex sumup_read_ex2 : Group
  sumup_add_device_notification sumup_delete_device_notification io_image_rwib : Group
  io_image_rwix io_image_risize io_image_rwob io_image_rwox io_image_cleari : Group
  io_image_clearo io_image_rwiob device_data : Group

abbrev pub group_number : Group → ℕ
group_number symbol_tab = 0xf000
group_number symbol_name = 0xf001
group_number symbol_value = 0xf002
group_number symbol_handle_by_name = 0xf003
group_number symbol_value_by_name = 0xf004
group_number symbol_value_by_handle = 0xf005
group_number symbol_release_handle = 0xf006
group_number symbol_info_by_name = 0xf007
group_number symbol_version = 0xf008
group_number symbol_info_by_name_ex = 0xf009
group_number symbol_download = 0xf00a
group_number symbol_upload = 0xf00b
group_number symbol_upload_info = 0xf00c
group_number symbol_download2 = 0xf00d
group_number symbol_data_type_upload = 0xf00e
group_number symbol_upload_info2 = 0xf00f
group_number symbol_notification = 0xf010
group_number sumup_read = 0xf080
group_number sumup_write = 0xf081
group_number sumup_read_write = 0xf082
group_number sumup_read_ex = 0xf083
group_number sumup_read_ex2 = 0xf084
group_number sumup_add_device_notification = 0xf085
group_number sumup_delete_device_notification = 0xf086
group_number io_image_rwib = 0xf020
group_number io_image_rwix = 0xf021
group_number io_image_risize = 0xf025
group_number io_image_rwob = 0xf030
group_number io_image_rwox = 0xf031
group_number io_image_cleari = 0xf040
group_number io_image_clearo = 0xf050
group_number io_image_rwiob = 0xf060
group_number device_data = 0xf100
