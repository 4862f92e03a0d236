-- ===== src/Config.antt =====
-- package/ezsp-spi/src/ezsp-spi.h, config.c: `struct cfg`, `struct pins` and the protocol's
-- constants. The fields that only choose what is printed (`quiet`, `verbose`) and the paths that
-- only the kernel reads are left out; `cfg.ezsp_version`, which changes while the program runs,
-- is in `Host`.
use openwrt_ezsp_spi.Prelude.{ℕ, Bool, true, false, Option, none, List, replicate}

abbrev pub spi_cmd_version : ℕ
spi_cmd_version = 0x0A

abbrev pub spi_cmd_status : ℕ
spi_cmd_status = 0x0B

abbrev pub spi_cmd_ezsp_frame : ℕ
spi_cmd_ezsp_frame = 0xFE

abbrev pub spi_frame_terminator : ℕ
spi_frame_terminator = 0xA7

abbrev pub spi_idle : ℕ
spi_idle = 0xFF

abbrev pub spi_err_unsupported : ℕ
spi_err_unsupported = 0x04

abbrev pub ezsp_version_id : ℕ
ezsp_version_id = 0x00

abbrev pub ezsp_callback : ℕ
ezsp_callback = 0x06

abbrev pub ezsp_no_callbacks : ℕ
ezsp_no_callbacks = 0x07

abbrev pub ezsp_permit_joining : ℕ
ezsp_permit_joining = 0x22

abbrev pub ezsp_start_scan : ℕ
ezsp_start_scan = 0x1A

abbrev pub ezsp_network_found_handler : ℕ
ezsp_network_found_handler = 0x1B

abbrev pub ezsp_scan_complete_handler : ℕ
ezsp_scan_complete_handler = 0x1C

abbrev pub ezsp_active_scan : ℕ
ezsp_active_scan = 0x01

abbrev pub ezsp_set_configuration_value : ℕ
ezsp_set_configuration_value = 0x53

abbrev pub ezsp_set_radio_power : ℕ
ezsp_set_radio_power = 0x99

abbrev pub ezsp_add_endpoint_id : ℕ
ezsp_add_endpoint_id = 0x02

abbrev pub ezsp_send_unicast : ℕ
ezsp_send_unicast = 0x34

abbrev pub ember_success : ℕ
ember_success = 0x00

abbrev pub ezsp_config_stack_profile : ℕ
ezsp_config_stack_profile = 0x0C

abbrev pub ezsp_config_security_level : ℕ
ezsp_config_security_level = 0x0D

abbrev pub ezsp_config_tc_address_cache_size : ℕ
ezsp_config_tc_address_cache_size = 0x19

abbrev pub ezsp_config_key_table_size : ℕ
ezsp_config_key_table_size = 0x1E

abbrev pub zcl_profile_ha : ℕ
zcl_profile_ha = 0x0104

abbrev pub zcl_profile_zdo : ℕ
zcl_profile_zdo = 0x0000

abbrev pub zcl_device_range_extender : ℕ
zcl_device_range_extender = 0x0008

abbrev pub zcl_cluster_basic : ℕ
zcl_cluster_basic = 0x0000

abbrev pub zdo_mgmt_permit_joining_req : ℕ
zdo_mgmt_permit_joining_req = 0x0036

abbrev pub zcl_endpoint : ℕ
zcl_endpoint = 1

abbrev pub ash_flag : ℕ
ash_flag = 0x7E

abbrev pub ash_esc : ℕ
ash_esc = 0x7D

abbrev pub ash_xon : ℕ
ash_xon = 0x11

abbrev pub ash_xoff : ℕ
ash_xoff = 0x13

abbrev pub ash_sub : ℕ
ash_sub = 0x18

abbrev pub ash_cancel : ℕ
ash_cancel = 0x1A

abbrev pub ash_ctrl_rst : ℕ
ash_ctrl_rst = 0xC0

abbrev pub ash_ctrl_rstack : ℕ
ash_ctrl_rstack = 0xC1

abbrev pub ash_max_frame : ℕ
ash_max_frame = 140

abbrev pub ash_window : ℕ
ash_window = 8

abbrev pub ash_reset_software : ℕ
ash_reset_software = 0x0B

abbrev pub ezsp_network_init : ℕ
ezsp_network_init = 0x17

abbrev pub ezsp_network_state : ℕ
ezsp_network_state = 0x18

abbrev pub ezsp_stack_status_handler : ℕ
ezsp_stack_status_handler = 0x19

abbrev pub ezsp_join_network : ℕ
ezsp_join_network = 0x1F

abbrev pub ezsp_leave_network : ℕ
ezsp_leave_network = 0x20

abbrev pub ezsp_get_eui64 : ℕ
ezsp_get_eui64 = 0x26

abbrev pub ezsp_get_node_id : ℕ
ezsp_get_node_id = 0x27

abbrev pub ezsp_get_network_parameters : ℕ
ezsp_get_network_parameters = 0x28

abbrev pub ezsp_get_parent_child_params : ℕ
ezsp_get_parent_child_params = 0x29

abbrev pub ezsp_message_sent_handler : ℕ
ezsp_message_sent_handler = 0x3F

abbrev pub ezsp_incoming_message_handler : ℕ
ezsp_incoming_message_handler = 0x45

abbrev pub ezsp_get_child_data : ℕ
ezsp_get_child_data = 0x4A

abbrev pub ezsp_get_configuration_value : ℕ
ezsp_get_configuration_value = 0x52

abbrev pub ezsp_set_initial_security_state : ℕ
ezsp_set_initial_security_state = 0x68

abbrev pub ezsp_get_neighbor : ℕ
ezsp_get_neighbor = 0x79

abbrev pub ezsp_neighbor_count : ℕ
ezsp_neighbor_count = 0x7A

abbrev pub ezsp_get_route_table_entry : ℕ
ezsp_get_route_table_entry = 0x7B

abbrev pub ezsp_get_bootloader_version : ℕ
ezsp_get_bootloader_version = 0x91

abbrev pub ezsp_get_policy : ℕ
ezsp_get_policy = 0x56

abbrev pub ezsp_get_key : ℕ
ezsp_get_key = 0x6A

abbrev pub ember_trust_center_link_key : ℕ
ember_trust_center_link_key = 0x01

abbrev pub ember_current_network_key : ℕ
ember_current_network_key = 0x03

abbrev pub ember_network_up : ℕ
ember_network_up = 0x90

abbrev pub ember_network_down : ℕ
ember_network_down = 0x91

abbrev pub ember_not_joined : ℕ
ember_not_joined = 0x93

abbrev pub ember_node_type_router : ℕ
ember_node_type_router = 0x02

abbrev pub ember_use_mac_association : ℕ
ember_use_mac_association = 0x00

-- `SEC_HAVE_PRECONFIGURED_KEY | SEC_TRUST_CENTER_GLOBAL_LINK_KEY`
abbrev pub sec_default : ℕ
sec_default = 0x0104

-- What the command line and the defaults leave in `cfg`, as the radio code reads it.
pub record Cfg : Type 0 where
  pub wait_bytes : ℕ
  pub gap_us : ℕ
  pub wake_handshake : Bool
  pub ezsp_want : ℕ
  pub report_secs : ℕ
  pub no_reset : Bool
  pub channel : ℕ
  -- `pan_id`, if `have_pan_id` is set
  pub pan_id : Option ℕ
  -- eight bytes, zero until they are set
  pub have_ext_pan_id : Bool
  pub ext_pan_id : List ℕ
  -- an `int` in its 32 bits
  pub tx_power : ℕ
  pub sec_bitmask : ℕ
  pub join_timeout : ℕ
  pub join_retries : ℕ
  pub no_precheck : Bool

-- `struct pins`: a descriptor that is -1 is `none`. `nreset` and `nwake` are always requested;
-- `follows` is the global `cs_follows`, which `pins_open` sets once with them.
pub record Pins : Type 0 where
  pub nreset : ℕ
  pub nwake : ℕ
  pub nssel_int : Option ℕ
  pub cs : Option ℕ
  pub hint : Option ℕ
  pub follows : Bool

-- The defaults of config.c.
abbrev pub defaults : Cfg
defaults = record {
  wait_bytes = 512;
  gap_us = 2000;
  wake_handshake = true;
  ezsp_want = 4;
  report_secs = 300;
  no_reset = false;
  channel = 0;
  pan_id = none;
  have_ext_pan_id = false;
  ext_pan_id = replicate 8 0;
  tx_power = 8;
  sec_bitmask = sec_default;
  join_timeout = 60;
  join_retries = 2;
  no_precheck = false;
}
