-- ===== src/Znp/Mt.antt =====
-- components/znp_transport/include/znp_mt_protocol.h: the types and ids of the MT frames that the
-- hub sends or reads, the items of the coprocessor's NV memory, and the states that it reports.
use zigbee_hub.Base.{ℕ}

abbrev pub subsys_sys : ℕ
subsys_sys = 0x21

abbrev pub subsys_af : ℕ
subsys_af = 0x24

abbrev pub subsys_zdo : ℕ
subsys_zdo = 0x25

abbrev pub subsys_sys_areq : ℕ
subsys_sys_areq = 0x41

abbrev pub subsys_af_areq : ℕ
subsys_af_areq = 0x44

abbrev pub subsys_zdo_areq : ℕ
subsys_zdo_areq = 0x45

abbrev pub sys_ping_cmd : ℕ
sys_ping_cmd = 0x01

abbrev pub sys_version_cmd : ℕ
sys_version_cmd = 0x02

abbrev pub sys_reset_ind_cmd : ℕ
sys_reset_ind_cmd = 0x80

abbrev pub sys_osal_nv_read_cmd : ℕ
sys_osal_nv_read_cmd = 0x08

abbrev pub sys_osal_nv_write_cmd : ℕ
sys_osal_nv_write_cmd = 0x09

abbrev pub zdo_simple_desc_req_cmd : ℕ
zdo_simple_desc_req_cmd = 0x04

abbrev pub zdo_active_ep_req_cmd : ℕ
zdo_active_ep_req_cmd = 0x05

abbrev pub zdo_mgmt_permit_join_cmd : ℕ
zdo_mgmt_permit_join_cmd = 0x36

abbrev pub zdo_startup_from_app_cmd : ℕ
zdo_startup_from_app_cmd = 0x40

abbrev pub zdo_simple_desc_rsp_cmd : ℕ
zdo_simple_desc_rsp_cmd = 0x84

abbrev pub zdo_active_ep_rsp_cmd : ℕ
zdo_active_ep_rsp_cmd = 0x85

abbrev pub zdo_state_change_ind_cmd : ℕ
zdo_state_change_ind_cmd = 0xC0

abbrev pub zdo_end_device_annce_ind_cmd : ℕ
zdo_end_device_annce_ind_cmd = 0xC1

abbrev pub zdo_leave_ind_cmd : ℕ
zdo_leave_ind_cmd = 0xC9

abbrev pub zdo_tc_dev_ind_cmd : ℕ
zdo_tc_dev_ind_cmd = 0xCA

abbrev pub af_register_cmd : ℕ
af_register_cmd = 0x00

abbrev pub af_data_request_cmd : ℕ
af_data_request_cmd = 0x01

abbrev pub af_incoming_msg_cmd : ℕ
af_incoming_msg_cmd = 0x81

abbrev pub nv_logical_type : ℕ
nv_logical_type = 0x0087

abbrev pub nv_precfgkeys_en : ℕ
nv_precfgkeys_en = 0x0063

abbrev pub nv_precfgkey : ℕ
nv_precfgkey = 0x0062

abbrev pub nv_panid : ℕ
nv_panid = 0x0083

abbrev pub nv_chanlist : ℕ
nv_chanlist = 0x0084

abbrev pub device_type_coordinator : ℕ
device_type_coordinator = 0x00

abbrev pub dev_zb_coord : ℕ
dev_zb_coord = 0x09
