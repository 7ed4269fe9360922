-- ===== src/Constants.antt =====
-- common/constants.py, and the flags and sizes of common/rudp_packet.py. Sizes are in bytes, windows
-- in segments. The constants that are Python floats stand here as a fraction, `x_per_100`.
use rudp_agent_stack.Base.{ℕ, ◌*◌}

abbrev pub mss : ℕ
mss = 1200

abbrev pub max_rwnd : ℕ
max_rwnd = 64

-- HIGH_WATERMARK = 0.80 and LOW_WATERMARK = 0.20
abbrev pub high_watermark_per_100 : ℕ
high_watermark_per_100 = 80

abbrev pub low_watermark_per_100 : ℕ
low_watermark_per_100 = 20

abbrev pub max_file_size : ℕ
max_file_size = 1 * 1024 * 1024

abbrev pub max_payload_len : ℕ
max_payload_len = max_file_size

abbrev pub protocol_version : ℕ
protocol_version = 1

abbrev pub flag_syn : ℕ
flag_syn = 0x01

abbrev pub flag_ack : ℕ
flag_ack = 0x02

abbrev pub flag_fin : ℕ
flag_fin = 0x04

abbrev pub flag_rst : ℕ
flag_rst = 0x08

abbrev pub fixed_header_size : ℕ
fixed_header_size = 13

abbrev pub reassembly_size : ℕ
reassembly_size = 8

-- INITIAL_CWND = 1.0 * MSS and INITIAL_SSTHRESH = 64 * MSS
abbrev pub initial_cwnd : ℕ
initial_cwnd = mss

abbrev pub initial_ssthresh : ℕ
initial_ssthresh = 64 * mss

abbrev pub dhcp_default_lease_time : ℕ
dhcp_default_lease_time = 3600

-- HEADER_SIZE, the size of the format "!BBBBII"
abbrev pub header_size : ℕ
header_size = 12

-- META_LEN_SIZE, the size of the format "!I"
abbrev pub meta_len_size : ℕ
meta_len_size = 4

abbrev pub op_put_meta : ℕ
op_put_meta = 0x01

abbrev pub op_put_chunk : ℕ
op_put_chunk = 0x02

abbrev pub op_get : ℕ
op_get = 0x03

abbrev pub op_append : ℕ
op_append = 0x04

abbrev pub op_list : ℕ
op_list = 0x05

abbrev pub op_task_search_report : ℕ
op_task_search_report = 0x10

abbrev pub op_task_filter_lines : ℕ
op_task_filter_lines = 0x11

abbrev pub op_task_hash_and_store : ℕ
op_task_hash_and_store = 0x12
