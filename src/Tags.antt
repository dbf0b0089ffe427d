-- ===== src/Tags.antt =====
-- The numbers of common.h: message tags, error codes, the flags of `expect`, and the sub-commands.
use sexpect.Base.{ℕ, ◌/◌, ◌%◌, Bool, ◌==◌}

abbrev pub tag_pass : ℕ
tag_pass = 1

abbrev pub tag_winch : ℕ
tag_winch = 2

abbrev pub tag_send : ℕ
tag_send = 3

abbrev pub tag_input : ℕ
tag_input = 4

abbrev pub tag_expout : ℕ
tag_expout = 5

abbrev pub tag_close : ℕ
tag_close = 6

abbrev pub tag_kill : ℕ
tag_kill = 7

abbrev pub tag_set : ℕ
tag_set = 8

abbrev pub tag_ack : ℕ
tag_ack = 9

abbrev pub tag_output : ℕ
tag_output = 10

abbrev pub tag_matched : ℕ
tag_matched = 11

abbrev pub tag_eof : ℕ
tag_eof = 12

abbrev pub tag_exited : ℕ
tag_exited = 13

abbrev pub tag_error : ℕ
tag_error = 14

abbrev pub tag_timed_out : ℕ
tag_timed_out = 15

abbrev pub tag_expout_text : ℕ
tag_expout_text = 16

abbrev pub tag_expbuf : ℕ
tag_expbuf = 17

abbrev pub tag_info : ℕ
tag_info = 18

abbrev pub tag_disconn : ℕ
tag_disconn = 19

abbrev pub tag_hello : ℕ
tag_hello = 20

abbrev pub tag_exp_flags : ℕ
tag_exp_flags = 21

abbrev pub tag_pattern : ℕ
tag_pattern = 22

abbrev pub tag_exp_timeout : ℕ
tag_exp_timeout = 23

abbrev pub tag_error_code : ℕ
tag_error_code = 24

abbrev pub tag_error_msg : ℕ
tag_error_msg = 25

abbrev pub tag_winsize_row : ℕ
tag_winsize_row = 26

abbrev pub tag_winsize_col : ℕ
tag_winsize_col = 27

abbrev pub tag_pid : ℕ
tag_pid = 28

abbrev pub tag_ppid : ℕ
tag_ppid = 29

abbrev pub tag_ptsname : ℕ
tag_ptsname = 30

abbrev pub tag_expout_index : ℕ
tag_expout_index = 31

abbrev pub tag_nonblock : ℕ
tag_nonblock = 32

abbrev pub tag_autowait : ℕ
tag_autowait = 33

abbrev pub tag_ttl : ℕ
tag_ttl = 34

abbrev pub tag_zombie_ttl : ℕ
tag_zombie_ttl = 35

abbrev pub tag_idletime : ℕ
tag_idletime = 36

abbrev pub tag_logfile : ℕ
tag_logfile = 37

abbrev pub tag_logfile_append : ℕ
tag_logfile_append = 38

abbrev pub tag_nohup : ℕ
tag_nohup = 39

abbrev pub tag_lookback : ℕ
tag_lookback = 40

abbrev pub tag_pass_subcmd : ℕ
tag_pass_subcmd = 41

abbrev pub tag_version : ℕ
tag_version = 42

abbrev pub error_general : ℕ
error_general = 201

abbrev pub error_usage : ℕ
error_usage = 202

abbrev pub error_notty : ℕ
error_notty = 203

abbrev pub error_sys : ℕ
error_sys = 204

abbrev pub error_proto : ℕ
error_proto = 205

abbrev pub error_eof : ℕ
error_eof = 206

abbrev pub error_timeout : ℕ
error_timeout = 207

abbrev pub error_exited : ℕ
error_exited = 208

abbrev pub error_internal : ℕ
error_internal = 209

abbrev pub error_detach : ℕ
error_detach = 210

abbrev pub pass_expect_exact : ℕ
pass_expect_exact = 1

abbrev pub pass_expect_glob : ℕ
pass_expect_glob = 2

abbrev pub pass_expect_ere : ℕ
pass_expect_ere = 4

abbrev pub pass_expect_eof : ℕ
pass_expect_eof = 8

abbrev pub pass_expect_exit : ℕ
pass_expect_exit = 16

abbrev pub pass_expect_icase : ℕ
pass_expect_icase = 32

abbrev pub pass_expect_nosub : ℕ
pass_expect_nosub = 64

abbrev pub pass_expect_newline : ℕ
pass_expect_newline = 128

abbrev pub pass_subcmd_expect : ℕ
pass_subcmd_expect = 1

abbrev pub pass_subcmd_interact : ℕ
pass_subcmd_interact = 2

abbrev pub pass_subcmd_wait : ℕ
pass_subcmd_wait = 3

-- `(flags & flag) != 0` for a flag of one bit.
abbrev pub has_flag : ℕ → ℕ → Bool
has_flag flags flag = flags / flag % 2 == 1
