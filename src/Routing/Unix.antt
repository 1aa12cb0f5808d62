-- ===== src/Routing/Unix.antt =====
-- Constants of the Linux ABI that routing/ takes from golang.org/x/sys/unix.
use sysnet_linux.Base.{ℕ, ℤ, pos}

abbrev pub af_inet : ℤ
af_inet = pos 2

abbrev pub af_inet6 : ℤ
af_inet6 = pos 10

abbrev pub rt_table_default : ℤ
rt_table_default = pos 253

abbrev pub rt_table_main : ℤ
rt_table_main = pos 254

abbrev pub rt_table_local : ℤ
rt_table_local = pos 255

abbrev pub rtn_unicast : ℕ
rtn_unicast = 1

abbrev pub fr_act_unreachable : ℕ
fr_act_unreachable = 7
