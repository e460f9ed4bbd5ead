-- ===== src/Netutil/Tests.antt =====
-- Tests of netutil, and its theorems at concrete inputs.
use shawk.Prelude.{
  ◌≡◌, ◌↔◌, ◌∷◌, ◌++◌, format_error, ok, err, panics, codes, ℕ, refl, some, List, [], arith,
}
use shawk.Strconv.{format_uint, parse_uint}
use shawk.Strconv.Find.{index_of}
use shawk.Netutil.{is_private_ip, socket_prefix, parse_socket_inode}
use shawk.Netutil.Private
use shawk.Netutil.Private.{in_private_range}
use shawk.Netutil.Inode
use shawk.Netutil.Stat.{parse_proc_stat}
use shawk.Netutil.Procfs.{decode_address, split, parse_hex_port, decode_string}
use shawk.Net.{ip_string}

-- the cases of netutil_linux_test.go
inode : parse_socket_inode (codes "socket:[16408]") ≡ ok 16408
unfolding parse_socket_inode parse_uint index_of shawk.Strconv.Find.index
inode = refl

stat :
    parse_proc_stat (some (codes "10000 (nginx) S 1 11185 11185 0 -1\n"))
    ≡ ok (record { pname = codes "nginx"; ppid = 1; pgrp = 11185 })
unfolding parse_proc_stat
stat = refl

-- a process name with a space is refused
stat_of_spaced_name :
    parse_proc_stat (some (codes "123 (tmux: server) S 1 123 123")) ≡ err format_error
unfolding parse_proc_stat
stat_of_spaced_name = refl

reverse_bytes : List ℕ → List ℕ
reverse_bytes [] = []
reverse_bytes (b ∷ bs) = reverse_bytes bs ++ b ∷ []

-- the examples in the comment of `decodeAddress`: the first is decoded as it says, the second not
addresses :
    (decode_address reverse_bytes (codes "0500000A:0016")
      ≡ ok (record { ip = codes "10.0.0.5"; port = 22 }))
    × (decode_address reverse_bytes (codes "0085002452100113070057A13F025401:0035")
        ≡ ok (record { ip = codes "154:23f:a157:7:1301:1052:2400:8500"; port = 53 }))
unfolding decode_address reverse_bytes split parse_hex_port decode_string ip_string format_uint
addresses = (refl, refl)

is_private_ip-of_ipv4_example : is_private_ip (172 ∷ 31 ∷ 0 ∷ 1 ∷ []) ≡ in_private_range 172 31
is_private_ip-of_ipv4_example =
    Private.is_private_ip-of_ipv4 172 31 0 1 (omega arith) (omega arith) (omega arith) (omega arith)

parse_socket_inode-format_uint_example :
    parse_socket_inode (socket_prefix ++ (format_uint 16408 ++ (b']' ∷ []))) ≡ ok 16408
parse_socket_inode-format_uint_example = Inode.parse_socket_inode-format_uint 16408 [] (omega arith)

parse_socket_inode-IsUnclosed_example :
    (parse_socket_inode (socket_prefix ++ codes "16408") ≡ panics)
    ↔ Inode.IsUnclosed (codes "16408")
parse_socket_inode-IsUnclosed_example = Inode.parse_socket_inode-IsUnclosed (codes "16408")
