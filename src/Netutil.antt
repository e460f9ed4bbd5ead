-- ===== src/Netutil.antt =====
-- probe/netlink/netutil: addresses, listening sockets, and the texts of /proc.
pub mod Private
pub mod Inode
pub mod Stat
pub mod Procfs
pub mod Entries
pub mod Local
mod Tests
use shawk.Prelude.{
  ◌+◌, ◌||◌, ◌∷◌, ◌==◌, if◌then◌else◌, ltb, length, any, netlink_error, format_error, Outcome, ok,
  err, panics, Text, codes, ℕ, zero, suc, Bool, true, not, Option, none, some, List, [], nat_eq,
  text_equality,
}
use shawk.Net.{Ip, IpNet, is_loopback, contains_ip, ip_string}
use shawk.Strconv.Find.{ℤ, pos, negsuc, ◌+ℤ◌, is_minus_one, index, trim_suffix}
use shawk.Prelude.{◌-◌, ◌>>=◌}
use shawk.Strconv.{number, syntax_error, range_error, parse_uint}

-- `UserEnt`: the socket's inode and its process. The numbers are 64-bit patterns of an `int`.
pub record UserEnt : Type 0 where
  pub inode : ℕ
  pub fd : ℕ
  pub pid : ℕ
  pub pname : Text
  pub ppid : ℕ
  pub pgrp : ℕ

-- `UserEnts`, a map from inodes.
abbrev pub UserEnts : Type 0
UserEnts = List (ℕ × UserEnt)

-- `UserEntByLport`, a map from listening ports; the pointers stored may be nil.
abbrev pub UserEntByLport : Type 0
UserEntByLport = List (Text × Option UserEnt)

-- The blocks that `init` parses, in its order: `net.ParseCIDR` masks the address.
abbrev pub private_ip_blocks : List IpNet
private_ip_blocks =
    record { number = 10 ∷ 0 ∷ 0 ∷ 0 ∷ []; mask = 255 ∷ 0 ∷ 0 ∷ 0 ∷ [] }
    ∷ record { number = 172 ∷ 16 ∷ 0 ∷ 0 ∷ []; mask = 255 ∷ 240 ∷ 0 ∷ 0 ∷ [] }
    ∷ record { number = 192 ∷ 168 ∷ 0 ∷ 0 ∷ []; mask = 255 ∷ 255 ∷ 0 ∷ 0 ∷ [] }
    ∷ record {
      number = 0 ∷ 0 ∷ 0 ∷ 0 ∷ 0 ∷ 0 ∷ 0 ∷ 0 ∷ 0 ∷ 0 ∷ 0 ∷ 0 ∷ 0 ∷ 0 ∷ 0 ∷ 1 ∷ [];
      mask =
          255 ∷ 255 ∷ 255 ∷ 255 ∷ 255 ∷ 255 ∷ 255 ∷ 255 ∷ 255 ∷ 255 ∷ 255 ∷ 255 ∷ 255 ∷ 255 ∷ 255
          ∷ 255 ∷ [];
    }
    ∷ record {
      number = 0xfe ∷ 0x80 ∷ 0 ∷ 0 ∷ 0 ∷ 0 ∷ 0 ∷ 0 ∷ 0 ∷ 0 ∷ 0 ∷ 0 ∷ 0 ∷ 0 ∷ 0 ∷ 0 ∷ [];
      mask = 255 ∷ 192 ∷ 0 ∷ 0 ∷ 0 ∷ 0 ∷ 0 ∷ 0 ∷ 0 ∷ 0 ∷ 0 ∷ 0 ∷ 0 ∷ 0 ∷ 0 ∷ 0 ∷ [];
    }
    ∷ record {
      number = 0xfc ∷ 0 ∷ 0 ∷ 0 ∷ 0 ∷ 0 ∷ 0 ∷ 0 ∷ 0 ∷ 0 ∷ 0 ∷ 0 ∷ 0 ∷ 0 ∷ 0 ∷ 0 ∷ [];
      mask = 254 ∷ 0 ∷ 0 ∷ 0 ∷ 0 ∷ 0 ∷ 0 ∷ 0 ∷ 0 ∷ 0 ∷ 0 ∷ 0 ∷ 0 ∷ 0 ∷ 0 ∷ 0 ∷ [];
    }
    ∷ []

-- `IsPrivateIP`
unfoldable pub is_private_ip : Ip → Bool
is_private_ip ip =
    if is_loopback ip then true else any (λ block. contains_ip block ip) private_ip_blocks

-- `ResolveAddr`; the argument is what `net.LookupAddr` answers for the address.
unfoldable pub resolve_addr : (Text → List Text) → Text → Text
resolve_addr lookup_addr addr = elim (lookup_addr addr) [
  | [] ↦ addr
  | h ∷ rest ↦ trim_suffix b'.' h
]

-- The TCP states that the code tells apart, as `linux.TCPState` numbers them.
abbrev pub tcp_syn_sent : ℕ
tcp_syn_sent = 2

abbrev pub tcp_syn_recv : ℕ
tcp_syn_recv = 3

abbrev pub tcp_listen : ℕ
tcp_listen = 10

-- What the code reads of a `linux.InetDiagMsg`, through its accessors.
pub record InetDiagMsg : Type 0 where
  pub state : ℕ
  pub src_ip : Ip
  pub src_port : ℕ
  pub dst_ip : Ip
  pub dst_port : ℕ
  pub inode : ℕ

-- The addresses at which a socket counts as listening locally.
unfoldable pub is_local_text : Text → Bool
is_local_text ip = ip == codes "0.0.0.0" || ip == codes "127.0.0.1" || ip == codes "::"

-- `NetlinkFilterByLocalListeningPorts`; its error is always nil.
unfoldable pub netlink_filter_by_local_listening_ports : List InetDiagMsg → List InetDiagMsg
unfolding is_local_text
netlink_filter_by_local_listening_ports [] = []
netlink_filter_by_local_listening_ports (conn ∷ conns) =
    let rest = netlink_filter_by_local_listening_ports conns in
    if not (conn.state == tcp_listen)
    then rest
    else if is_local_text (ip_string conn.src_ip)
    then conn ∷ rest
    else rest

-- `NetlinkConnections`: the argument is the answer of `linux.NetlinkInetDiag`, `none` for an error.
-- Any error becomes a `NetlinkError`.
unfoldable pub netlink_connections : Option (List InetDiagMsg) → Outcome (List InetDiagMsg)
netlink_connections none = err netlink_error
netlink_connections (some msgs) = ok msgs

abbrev pub socket_prefix : Text
socket_prefix = codes "socket:["

unfoldable pub drop : ℕ → Text → Text
drop zero s = s
drop (suc n) [] = []
drop (suc n) (c ∷ s) = drop n s

unfoldable pub take : ℕ → Text → Text
take zero s = []
take (suc n) [] = []
take (suc n) (c ∷ s) = c ∷ take n s

-- `strconv.ParseUint(inode, 10, 32)` and what is made of it.
unfoldable pub inode_number : Text → Outcome ℕ
inode_number inode = elim (parse_uint 10 32 inode) [
  | number n ↦ ok n
  | syntax_error ↦ err format_error
  | range_error ↦ err format_error
]

-- `lnk[open:close]`; Go panics where the bounds are not 0 ≤ open ≤ close ≤ length.
unfoldable pub slice : Text → ℕ → ℤ → Outcome Text
unfolding drop take
slice lnk open_at (negsuc n) = panics
slice lnk open_at (pos close) =
    if ltb close open_at || ltb (length lnk) close
    then panics
    else ok (take (close - open_at) (drop open_at lnk))

-- `parseSocketInode`
unfoldable pub parse_socket_inode : Text → Outcome ℕ
unfolding drop inode_number slice ◌+ℤ◌
parse_socket_inode lnk = elim (index lnk socket_prefix) [
  | negsuc n ↦ ok 0
  | pos ind ↦
      let open_at = ind + length socket_prefix in
      let close = pos open_at +ℤ index (drop open_at lnk) (codes "]") in
      if is_minus_one close
      then err format_error
      else do inode ← slice lnk open_at close; inode_number inode
]

-- `binaryToString`: the bytes up to the first null.
unfoldable pub binary_to_string : List ℕ → Text
binary_to_string [] = []
binary_to_string (chr ∷ s) = if chr == 0 then [] else chr ∷ binary_to_string s
