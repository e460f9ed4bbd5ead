-- ===== src/Netutil/Local/Tests.antt =====
-- Tests of the local addresses and ports.
use shawk.Prelude.{◌≡◌, ◌∷◌, ok, codes, refl, some, []}
use shawk.Strconv.{format_uint}
use shawk.Netutil.Local.{ip_net, other_addr, local_ip_addrs, netlink_local_listening_ports}
use shawk.Netlink.Samples.{conns}

one_listener : netlink_local_listening_ports (some conns) ≡ ok (codes "80" ∷ [])
unfolding netlink_local_listening_ports format_uint
one_listener = refl

-- The loopback address and an address of another type are left out.
one_address :
    local_ip_addrs (
      some (
        ip_net (record { number = 127 ∷ 0 ∷ 0 ∷ 1 ∷ []; mask = 255 ∷ 0 ∷ 0 ∷ 0 ∷ [] })
        ∷ other_addr
        ∷ ip_net (record { number = 10 ∷ 0 ∷ 0 ∷ 5 ∷ []; mask = 255 ∷ 0 ∷ 0 ∷ 0 ∷ [] })
        ∷ []))
    ≡ ok (codes "10.0.0.5" ∷ [])
unfolding local_ip_addrs format_uint
one_address = refl
