-- ===== src/Net/Tests.antt =====
-- Tests of the address texts.
use shawk.Prelude.{◌≡◌, ◌∷◌, codes, refl, []}
use shawk.Strconv.{format_uint}
use shawk.Net.{ip_string}

strings :
    (ip_string (10 ∷ 0 ∷ 0 ∷ 5 ∷ []) ≡ codes "10.0.0.5")
    × (ip_string (
          0x24 ∷ 0 ∷ 0x85 ∷ 0 ∷ 0x13 ∷ 1 ∷ 0x10 ∷ 0x52 ∷ 0xa1 ∷ 0x57 ∷ 0 ∷ 7 ∷ 1 ∷ 0x54 ∷ 2 ∷ 0x3f
          ∷ [])
        ≡ codes "2400:8500:1301:1052:a157:7:154:23f")
    × (ip_string (0 ∷ 0 ∷ 0 ∷ 0 ∷ 0 ∷ 0 ∷ 0 ∷ 0 ∷ 0 ∷ 0 ∷ 0 ∷ 0 ∷ 0 ∷ 0 ∷ 0 ∷ 0 ∷ []) ≡ codes "::")
    × (ip_string (0xfe ∷ 0x80 ∷ 0 ∷ 0 ∷ 0 ∷ 0 ∷ 0 ∷ 0 ∷ 0 ∷ 0 ∷ 0 ∷ 1 ∷ 0 ∷ 0 ∷ 0 ∷ 2 ∷ [])
        ≡ codes "fe80::1:0:2")
    × (ip_string (1 ∷ 2 ∷ []) ≡ codes "?0102")
unfolding ip_string format_uint
strings = (refl, refl, refl, refl, refl)
