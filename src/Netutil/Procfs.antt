-- ===== src/Netutil/Procfs.antt =====
-- netutil_linux.go: connections read from /proc/net/tcp.
use shawk.Prelude.{
  ◌+◌, ◌-◌, ◌*◌, ◌%◌, ◌^◌, ◌&&◌, ◌∷◌, ◌++◌, ◌==◌, if◌then◌else◌, ◌>>=◌, ltb, leb, system_error,
  format_error, Outcome, ok, err, Text, ℕ, Bool, true, false, not, Option, none, some, List, [],
  nat_eq, text_equality,
}
use shawk.Net.{ip_string}
use shawk.Strconv.{
  number, syntax_error, range_error, parse_uint, parse_digits, parsed_value, format_uint,
}
use shawk.Netutil.{tcp_listen, is_local_text}
use shawk.Netutil.Stat.{is_space}

-- `Addr`: the port is a `uint32`.
pub record Addr : Type 0 where
  pub ip : Text
  pub port : ℕ

pub record ConnectionStat : Type 0 where
  pub laddr : Addr
  pub raddr : Addr
  pub status : ℕ

-- `strings.Split(s, sep)` and `bytes.Split` for a separator of one character.
unfoldable pub split : ℕ → Text → List Text
split d [] = [] ∷ []
split d (c ∷ s) = elim (split d s) [
  | [] ↦ []
  | w ∷ ws ↦ if c == d then [] ∷ w ∷ ws else (c ∷ w) ∷ ws
]

-- `strings.Fields` on ASCII text: the words between white space, `word` being the one begun.
unfoldable pub fields_from : Text → Text → List Text
unfolding is_space
fields_from word [] = if word == [] then [] else word ∷ []
fields_from word (c ∷ s) =
    let next = fields_from [] s in
    let same = fields_from (word ++ c ∷ []) s in
    if is_space c then (if word == [] then next else word ∷ next) else same

abbrev pub fields : Text → List Text
fields = fields_from []

without_underscores : Text → Text
without_underscores [] = []
without_underscores (c ∷ s) =
    let rest = without_underscores s in if c == b'_' then rest else c ∷ rest

-- `strconv.underscoreOK` after a base prefix: an underscore stands before a digit, and alone.
underscore_ok : Bool → Text → Bool
underscore_ok after [] = not after
underscore_ok after (c ∷ s) =
    if c == b'_' then not after && underscore_ok true s else underscore_ok false s

-- `strconv.ParseInt("0x"+t, 0, 64)`; `none` for an error.
unfoldable pub parse_hex_port : Text → Option ℕ
unfolding without_underscores underscore_ok parse_digits
parse_hex_port [] = none
parse_hex_port (c ∷ t) = elim (parse_digits 16 (2 ^ 64 - 1) 0 (without_underscores (c ∷ t))) [
  | number n ↦ if underscore_ok false (c ∷ t) && ltb n (2 ^ 63) then some n else none
  | syntax_error ↦ none
  | range_error ↦ none
]

hex_digit : ℕ → Option ℕ
hex_digit c =
    if leb b'0' c && leb c b'9'
    then some (c - b'0')
    else if leb b'a' c && leb c b'f'
    then some (c - b'a' + 10)
    else if leb b'A' c && leb c b'F'
    then some (c - b'A' + 10)
    else none

cons_byte : Option ℕ → Option ℕ → Option (List ℕ) → Option (List ℕ)
cons_byte (some hi) (some lo) (some bs) = some ((hi * 16 + lo) ∷ bs)
cons_byte _ _ _ = none

-- `hex.DecodeString`
unfoldable pub decode_string : Text → Option (List ℕ)
unfolding hex_digit cons_byte
decode_string [] = some []
decode_string (c ∷ []) = none
decode_string (c ∷ d ∷ s) = cons_byte (hex_digit c) (hex_digit d) (decode_string s)

-- `gnet.Reverse` of gopsutil is a parameter of what decodes addresses.
module _ (reverse_bytes : List ℕ → List ℕ) where
  decode_parts : Text → Option ℕ → Outcome Addr
  decode_parts addr none = err format_error
  decode_parts addr (some port) = elim (decode_string addr) [
    | none ↦ err format_error
    | some decoded ↦ ok (record { ip = ip_string (reverse_bytes decoded); port = port % 2 ^ 32 })
  ]

  decode_split : List Text → Outcome Addr
  unfolding decode_parts
  decode_split (addr ∷ port ∷ []) = decode_parts addr (parse_hex_port port)
  decode_split _ = err format_error

  -- `decodeAddress`
  unfoldable pub decode_address : Text → Outcome Addr
  unfolding decode_split
  decode_address src = decode_split (split b':' src)

  connection_of : Text → Outcome Addr → Outcome Addr → Option ConnectionStat
  connection_of status (ok la) (ok ra) =
      some (record { laddr = la; raddr = ra; status = parsed_value 8 (parse_uint 16 8 status) })
  connection_of status _ _ = none

  -- One line of the table: `none` where the loop continues. An error in the state is only logged,
  -- and the number that `ParseUint` returns beside it is used.
  unfoldable pub connection_of_line : List Text → Option ConnectionStat
  unfolding connection_of
  connection_of_line (l0 ∷ l1 ∷ l2 ∷ l3 ∷ l4 ∷ l5 ∷ l6 ∷ l7 ∷ l8 ∷ l9 ∷ rest) =
      connection_of l3 (decode_address l1) (decode_address l2)
  connection_of_line _ = none

  unfoldable pub connections_of_lines : List Text → List ConnectionStat
  connections_of_lines [] = []
  connections_of_lines (line ∷ lines) =
      let rest = connections_of_lines lines in
      elim (connection_of_line (fields line)) [ none ↦ rest | some c ↦ c ∷ rest ]

  after_header : List Text → List ConnectionStat
  after_header [] = []
  after_header (header ∷ lines) = connections_of_lines lines

  -- `ProcfsConnections`; the argument is the content of /proc/net/tcp, `none` if it cannot be read.
  unfoldable pub procfs_connections : Option Text → Outcome (List ConnectionStat)
  unfolding after_header
  procfs_connections none = err (system_error 1)
  procfs_connections (some body) = ok (after_header (split b'\n' body))

-- `FilterByLocalListeningPorts`; its error is always nil.
unfoldable pub filter_by_local_listening_ports : List ConnectionStat → List Text
unfolding is_local_text
filter_by_local_listening_ports [] = []
filter_by_local_listening_ports (conn ∷ conns) =
    let rest = filter_by_local_listening_ports conns in
    if not (conn.status == tcp_listen)
    then rest
    else if is_local_text conn.laddr.ip
    then format_uint conn.laddr.port ∷ rest
    else rest

-- `LocalListeningPorts`
unfoldable pub local_listening_ports : (List ℕ → List ℕ) → Option Text → Outcome (List Text)
unfolding procfs_connections filter_by_local_listening_ports
local_listening_ports reverse_bytes body = do
  conns ← procfs_connections reverse_bytes body
  ok (filter_by_local_listening_ports conns)
