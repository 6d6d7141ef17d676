-- ===== src/NetAddress.antt =====
-- libsrc/libcpputils/parsenetaddress.cpp: a host and a port in a text.
--
-- `none` is undefined behaviour: a port that `sscanf` reads does not fit an `int`. A text holds no NUL
-- byte.
pub mod HostPort
mod Tests
use cpp_temp_learn.Prelude.{
  decimal, ℕ, zero, suc, ◌+◌, ◌-◌, ◌^◌, Bool, true, false, not, ◌&&◌, ◌||◌, ◌==◌, List, [], ◌∷◌,
  ◌++◌, Option, none, some, Bytes, codes, take, drop, is_empty, ltb, leb, if◌then◌else◌,
}
use cpp_temp_learn.Strings.{split, starts_with}
use cpp_temp_learn.FsObject.{ℤ, pos, negsuc}
use cpp_temp_learn.Numbers.{scan_number}

unfoldable pub count_byte : ℕ → Bytes → ℕ
count_byte b [] = 0
count_byte b (c ∷ s) = (if c == b then 1 else 0) + count_byte b s

-- `find` and `rfind` of a text, where it is found
unfoldable pub find_text : Bytes → Bytes → Option ℕ
unfolding starts_with
find_text needle [] = if is_empty needle then some 0 else none
find_text needle (c ∷ s) =
    let behind : Option ℕ = elim (find_text needle s) [ none ↦ none | some i ↦ some (suc i) ] in
    if starts_with (c ∷ s) needle then some 0 else behind

unfoldable pub find_last_text : Bytes → Bytes → Option ℕ
unfolding starts_with
find_last_text needle [] = if is_empty needle then some 0 else none
find_last_text needle (c ∷ s) = elim (find_last_text needle s) [
  | some i ↦ some (suc i)
  | none ↦ if starts_with (c ∷ s) needle then some 0 else none
]

-- What the first half finds: the host, whether it is taken for IPv6, and the text of the port.
pub record HostPart : Type 0 where
  pub host : Bytes
  pub ipv6 : Bool
  pub port_text : Option Bytes

-- `Split` aborts with no delimiter only.
unfoldable pub of_pieces : Option (List Bytes) → HostPart
of_pieces none = record { host = []; ipv6 = false; port_text = none }
of_pieces (some []) = record { host = []; ipv6 = false; port_text = none }
of_pieces (some (p ∷ [])) = record { host = p; ipv6 = false; port_text = none }
of_pieces (some (p ∷ q ∷ ps)) = record { host = p; ipv6 = false; port_text = some q }

abbrev pub closing : Bytes
closing = codes "]:"

unfoldable pub is_bracketed : Bytes → Bool
is_bracketed [] = false
is_bracketed (c ∷ s) = c == b'['

-- The part of an address with a bracket in front; `none` is an error.
unfoldable pub split_brackets : Bytes → Option HostPart
unfolding find_text find_last_text
split_brackets address = elim (find_last_text closing address) [
  | none ↦ none
  | some last ↦ elim (find_text closing address) [
    | none ↦ none
    | some first ↦ some (record {
      host = take (first - 1) (drop 1 address);
      ipv6 = true;
      port_text = some (drop (last + 2) address);
    })
  ]
]

unfoldable pub split_host : Bytes → Option HostPart
unfolding split_brackets is_bracketed count_byte of_pieces
split_host address =
    let colons = count_byte b':' address in
    if is_bracketed address
    then split_brackets address
    else if (count_byte b'.' address == 0 && leb 2 colons) && leb colons 7
    then some (record { host = address; ipv6 = true; port_text = none })
    else if leb colons 1
    then some (of_pieces (split address (b':' ∷ [])))
    else some (record { host = []; ipv6 = true; port_text = none })

-- What the function leaves: its result, host and port, and the canonical address or the error.
pub record Parsed : Type 0 where
  pub accepted : Bool
  pub host : Bytes
  pub port : ℤ
  pub text : Bytes

-- '%d'
unfoldable pub print_int : ℤ → Bytes
unfolding decimal
print_int (pos n) = decimal n
print_int (negsuc n) = b'-' ∷ decimal (suc n)

unfoldable pub canonical : Bool → Bytes → ℤ → Bytes
unfolding print_int
canonical ipv6 host port =
    if ipv6
    then (b'[' ∷ host) ++ (codes "]:" ++ print_int port)
    else host ++ (b':' ∷ print_int port)

-- `sscanf` with '%d': nothing read, or a number; `none` outside is undefined behaviour.
unfoldable pub scan_int : Bytes → Option (Option ℤ)
unfolding scan_number
scan_int s = elim (scan_number s 10) [
  | none ↦ some none
  | some (negative, value, rest) ↦
      if negative
      then (if value == 0
          then some (some (pos 0))
          else if leb value (2 ^ 31)
          then some (some (negsuc (value - 1)))
          else none)
      else if ltb value (2 ^ 31)
      then some (some (pos value))
      else none
]

unfoldable pub is_port : ℤ → Bool
is_port (pos n) = ltb 0 n && leb n 65535
is_port (negsuc n) = false

unfoldable pub bad_port : Bytes → Bytes → Bytes
bad_port port_text address =
    codes "bad port number '" ++ (port_text ++ (codes "' in '" ++ (address ++ codes "'")))

unfoldable pub check_port : Bytes → HostPart → Bytes → ℤ → Option Parsed
unfolding scan_int is_port bad_port canonical
check_port address p port_text port = elim (scan_int port_text) [
  | none ↦ none
  | some none ↦
      some
        (record { accepted = false; host = p.host; port = port; text = bad_port port_text address })
  | some (some n) ↦
      if is_port n
      then some
          (record { accepted = true; host = p.host; port = n; text = canonical p.ipv6 p.host n })
      else some
          (record { accepted = false; host = p.host; port = n; text = bad_port port_text address })
]

-- `ParseNetAddress`, with the port as the caller has set it.
unfoldable pub parse_net_address : Bytes → ℤ → Option Parsed
unfolding split_host check_port canonical
parse_net_address address port = elim (split_host address) [
  | none ↦ some (record {
    accepted = false;
    host = [];
    port = port;
    text = codes "bad IPv6 address '" ++ (address ++ codes "'");
  })
  | some p ↦
      if is_empty p.host
      then some (record {
        accepted = false;
        host = [];
        port = port;
        text = codes "no host in '" ++ (address ++ codes "'");
      })
      else elim p.port_text [
        | none ↦ some (record {
          accepted = true;
          host = p.host;
          port = port;
          text = canonical p.ipv6 p.host port;
        })
        | some port_text ↦ check_port address p port_text port
      ]
]
