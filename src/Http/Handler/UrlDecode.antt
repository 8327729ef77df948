-- ===== src/Http/Handler/UrlDecode.antt =====
-- `RequestHandler::url_decode` of src/GUI/RequestHandler.cpp.
pub mod RoundTrip
use sec_mon.Prelude.{
  ℕ, ◌+◌, ◌-◌, ◌*◌, ◌%◌, Bool, true, false, ◌&&◌, ◌||◌, Option, none, some, [], ◌∷◌, ◌==◌, leb,
  if◌then◌else◌,
}
use sec_mon.Prelude.Text.{Bytes}

unfoldable pub hex_digit : ℕ → Option ℕ
hex_digit c =
    if leb b'0' c && leb c b'9'
    then some (c - b'0')
    else if leb b'a' c && leb c b'f'
    then some (c - b'a' + 10)
    else if leb b'A' c && leb c b'F'
    then some (c - b'A' + 10)
    else none

unfoldable pub is_space : ℕ → Bool
is_space c = c == 32 || (leb 9 c && leb c 13)

-- A digit behind a sign, as the byte that the cast to `char` makes of it.
abbrev signed_digit : ℕ → Option ℕ → Option ℕ
signed_digit sign none = none
signed_digit sign (some v) = some (if sign == b'-' then (256 - v) % 256 else v)

-- A first digit, and the second if it is one. A zero in front of `x` is a prefix with no digit.
abbrev two_digits : ℕ → ℕ → Option ℕ → Option ℕ → Option ℕ
two_digits c d none second = none
two_digits c d (some v) (some w) = some (v * 16 + w)
two_digits c d (some v) none = if c == b'0' && (d == b'x' || d == b'X') then none else some v

-- `is >> std::hex >> value` on a stream of two bytes, and the cast of the value to `char`: blanks are
-- skipped, a sign is allowed, and the digits end at the first byte that is none.
unfoldable pub extract_hex : ℕ → ℕ → Option ℕ
unfolding hex_digit is_space
extract_hex c d =
    if is_space c
    then hex_digit d
    else if c == b'-' || c == b'+'
    then signed_digit c (hex_digit d)
    else two_digits c d (hex_digit c) (hex_digit d)

-- A byte that begins no escape.
unfoldable pub plain : ℕ → ℕ
plain c = if c == b'+' then 32 else c

abbrev pub cons_some : ℕ → Option Bytes → Option Bytes
cons_some c none = none
cons_some c (some cs) = some (c ∷ cs)

abbrev pub cons_both : Option ℕ → Option Bytes → Option Bytes
cons_both none cs = none
cons_both (some c) cs = cons_some c cs

-- The loop: an escape takes three bytes, and needs that many.
unfoldable pub url_decode : Bytes → Option Bytes
unfolding extract_hex plain
url_decode [] = some []
url_decode (c ∷ []) = if c == b'%' then none else some (plain c ∷ [])
url_decode (c ∷ d ∷ []) = elim (c == b'%') [
  | true ↦ none
  | false ↦ cons_some (plain c) (url_decode (d ∷ []))
]
url_decode (c ∷ d ∷ e ∷ cs) = elim (c == b'%') [
  | true ↦ cons_both (extract_hex d e) (url_decode cs)
  | false ↦ cons_some (plain c) (url_decode (d ∷ e ∷ cs))
]
