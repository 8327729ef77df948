-- ===== src/Http/Parser.antt =====
-- src/GUI/RequestParser.h and src/GUI/RequestParser.cpp: the state machine that reads a request one
-- byte at a time. A `char` is its byte, and becomes an `int` as a signed 8-bit number.
pub mod Grammar
pub mod Forward
pub mod Complete
pub mod Loops
pub mod Split
pub mod Lines
pub mod Sound
pub mod Chunks
use sec_mon.Prelude.{
  ℕ, ◌+◌, ◌-◌, ◌*◌, ◌%◌, ◌^◌, Bool, true, false, not, ◌&&◌, ◌||◌, List, [], ◌∷◌, ◌++◌, ◌==◌, ltb,
  leb, if◌then◌else◌,
}
use sec_mon.Prelude.Int.{ℤ, pos, negsuc}
use sec_mon.Prelude.Text.{Bytes}
use sec_mon.Http.Request.{Header, blank_header, Request}

-- `enum state`.
pub data State : Type 0 where
  method_start method uri : State
  http_version_h http_version_t_1 http_version_t_2 http_version_p http_version_slash : State
  http_version_major_start http_version_major http_version_minor_start http_version_minor : State
  expecting_newline_1 header_line_start header_lws header_name space_before_header_value : State
  header_value expecting_newline_2 expecting_newline_3 : State

-- `boost::tribool`.
pub data Tribool : Type 0 where
  is_true is_false indeterminate : Tribool

abbrev pub char_to_int : ℕ → ℤ
char_to_int c = if ltb c 128 then pos c else negsuc (255 - c)

unfoldable pub is_char : ℤ → Bool
is_char (pos c) = leb c 127
is_char (negsuc c) = false

unfoldable pub is_ctl : ℤ → Bool
is_ctl (pos c) = leb c 31 || c == 127
is_ctl (negsuc c) = false

unfoldable pub is_tspecial : ℤ → Bool
is_tspecial (pos c) =
    c == b'('
    || c == b')'
    || c == b'<'
    || c == b'>'
    || c == b'@'
    || c == b','
    || c == b';'
    || c == b':'
    || c == 92
    || c == b'"'
    || c == b'/'
    || c == b'['
    || c == b']'
    || c == b'?'
    || c == b'='
    || c == b'{'
    || c == b'}'
    || c == 32
    || c == 9
is_tspecial (negsuc c) = false

unfoldable pub is_digit : ℤ → Bool
is_digit (pos c) = leb b'0' c && leb c b'9'
is_digit (negsuc c) = false

-- `!is_char(input) || is_ctl(input) || is_tspecial(input)`, the test of four states.
unfoldable pub is_no_token : ℕ → Bool
is_no_token c =
    not (is_char (char_to_int c)) || is_ctl (char_to_int c) || is_tspecial (char_to_int c)

-- `is_ctl(input)` and `is_digit(input)` at a `char`.
unfoldable pub is_ctl_char : ℕ → Bool
is_ctl_char c = is_ctl (char_to_int c)

unfoldable pub is_digit_char : ℕ → Bool
is_digit_char c = is_digit (char_to_int c)

-- `v = v * 10 + input - '0'` on an `int`, as its 32-bit pattern.
abbrev pub push_digit : ℕ → ℕ → ℕ
push_digit v c = (v * 10 + (c - b'0')) % 2 ^ 32

-- `headers.back()`, changed; there is no such element in an empty vector.
unfoldable pub update_back : (Header → Header) → List Header → List Header
update_back f [] = []
update_back f (h ∷ []) = f h ∷ []
update_back f (h ∷ k ∷ hs) = h ∷ update_back f (k ∷ hs)

abbrev pub push_name : ℕ → Header → Header
push_name c h = record h { name = h.name ++ c ∷ [] }

abbrev pub push_value : ℕ → Header → Header
push_value c h = record h { value = h.value ++ c ∷ [] }

-- The parser's state and the request behind one call, and what the call returns.
pub record Outcome : Type 0 where
  pub state : State
  pub request : Request
  pub result : Tribool

abbrev pub more : State → Request → Outcome
more s r = record { state = s; request = r; result = indeterminate }

abbrev pub refuse : State → Request → Outcome
refuse s r = record { state = s; request = r; result = is_false }

-- The five states that want one given byte.
abbrev expect : ℕ → State → State → Request → ℕ → Outcome
expect want here next r c = if c == want then more next r else refuse here r

abbrev pub is_empty : List Header → Bool
is_empty [] = true
is_empty (_ ∷ _) = false

-- `RequestParser::consume`.
unfoldable pub consume : State → Request → ℕ → Outcome
consume method_start r c =
    if is_no_token c
    then refuse method_start r
    else more method (record r { method = r.method ++ c ∷ [] })
consume method r c =
    if c == 32
    then more uri r
    else if is_no_token c
    then refuse method r
    else more method (record r { method = r.method ++ c ∷ [] })
consume uri r c =
    if c == 32
    then more http_version_h r
    else if is_ctl_char c
    then refuse uri r
    else more uri (record r { uri = r.uri ++ c ∷ [] })
consume http_version_h r c = expect b'H' http_version_h http_version_t_1 r c
consume http_version_t_1 r c = expect b'T' http_version_t_1 http_version_t_2 r c
consume http_version_t_2 r c = expect b'T' http_version_t_2 http_version_p r c
consume http_version_p r c = expect b'P' http_version_p http_version_slash r c
consume http_version_slash r c =
    if c == b'/'
    then more http_version_major_start (record r { http_version_major = 0; http_version_minor = 0 })
    else refuse http_version_slash r
consume http_version_major_start r c =
    if is_digit_char c
    then more http_version_major
        (record r { http_version_major = push_digit r.http_version_major c })
    else refuse http_version_major_start r
consume http_version_major r c =
    if c == b'.'
    then more http_version_minor_start r
    else if is_digit_char c
    then more http_version_major
        (record r { http_version_major = push_digit r.http_version_major c })
    else refuse http_version_major r
consume http_version_minor_start r c =
    if is_digit_char c
    then more http_version_minor
        (record r { http_version_minor = push_digit r.http_version_minor c })
    else refuse http_version_minor_start r
consume http_version_minor r c =
    if c == 13
    then more expecting_newline_1 r
    else if is_digit_char c
    then more http_version_minor
        (record r { http_version_minor = push_digit r.http_version_minor c })
    else refuse http_version_minor r
consume expecting_newline_1 r c = expect 10 expecting_newline_1 header_line_start r c
consume header_line_start r c =
    if c == 13
    then more expecting_newline_3 r
    else if not (is_empty r.headers) && (c == 32 || c == 9)
    then more header_lws r
    else if is_no_token c
    then refuse header_line_start r
    else more header_name
        (record r { headers = update_back (push_name c) (r.headers ++ blank_header ∷ []) })
consume header_lws r c =
    if c == 13
    then more expecting_newline_2 r
    else if c == 32 || c == 9
    then more header_lws r
    else if is_ctl_char c
    then refuse header_lws r
    else more header_value (record r { headers = update_back (push_value c) r.headers })
consume header_name r c =
    if c == b':'
    then more space_before_header_value r
    else if is_no_token c
    then refuse header_name r
    else more header_name (record r { headers = update_back (push_name c) r.headers })
consume space_before_header_value r c = expect 32 space_before_header_value header_value r c
consume header_value r c =
    if c == 13
    then more expecting_newline_2 r
    else if is_ctl_char c
    then refuse header_value r
    else more header_value (record r { headers = update_back (push_value c) r.headers })
consume expecting_newline_2 r c = expect 10 expecting_newline_2 header_line_start r c
consume expecting_newline_3 r c = record {
  state = expecting_newline_3;
  request = r;
  result = if c == 10 then is_true else is_false;
}

-- What `parse` leaves: the outcome of the last call, and the input behind the byte it ended at.
pub record Parsed : Type 0 where
  pub outcome : Outcome
  pub rest : Bytes

-- The loop of `parse`, which ends at the first definite result. The initial result is indeterminate.
unfoldable pub parse : State → Request → Bytes → Parsed
parse s r [] = record { outcome = more s r; rest = [] }
parse s r (c ∷ cs) =
    let o = consume s r c in
    elim o.result [
      | indeterminate ↦ parse o.state o.request cs
      | is_true ↦ record { outcome = o; rest = cs }
      | is_false ↦ record { outcome = o; rest = cs }
    ]

-- `RequestParser()` and `reset`.
abbrev pub reset : State
reset = method_start
