-- ===== src/Http/Reply/Reader.antt =====
-- A reader of responses, written independently of src/GUI/Reply.cpp.
use sec_mon.Prelude.{
  ℕ, zero, suc, ◌≡◌, ◌&&◌, Option, none, some, List, [], ◌∷◌, ◌==◌, if◌then◌else◌, take, drop,
  length,
}
use sec_mon.Prelude.Text.{Bytes, value_onto}
use sec_mon.Http.Request.{Header}

abbrev pub prepend_line : ℕ → Option (Bytes × Bytes) → Option (Bytes × Bytes)
prepend_line c none = none
prepend_line c (some (line, rest)) = some (c ∷ line, rest)

-- The text up to the first CRLF, and what stands behind it.
unfoldable pub read_line : Bytes → Option (Bytes × Bytes)
read_line [] = none
read_line (c ∷ []) = none
read_line (c ∷ d ∷ cs) =
    if c == 13 && d == 10 then some ([], cs) else prepend_line c (read_line (d ∷ cs))

abbrev pub prepend_name : ℕ → Option Header → Option Header
prepend_name c none = none
prepend_name c (some h) = some (record h { name = c ∷ h.name })

-- A name, a colon, a byte that is dropped, and the value.
unfoldable pub read_field : Bytes → Option Header
read_field [] = none
read_field (c ∷ cs) =
    if c == b':'
    then some (record { name = []; value = drop 1 cs })
    else prepend_name c (read_field cs)

-- A response as its reader sees it.
pub record Response : Type 0 where
  pub code : ℕ
  pub fields : List Header
  pub body : Bytes

abbrev pub prepend_field :
    Option Header → Option (List Header × Bytes) → Option (List Header × Bytes)
prepend_field none r = none
prepend_field (some h) none = none
prepend_field (some h) (some (hs, body)) = some (h ∷ hs, body)

-- Header lines up to an empty one. Each takes a byte at least, so the length is enough fuel.
unfoldable pub read_fields : ℕ → Bytes → Option (List Header × Bytes)
read_fields zero bs = none
read_fields (suc fuel) bs = elim (read_line bs) [
  | none ↦ none
  | some (line, rest) ↦ elim line [
    | [] ↦ some ([], rest)
    | c ∷ cs ↦ prepend_field (read_field (c ∷ cs)) (read_fields fuel rest)
  ]
]

-- The three digits behind `HTTP/1.0 `.
abbrev pub read_code : Bytes → ℕ
read_code line = value_onto 0 (take 3 (drop 9 line))

abbrev pub respond_with : ℕ → Option (List Header × Bytes) → Option Response
respond_with code none = none
respond_with code (some (hs, body)) = some (record { code = code; fields = hs; body = body })

unfoldable pub read_response : Bytes → Option Response
unfolding value_onto read_line read_fields
read_response bs = elim (read_line bs) [
  | none ↦ none
  | some (line, rest) ↦ respond_with (read_code line) (read_fields (length bs) rest)
]

pub read_response-line :
    (bs line rest : Bytes)
    → read_line bs ≡ some (line, rest)
    → read_response bs ≡ respond_with (read_code line) (read_fields (length bs) rest)
unfolding read_response
read_response-line bs line rest e = rw (e, read_response)
