-- ===== src/Http/Parser/Grammar.antt =====
-- The request grammar that RequestParser.cpp implements, written down on its own: what a request
-- looks like on the wire, and the `Request` that it stands for.
use sec_mon.Prelude.{ℕ, ◌≤◌, ◌%◌, ◌^◌, ◌≡◌, ◌≢◌, ◌⊎◌, false, List, [], ◌∷◌, ◌++◌, All}
use sec_mon.Prelude.Int.{pos}
use sec_mon.Prelude.Text.{Bytes, IsDigit, value_onto}
use sec_mon.Http.Request.{Header, Request}
use sec_mon.Http.Parser.{is_tspecial, update_back}

-- A printable ASCII byte, not blank and no separator.
abbrev pub IsToken : ℕ → Type 0
IsToken c = (33 ≤ c) × (c ≤ 126) × (is_tspecial (pos c) ≡ false)

-- A byte that is no control byte.
abbrev pub IsText : ℕ → Type 0
IsText c = (32 ≤ c) × (c ≢ 127)

abbrev pub IsUriByte : ℕ → Type 0
IsUriByte c = (33 ≤ c) × (c ≢ 127)

abbrev pub IsBlank : ℕ → Type 0
IsBlank c = (c ≡ 32) ⊎ (c ≡ 9)

-- Not empty, and all of a kind.
abbrev pub AllSome : (ℕ → Type 0) → Bytes → Type 0
AllSome P [] = ⊥
AllSome P (c ∷ cs) = P c × All P cs

-- The text of a continuation line: it does not begin with a blank.
abbrev pub IsFolded : Bytes → Type 0
IsFolded [] = Unit
IsFolded (c ∷ cs) = (33 ≤ c) × (c ≢ 127) × All IsText cs

-- A header line, or a line that continues the one above it after a blank.
pub data Line : Type 0 where
  field : Bytes → Bytes → Line
  fold : Bytes → Bytes → Line

abbrev pub spell_line : Line → Bytes → Bytes
spell_line (field n v) rest = n ++ (b':' ∷ 32 ∷ (v ++ (13 ∷ 10 ∷ rest)))
spell_line (fold b t) rest = b ++ (t ++ (13 ∷ 10 ∷ rest))

abbrev pub spell_lines : List Line → Bytes → Bytes
spell_lines [] rest = 13 ∷ 10 ∷ rest
spell_lines (l ∷ ls) rest = spell_line l (spell_lines ls rest)

abbrev pub append_value : Bytes → Header → Header
append_value t h = record h { value = h.value ++ t }

-- The headers after one more line, and after all.
abbrev pub store : List Header → Line → List Header
store hs (field n v) = hs ++ (record { name = n; value = v }) ∷ []
store hs (fold b t) = update_back (append_value t) hs

abbrev pub store_all : List Header → List Line → List Header
store_all hs [] = hs
store_all hs (l ∷ ls) = store_all (store hs l) ls

-- A line is in order behind the headers `hs`. The first line is no continuation.
abbrev pub IsLine : List Header → Line → Type 0
IsLine hs (field n v) = AllSome IsToken n × All IsText v
IsLine hs (fold b t) = (hs ≢ []) × AllSome IsBlank b × IsFolded t

abbrev pub AllLines : List Header → List Line → Type 0
AllLines hs [] = Unit
AllLines hs (l ∷ ls) = IsLine hs l × AllLines (store hs l) ls

-- The parts of a request's text.
pub record Spelling : Type 0 where
  pub method : Bytes
  pub uri : Bytes
  pub major : Bytes
  pub minor : Bytes
  pub lines : List Line

pub record IsSpelling (p : Spelling) : Type 0 where
  pub method_tokens : AllSome IsToken p.method
  pub uri_bytes : All IsUriByte p.uri
  pub major_digits : AllSome IsDigit p.major
  pub minor_digits : AllSome IsDigit p.minor
  pub lines_fit : AllLines [] p.lines

-- The text, with `rest` behind it.
abbrev pub spell_version : Bytes → Bytes → Bytes → Bytes
spell_version major minor rest = major ++ (b'.' ∷ (minor ++ (13 ∷ 10 ∷ rest)))

abbrev pub spell : Spelling → Bytes → Bytes
spell p rest =
    p.method
    ++ (32
        ∷ (p.uri
            ++ (32
                ∷ b'H'
                ∷ b'T'
                ∷ b'T'
                ∷ b'P'
                ∷ b'/'
                ∷ spell_version p.major p.minor (spell_lines p.lines rest))))

-- What the text stands for. A version number is kept modulo 2 ^ 32.
abbrev pub meaning : Spelling → Request
meaning p = record {
  method = p.method;
  uri = p.uri;
  http_version_major = value_onto 0 p.major % 2 ^ 32;
  http_version_minor = value_onto 0 p.minor % 2 ^ 32;
  headers = store_all [] p.lines;
}
