-- ===== src/Http/Parser/Complete.antt =====
-- The texts of the grammar, given to src/GUI/RequestParser.cpp: each lemma runs the machine over one
-- piece of a request, with any input behind it.
use sec_mon.Prelude.{
  ◌-◌, ◌%◌, ◌^◌, ◌≡◌, refl, ap, sym, ◌∙◌, false, List, [], ◌∷◌, ◌++◌, append-nil, append_assoc,
  arith, All,
}
use sec_mon.Prelude.Text.{Bytes, IsDigit, value_onto}
use sec_mon.Http.Request.{Header, blank_header, Request, empty_request}
use sec_mon.Http.Parser.{
  method, uri, http_version_major_start, header_line_start, expecting_newline_3, is_true, push_name,
  push_value, push_digit, is_empty, update_back, consume, Parsed, parse, reset,
}
use sec_mon.Http.Parser.Grammar.{
  IsToken, IsText, IsBlank, AllSome, IsFolded, Line, field, fold, spell_line, spell_lines,
  append_value, store, store_all, IsLine, AllLines, Spelling, IsSpelling, spell_version, spell,
  meaning,
}
use sec_mon.Http.Parser.Forward.{
  is_no_token-IsToken, is_ctl_char-IsText, is_digit_char-IsDigit, push_digit_lem,
  update_back-concat, split_back, parse-method_start, parse-uri, parse-major, parse-minor,
  parse-name, parse-value, parse-blanks,
}

parse-version :
    (major minor rest : Bytes) (r : Request)
    → AllSome IsDigit major
    → AllSome IsDigit minor
    → r.http_version_major ≡ 0
    → r.http_version_minor ≡ 0
    → parse http_version_major_start r (spell_version major minor rest)
      ≡ parse header_line_start
          (record r {
            http_version_major = value_onto 0 major % 2 ^ 32;
            http_version_minor = value_onto 0 minor % 2 ^ 32;
          })
          rest
unfolding parse consume value_onto
parse-version [] minor rest r h k e f = absurd h
parse-version (m ∷ ms) [] rest r h k e f = absurd k
parse-version (m ∷ ms) (n ∷ ns) rest r h k e f =
    let r1 = record r { http_version_major = push_digit r.http_version_major m } in
    let r2 = record r1 { http_version_major = value_onto (m - 48) ms % 2 ^ 32 } in
    let r3 = record r2 { http_version_minor = push_digit r2.http_version_minor n } in
    ground (
      arith,
      is_digit_char-IsDigit m,
      is_digit_char-IsDigit n,
      push_digit_lem r.http_version_major 0 m,
      push_digit_lem r.http_version_minor 0 n,
      parse-major (b'.' ∷ n ∷ (ns ++ (13 ∷ 10 ∷ rest))) ms r1 (m - 48),
      parse-minor (13 ∷ 10 ∷ rest) ns r3 (n - 48),
    )

pub is_empty-concat : (hs : List Header) (h : Header) → is_empty (hs ++ h ∷ []) ≡ false
is_empty-concat [] h = refl
is_empty-concat (k ∷ hs) h = refl

-- A header line, and a continuation line.
parse-field :
    (n v rest : Bytes) (r : Request)
    → AllSome IsToken n
    → All IsText v
    → parse header_line_start r (spell_line (field n v) rest)
      ≡ parse header_line_start (record r { headers = store r.headers (field n v) }) rest
unfolding parse consume
parse-field [] v rest r h k = absurd h
parse-field (c ∷ cs) v rest r h k =
    let hs = r.headers in
    let h1 : Header = push_name c blank_header in
    let h2 : Header = record { name = c ∷ cs; value = [] } in
    ground (
      arith,
      is_no_token-IsToken c,
      update_back-concat (push_name c) hs blank_header,
      parse-name (b':' ∷ 32 ∷ (v ++ (13 ∷ 10 ∷ rest))) cs (record r { headers = hs ++ h1 ∷ [] }) hs
          h1,
      parse-value (13 ∷ 10 ∷ rest) v (record r { headers = hs ++ h2 ∷ [] }) hs h2,
    )

parse-fold_onto :
    (b t rest : Bytes) (r : Request) (hs : List Header) (h : Header)
    → AllSome IsBlank b
    → IsFolded t
    → r.headers ≡ hs ++ h ∷ []
    → parse header_line_start r (spell_line (fold b t) rest)
      ≡ parse header_line_start (record r { headers = hs ++ append_value t h ∷ [] }) rest
unfolding parse consume
parse-fold_onto [] t rest r hs h k f e = absurd k
parse-fold_onto (c ∷ cs) [] rest r hs h k f e =
    ground (arith, is_empty-concat hs h, parse-blanks (13 ∷ 10 ∷ rest) cs r, append-nil h.value)
parse-fold_onto (c ∷ cs) (d ∷ ds) rest r hs h k f e = ground (
  arith,
  is_empty-concat hs h,
  is_ctl_char-IsText d,
  parse-blanks (d ∷ (ds ++ (13 ∷ 10 ∷ rest))) cs r,
  update_back-concat (push_value d) hs h,
  parse-value (13 ∷ 10 ∷ rest) ds (record r { headers = hs ++ push_value d h ∷ [] }) hs
      (push_value d h),
  append_assoc h.value (d ∷ []) ds,
)

parse-fold :
    (b t rest : Bytes) (r : Request)
    → IsLine r.headers (fold b t)
    → parse header_line_start r (spell_line (fold b t) rest)
      ≡ parse header_line_start (record r { headers = store r.headers (fold b t) }) rest
parse-fold b t rest r (ne, k, f) =
    let (hs, h, e) = split_back r.headers ne in
    parse-fold_onto b t rest r hs h k f e
    ∙ ap (λ ks. parse header_line_start (record r { headers = ks }) rest)
        (sym (ap (update_back (append_value t)) e ∙ update_back-concat (append_value t) hs h))

-- What `parse` leaves behind an accepted request.
abbrev pub accepted : Request → Bytes → Parsed
accepted r rest = record {
  outcome = record { state = expecting_newline_3; request = r; result = is_true };
  rest = rest;
}

parse-lines :
    (ls : List Line) (rest : Bytes) (r : Request)
    → AllLines r.headers ls
    → parse header_line_start r (spell_lines ls rest)
      ≡ accepted (record r { headers = store_all r.headers ls }) rest
parse-lines [] rest r h = unfold parse consume in refl
parse-lines (field n v ∷ ls) rest r h =
    parse-field n v (spell_lines ls rest) r h.0.0 h.0.1 ∙ parse-lines ls rest _ h.1
parse-lines (fold b t ∷ ls) rest r h =
    parse-fold b t (spell_lines ls rest) r h.0 ∙ parse-lines ls rest _ h.1

-- Whatever stands behind it, a text of the grammar is accepted with its meaning, and nothing behind
-- it is read.
pub parse-spell :
    (p : Spelling) (rest : Bytes)
    → IsSpelling p
    → parse reset empty_request (spell p rest) ≡ accepted (meaning p) rest
parse-spell p rest h =
    parse-method_start _ p.method empty_request h.method_tokens
    ∙ parse_space _ _
    ∙ parse-uri _ p.uri _ h.uri_bytes
    ∙ parse_http _ _
    ∙ parse-version p.major p.minor _ _ h.major_digits h.minor_digits refl refl
    ∙ parse-lines p.lines rest _ h.lines_fit
  where
    parse_space : (r : Request) (cs : Bytes) → parse method r (32 ∷ cs) ≡ parse uri r cs
    parse_space r cs = unfold parse consume in refl

    parse_http :
        (r : Request) (cs : Bytes)
        → parse uri r (32 ∷ b'H' ∷ b'T' ∷ b'T' ∷ b'P' ∷ b'/' ∷ cs)
          ≡ parse http_version_major_start
              (record r { http_version_major = 0; http_version_minor = 0 })
              cs
    parse_http r cs = unfold parse consume in refl
