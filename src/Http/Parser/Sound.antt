-- ===== src/Http/Parser/Sound.antt =====
-- The inputs that src/GUI/RequestParser.cpp accepts, and how they split into the pieces of the
-- grammar.
use sec_mon.Prelude.{suc, ◌%◌, ◌^◌, ◌≡◌, ◌↔◌, refl, ap, ◌∙◌, ◌∷◌, ◌++◌, arith, length}
use sec_mon.Prelude.Text.{Bytes, IsDigit, value_onto}
use sec_mon.Http.Request.{Request, empty_request}
use sec_mon.Http.Parser.{
  http_version_h, http_version_t_1, http_version_t_2, http_version_p, http_version_slash,
  http_version_major_start, expecting_newline_1, header_line_start, consume, parse, reset,
}
use sec_mon.Http.Parser.Grammar.{AllSome, Spelling, IsSpelling, spell_version, spell, meaning}
use sec_mon.Http.Parser.Complete.{accepted, parse-spell}
use sec_mon.Http.Parser.Loops.{Accepts, Split-uri}
use sec_mon.Http.Parser.Split.{expect_one, split-slash, start-method, start-major, start-minor}
use sec_mon.Http.Parser.Lines.{read_lines}

module _ (q : Request) (rest : Bytes) where
  -- The bytes between the URI and the version.
  read_http :
      (r : Request) (cs : Bytes)
      → Accepts q rest http_version_h r cs
      → (ds : Bytes) × (cs ≡ b'H' ∷ b'T' ∷ b'T' ∷ b'P' ∷ b'/' ∷ ds)
        × Accepts q rest http_version_major_start
            (record r { http_version_major = 0; http_version_minor = 0 })
            ds
  unfolding consume
  read_http r cs e =
      let (d1, e1, a1) =
        expect_one q rest http_version_h http_version_t_1 b'H' (λ r c. refl) r cs e in
      let (d2, e2, a2) =
        expect_one q rest http_version_t_1 http_version_t_2 b'T' (λ r c. refl) r d1 a1 in
      let (d3, e3, a3) =
        expect_one q rest http_version_t_2 http_version_p b'T' (λ r c. refl) r d2 a2 in
      let (d4, e4, a4) =
        expect_one q rest http_version_p http_version_slash b'P' (λ r c. refl) r d3 a3 in
      let (d5, e5, a5) = split-slash q rest d4 r a4 in
      let whole : cs ≡ b'H' ∷ b'T' ∷ b'T' ∷ b'P' ∷ b'/' ∷ d5 = cc in (d5, whole, a5)

  read_end_of_line :
      (r : Request) (cs : Bytes)
      → Accepts q rest expecting_newline_1 r cs
      → (ds : Bytes) × (cs ≡ 10 ∷ ds) × Accepts q rest header_line_start r ds
  unfolding consume
  read_end_of_line = expect_one q rest expecting_newline_1 header_line_start 10 (λ r c. refl)

  -- The version, up to the end of the request line.
  record VersionRead (r : Request) (cs : Bytes) : Type 0 where
    major : Bytes
    minor : Bytes
    after : Bytes
    major_digits : AllSome IsDigit major
    minor_digits : AllSome IsDigit minor
    splits : cs ≡ spell_version major minor after
    known :
        Accepts q rest header_line_start
          (record r {
            http_version_major = value_onto 0 major % 2 ^ 32;
            http_version_minor = value_onto 0 minor % 2 ^ 32;
          })
          after

  read_version :
      (r : Request) (cs : Bytes)
      → r.http_version_major ≡ 0
      → r.http_version_minor ≡ 0
      → Accepts q rest http_version_major_start r cs
      → VersionRead r cs
  read_version r cs y z e =
      let (c, ds, h, e1, s) = start-major q rest cs r y e in
      let (d, es, k, e2, t) =
        start-minor q rest s.after
          (record r { http_version_major = value_onto 0 (c ∷ s.text) % 2 ^ 32 }) z s.known in
      let (after, e3, a) = read_end_of_line _ t.after t.known in
      record {
        major = c ∷ s.text;
        minor = d ∷ t.text;
        after = after;
        major_digits = (h, s.all);
        minor_digits = (k, t.all);
        splits =
            e1
            ∙ ap (◌∷◌ c) (
                s.splits
                ∙ ap (λ b. s.text ++ b'.' ∷ b)
                    (e2 ∙ ap (◌∷◌ d) (t.splits ∙ ap (λ b. t.text ++ 13 ∷ b) e3)));
        known = a;
      }

  -- The whole request.
  record Read (cs : Bytes) : Type 0 where
    spelling : Spelling
    fits : IsSpelling spelling
    splits : cs ≡ spell spelling rest
    known : q ≡ meaning spelling

  Read-request : (cs : Bytes) → Accepts q rest reset empty_request cs → Read cs
  Read-request cs e =
      let (c, ds, h, e1, m) = start-method q rest cs empty_request e in
      let u = Split-uri q rest m.after (record empty_request { method = c ∷ m.text }) m.known in
      let (d2, e2, a2) = read_http _ u.after u.known in
      let v =
        read_version (record empty_request { method = c ∷ m.text; uri = u.text }) d2 refl refl a2 in
      let l = read_lines q rest (suc (length v.after)) v.after _ (omega arith) v.known in
      record {
        spelling = record {
          method = c ∷ m.text;
          uri = u.text;
          major = v.major;
          minor = v.minor;
          lines = l.lines;
        };
        fits = record {
          method_tokens = (h, m.all);
          uri_bytes = u.all;
          major_digits = v.major_digits;
          minor_digits = v.minor_digits;
          lines_fit = l.fits;
        };
        splits =
            e1
            ∙ ap (◌∷◌ c) (
                m.splits
                ∙ ap (λ b. m.text ++ 32 ∷ b)
                    (u.splits
                      ∙ ap (λ b. u.text ++ 32 ∷ b)
                          (e2
                            ∙ ap (λ b. b'H' ∷ b'T' ∷ b'T' ∷ b'P' ∷ b'/' ∷ b)
                                (v.splits ∙ ap (spell_version v.major v.minor) l.splits))));
        known = l.known;
      }

-- The parser, started on an empty request, accepts an input with request `q` and leaves `rest` unread
-- exactly when the input is the text of a request of the grammar with `rest` behind it, and `q` is
-- what the text means.
pub parse_iff_spell :
    (q : Request) (rest cs : Bytes)
    → (parse reset empty_request cs ≡ accepted q rest)
      ↔ ((p : Spelling) × IsSpelling p × (cs ≡ spell p rest) × (q ≡ meaning p))
parse_iff_spell q rest cs = (
  (λ e. let r = Read-request q rest cs e in (r.spelling, r.fits, r.splits, r.known)),
  (λ (p, h, e, m). rw (e, m) (parse-spell p rest h)),
)
