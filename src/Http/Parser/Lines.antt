-- ===== src/Http/Parser/Lines.antt =====
-- The header lines of an input that src/GUI/RequestParser.cpp accepts, split into the lines of the
-- grammar.
use sec_mon.Prelude.{
  ℕ, zero, suc, ◌<◌, ◌≡◌, ◌≢◌, ◌⊎◌, subst, refl, ap, sym, ◌∙◌, inl, inr, false, not, ◌&&◌, ◌||◌,
  List, [], ◌∷◌, ◌++◌, arith, ◌==◌, Bool-cases, length, length-append,
}
use sec_mon.Prelude.Text.{Bytes}
use sec_mon.Http.Request.{Header, blank_header, Request}
use sec_mon.Http.Parser.{
  header_line_start, header_lws, header_name, space_before_header_value, header_value,
  expecting_newline_2, is_no_token, push_name, is_empty, update_back, consume, parse,
}
use sec_mon.Http.Parser.Grammar.{
  IsToken, IsBlank, Line, field, fold, spell_line, spell_lines, append_value, store, store_all,
  IsLine, AllLines,
}
use sec_mon.Http.Parser.Forward.{update_back-concat, split_back}
use sec_mon.Http.Parser.Loops.{Accepts, with_back, Split-name, Split-value, IsToken-is_no_token}
use sec_mon.Http.Parser.Split.{expect_one, split-lws, split-newline_3}

pub is_empty-ne_nil : (hs : List Header) → is_empty hs ≡ false → hs ≢ []
is_empty-ne_nil hs h e = cc (rw e at h)

pub length-spell_line : (l : Line) (rest : Bytes) → length rest < length (spell_line l rest)
length-spell_line (field n v) rest =
    omega (
      arith,
      length-append n (b':' ∷ 32 ∷ (v ++ (13 ∷ 10 ∷ rest))),
      length-append v (13 ∷ 10 ∷ rest),
    )
length-spell_line (fold b t) rest =
    omega (arith, length-append b (t ++ (13 ∷ 10 ∷ rest)), length-append t (13 ∷ 10 ∷ rest))

module _ (q : Request) (rest : Bytes) where
  -- One line was read: what it spells, and that the input behind it is accepted with it stored.
  pub record LineRead (r : Request) (cs : Bytes) : Type 0 where
    pub line : Line
    pub after : Bytes
    pub fits : IsLine r.headers line
    pub splits : cs ≡ spell_line line after
    pub known : Accepts q rest header_line_start (record r { headers = store r.headers line }) after

  pub read_newline :
      (r : Request) (cs : Bytes)
      → Accepts q rest expecting_newline_2 r cs
      → (ds : Bytes) × (cs ≡ 10 ∷ ds) × Accepts q rest header_line_start r ds
  unfolding consume
  read_newline = expect_one q rest expecting_newline_2 header_line_start 10 (λ r c. refl)

  pub read_field :
      (c : ℕ) (cs : Bytes) (r : Request)
      → IsToken c
      → Accepts q rest header_name (with_back q rest r r.headers (push_name c blank_header)) cs
      → LineRead r (c ∷ cs)
  unfolding consume
  read_field c cs r h e =
      let n = Split-name q rest cs r r.headers (push_name c blank_header) e in
      let (ds, e1, a1) =
        expect_one q rest space_before_header_value header_value 32 (λ r c. refl) _ n.after
          n.known in
      let v = Split-value q rest ds r r.headers (record { name = c ∷ n.text; value = [] }) a1 in
      let (after, e2, a2) = read_newline _ v.after v.known in
      record {
        line = field (c ∷ n.text) v.text;
        after = after;
        fits = ((h, n.all), v.all);
        splits = ap (◌∷◌ c) (
            n.splits
            ∙ ap (λ b. n.text ++ b':' ∷ b)
                (e1 ∙ ap (◌∷◌ 32) (v.splits ∙ ap (λ b. v.text ++ 13 ∷ b) e2)));
        known = a2;
      }

  pub read_fold :
      (c : ℕ) (cs : Bytes) (r : Request)
      → r.headers ≢ []
      → IsBlank c
      → Accepts q rest header_lws r cs
      → LineRead r (c ∷ cs)
  read_fold c cs r ne h e =
      let (hs, k, back) = split_back r.headers ne in
      let v = split-lws q rest cs r hs k (rw (← back) e) in
      let (after, e2, a2) = read_newline _ v.after v.known in
      record {
        line = fold (c ∷ v.blanks) v.text;
        after = after;
        fits = (ne, (h, v.all), v.folded);
        splits = ap (◌∷◌ c) (v.splits ∙ ap (λ b. v.blanks ++ (v.text ++ 13 ∷ b)) e2);
        known =
            subst (λ ks. Accepts q rest header_line_start (record r { headers = ks }) after)
              (sym (
                ap (update_back (append_value v.text)) back
                ∙ update_back-concat (append_value v.text) hs k))
              a2;
      }

  -- At the start of a line the request ends, or a line is read.
  pub read_line :
      (cs : Bytes) (r : Request)
      → Accepts q rest header_line_start r cs
      → ((cs ≡ 13 ∷ 10 ∷ rest) × (q ≡ r)) ⊎ LineRead r cs
  unfolding parse consume
  read_line [] r e = absurd cc
  read_line (c ∷ cs) r e = elim (Bool-cases (c == 13)) [
    | inl stop ↦ let (e1, e2) = split-newline_3 q rest cs r (ground arith) in inl (ground arith, e2)
    | inr go ↦ elim (Bool-cases (not (is_empty r.headers) && (c == 32 || c == 9))) [
      | inl blank ↦ inr (
          read_fold c cs r (is_empty-ne_nil r.headers (ground arith)) (ground arith) (ground arith))
      | inr text ↦ elim (Bool-cases (is_no_token c)) [
        | inl bad ↦ absurd (ground arith)
        | inr good ↦ inr (
            read_field c cs r (IsToken-is_no_token c good)
              (ground (arith, update_back-concat (push_name c) r.headers blank_header)))
      ]
    ]
  ]

  -- The header lines up to the end of the request.
  pub record LinesRead (r : Request) (cs : Bytes) : Type 0 where
    pub lines : List Line
    pub fits : AllLines r.headers lines
    pub splits : cs ≡ spell_lines lines rest
    pub known : q ≡ record r { headers = store_all r.headers lines }

  pub read_lines :
      (fuel : ℕ) (cs : Bytes) (r : Request)
      → length cs < fuel
      → Accepts q rest header_line_start r cs
      → LinesRead r cs
  read_lines zero cs r h e = absurd (omega arith)
  read_lines (suc fuel) cs r h e = elim (read_line cs r e) [
    | inl (e1, e2) ↦ record { lines = []; fits = tt; splits = e1; known = e2 }
    | inr l ↦
        let shorter : length l.after < fuel =
          omega (arith, ap length l.splits, length-spell_line l.line l.after) in
        let ls =
          read_lines fuel l.after (record r { headers = store r.headers l.line }) shorter l.known in
        record {
          lines = l.line ∷ ls.lines;
          fits = (l.fits, ls.fits);
          splits = l.splits ∙ ap (spell_line l.line) ls.splits;
          known = ls.known;
        }
  ]
