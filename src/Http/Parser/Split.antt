-- ===== src/Http/Parser/Split.antt =====
-- The loops of RequestParser.cpp's states, read backwards: an accepted input begins with the bytes
-- that a state takes and the byte that ends it.
use sec_mon.Prelude.{
  ℕ, ◌+◌, ◌-◌, ◌*◌, ◌%◌, ◌^◌, ◌≤◌, ◌≡◌, ◌≢◌, refl, ap, inl, inr, ◌||◌, List, [], ◌∷◌, ◌++◌,
  append-nil, append_assoc, arith, ◌==◌, if◌then◌else◌, All, Bool-cases,
}
use sec_mon.Prelude.Text.{Bytes, IsDigit, value_onto}
use sec_mon.Http.Request.{Header, Request}
use sec_mon.Http.Parser.{
  State, method_start, uri, http_version_slash, http_version_major_start, http_version_minor_start,
  expecting_newline_1, header_lws, expecting_newline_2, expecting_newline_3, is_no_token,
  is_ctl_char, is_digit_char, push_value, push_digit, more, refuse, consume, parse,
}
use sec_mon.Http.Parser.Grammar.{IsToken, IsText, IsBlank, IsFolded, append_value}
use sec_mon.Http.Parser.Forward.{push_digit_lem, update_back-concat}
use sec_mon.Http.Parser.Loops.{
  IsToken-is_no_token, IsText-is_ctl_char, IsDigit-is_digit_char, Split, Split-map, Accepts,
  Split-method, Split-major, Split-minor, with_back, Split-value,
}

-- A continuation line without its first blank: blanks, text that does not begin with one, and `\r`.
pub record FoldSplit (A : Bytes → Bytes → Type 0) (cs : Bytes) : Type 0 where
  pub blanks : Bytes
  pub text : Bytes
  pub after : Bytes
  pub all : All IsBlank blanks
  pub folded : IsFolded text
  pub splits : cs ≡ blanks ++ (text ++ 13 ∷ after)
  pub known : A text after

FoldSplit-cons :
    {A : Bytes → Bytes → Type 0} (c : ℕ) (cs : Bytes)
    → IsBlank c
    → FoldSplit A cs
    → FoldSplit A (c ∷ cs)
FoldSplit-cons c cs h s = record {
  blanks = c ∷ s.blanks;
  text = s.text;
  after = s.after;
  all = (h, s.all);
  folded = s.folded;
  splits = ap (◌∷◌ c) s.splits;
  known = s.known;
}

FoldSplit-text :
    {A : Bytes → Bytes → Type 0} (c : ℕ) (cs : Bytes)
    → (33 ≤ c) × (c ≢ 127)
    → Split IsText 13 (λ t. A (c ∷ t)) cs
    → FoldSplit A (c ∷ cs)
FoldSplit-text c cs h s = record {
  blanks = [];
  text = c ∷ s.text;
  after = s.after;
  all = tt;
  folded = (h.0, h.1, s.all);
  splits = ap (◌∷◌ c) s.splits;
  known = s.known;
}

module _ (q : Request) (rest : Bytes) where
  -- The states that want one byte.
  pub expect_one :
      (s s' : State) (want : ℕ)
      → ((r : Request) (c : ℕ) → consume s r c ≡ (if c == want then more s' r else refuse s r))
      → (r : Request) (cs : Bytes) → Accepts q rest s r cs
      → (ds : Bytes) × (cs ≡ want ∷ ds) × Accepts q rest s' r ds
  unfolding parse
  expect_one s s' want step r [] e = absurd cc
  expect_one s s' want step r (c ∷ cs) e = elim (Bool-cases (c == want)) [
    | inl good ↦ (cs, ap (λ b. b ∷ cs) (ground arith), ground (arith, step r c))
    | inr bad ↦ absurd (ground (arith, step r c))
  ]

  pub split-lws :
      (cs : Bytes) (r : Request) (hs : List Header) (h : Header)
      → Accepts q rest header_lws (with_back q rest r hs h) cs
      → FoldSplit
          (λ t. Accepts q rest expecting_newline_2 (with_back q rest r hs (append_value t h)))
          cs
  unfolding parse consume
  split-lws [] r hs h e = absurd cc
  split-lws (c ∷ cs) r hs h e = elim (Bool-cases (c == 13)) [
    | inl stop ↦ record {
      blanks = [];
      text = [];
      after = cs;
      all = tt;
      folded = tt;
      splits = ap (λ b. b ∷ cs) (ground arith);
      known = rw append-nil (ground arith);
    }
    | inr go ↦ elim (Bool-cases (c == 32 || c == 9)) [
      | inl blank ↦ FoldSplit-cons c cs (ground arith) (split-lws cs r hs h (ground arith))
      | inr text ↦ elim (Bool-cases (is_ctl_char c)) [
        | inl bad ↦ absurd (ground arith)
        | inr good ↦ FoldSplit-text c cs (ground (arith, IsText-is_ctl_char c good)) (
            Split-map (λ t ds a. rw append_assoc at a)
              (Split-value q rest cs r hs (push_value c h)
                (ground (arith, update_back-concat (push_value c) hs h))))
      ]
    ]
  ]

  -- The end of the request.
  pub split-newline_3 :
      (cs : Bytes) (r : Request)
      → Accepts q rest expecting_newline_3 r cs
      → (cs ≡ 10 ∷ rest) × (q ≡ r)
  unfolding parse consume
  split-newline_3 [] r e = absurd cc
  split-newline_3 (c ∷ cs) r e = elim (Bool-cases (c == 10)) [
    | inl good ↦ (ground arith, ground arith)
    | inr bad ↦ absurd (ground arith)
  ]

  pub split-slash :
      (cs : Bytes) (r : Request)
      → Accepts q rest http_version_slash r cs
      → (ds : Bytes) × (cs ≡ b'/' ∷ ds)
        × Accepts q rest http_version_major_start
            (record r { http_version_major = 0; http_version_minor = 0 })
            ds
  unfolding parse consume
  split-slash [] r e = absurd cc
  split-slash (c ∷ cs) r e = elim (Bool-cases (c == b'/')) [
    | inl good ↦ (cs, ap (λ b. b ∷ cs) (ground arith), ground arith)
    | inr bad ↦ absurd (ground arith)
  ]

  -- The states that take the first byte of a piece.
  pub start-method :
      (cs : Bytes) (r : Request)
      → Accepts q rest method_start r cs
      → (c : ℕ) × (ds : Bytes) × IsToken c
        × (cs ≡ c ∷ ds)
        × Split IsToken 32 (λ t. Accepts q rest uri (record r { method = r.method ++ c ∷ t })) ds
  unfolding parse consume
  start-method [] r e = absurd cc
  start-method (c ∷ cs) r e = elim (Bool-cases (is_no_token c)) [
    | inl bad ↦ absurd (ground arith)
    | inr good ↦ (
      c,
      cs,
      IsToken-is_no_token c good,
      refl,
      Split-map (λ t ds a. rw append_assoc at a)
          (Split-method q rest cs (record r { method = r.method ++ c ∷ [] }) (ground arith)),
    )
  ]

  pub start-major :
      (cs : Bytes) (r : Request)
      → r.http_version_major ≡ 0
      → Accepts q rest http_version_major_start r cs
      → (c : ℕ) × (ds : Bytes) × IsDigit c
        × (cs ≡ c ∷ ds)
        × Split IsDigit b'.'
            (λ t.
              Accepts q rest http_version_minor_start
                (record r { http_version_major = value_onto 0 (c ∷ t) % 2 ^ 32 }))
            ds
  unfolding parse consume value_onto
  start-major [] r z e = absurd cc
  start-major (c ∷ cs) r z e = elim (Bool-cases (is_digit_char c)) [
    | inr bad ↦ absurd (ground arith)
    | inl good ↦ (
      c,
      cs,
      IsDigit-is_digit_char c good,
      refl,
      Split-major q rest cs (record r { http_version_major = push_digit r.http_version_major c })
          (0 * 10 + (c - 48)) (push_digit_lem r.http_version_major 0 c z) (ground arith),
    )
  ]

  pub start-minor :
      (cs : Bytes) (r : Request)
      → r.http_version_minor ≡ 0
      → Accepts q rest http_version_minor_start r cs
      → (c : ℕ) × (ds : Bytes) × IsDigit c
        × (cs ≡ c ∷ ds)
        × Split IsDigit 13
            (λ t.
              Accepts q rest expecting_newline_1
                (record r { http_version_minor = value_onto 0 (c ∷ t) % 2 ^ 32 }))
            ds
  unfolding parse consume value_onto
  start-minor [] r z e = absurd cc
  start-minor (c ∷ cs) r z e = elim (Bool-cases (is_digit_char c)) [
    | inr bad ↦ absurd (ground arith)
    | inl good ↦ (
      c,
      cs,
      IsDigit-is_digit_char c good,
      refl,
      Split-minor q rest cs (record r { http_version_minor = push_digit r.http_version_minor c })
          (0 * 10 + (c - 48)) (push_digit_lem r.http_version_minor 0 c z) (ground arith),
    )
  ]
