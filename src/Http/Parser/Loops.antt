-- ===== src/Http/Parser/Loops.antt =====
-- The loops of RequestParser.cpp over the characters of one part, read backwards.
use sec_mon.Prelude.{
  ℕ, ◌+◌, ◌-◌, ◌*◌, ◌%◌, ◌^◌, ◌≡◌, ◌≢◌, ap, inl, inr, true, false, List, [], ◌∷◌, ◌++◌, append-nil,
  append_assoc, arith, ◌==◌, All, Bool-cases,
}
use sec_mon.Prelude.Text.{Bytes, IsDigit, value_onto}
use sec_mon.Http.Request.{Header, Request}
use sec_mon.Http.Parser.{
  State, method, uri, http_version_h, http_version_major, http_version_minor_start,
  http_version_minor, expecting_newline_1, header_name, space_before_header_value, header_value,
  expecting_newline_2, is_char, is_ctl, is_no_token, is_ctl_char, is_digit, is_digit_char,
  is_tspecial, push_name, push_value, push_digit, consume, parse,
}
use sec_mon.Http.Parser.Grammar.{IsToken, IsText, IsUriByte, append_value}
use sec_mon.Http.Parser.Forward.{push_digit_lem, update_back-concat}
use sec_mon.Http.Parser.Complete.{accepted}

pub is_no_token-ne_space : (c : ℕ) → is_no_token c ≡ false → c ≢ 32
unfolding is_no_token is_char is_ctl is_tspecial
is_no_token-ne_space c h e = cc (rw e at h)

pub IsToken-is_no_token : (c : ℕ) → is_no_token c ≡ false → IsToken c
unfolding is_no_token is_char is_ctl
IsToken-is_no_token c h = (ground (arith, is_no_token-ne_space c h), ground arith, ground arith)

pub IsText-is_ctl_char : (c : ℕ) → is_ctl_char c ≡ false → IsText c
unfolding is_ctl_char is_ctl
IsText-is_ctl_char c h = (ground arith, ground arith)

pub IsDigit-is_digit_char : (c : ℕ) → is_digit_char c ≡ true → IsDigit c
unfolding is_digit_char is_digit
IsDigit-is_digit_char c h = (ground arith, ground arith)

-- `cs` begins with bytes of one kind and the byte `stop`, and what is then known of both parts.
pub record Split (P : ℕ → Type 0) (stop : ℕ) (A : Bytes → Bytes → Type 0) (cs : Bytes)
    : Type 0 where
  pub text : Bytes
  pub after : Bytes
  pub all : All P text
  pub splits : cs ≡ text ++ stop ∷ after
  pub known : A text after

module _ {P : ℕ → Type 0} {stop : ℕ} {A : Bytes → Bytes → Type 0} where
  pub Split-stop : (c : ℕ) (cs : Bytes) → c ≡ stop → A [] cs → Split P stop A (c ∷ cs)
  Split-stop c cs e a = record {
    text = [];
    after = cs;
    all = tt;
    splits = ap (λ b. b ∷ cs) e;
    known = a;
  }

  pub Split-cons :
      (c : ℕ) (cs : Bytes) → P c → Split P stop (λ t. A (c ∷ t)) cs → Split P stop A (c ∷ cs)
  Split-cons c cs h s = record {
    text = c ∷ s.text;
    after = s.after;
    all = (h, s.all);
    splits = ap (◌∷◌ c) s.splits;
    known = s.known;
  }

pub Split-map :
    {P : ℕ → Type 0} {stop : ℕ} {A B : Bytes → Bytes → Type 0} {cs : Bytes}
    → ((t ds : Bytes) → A t ds → B t ds)
    → Split P stop A cs
    → Split P stop B cs
Split-map f s = record {
  text = s.text;
  after = s.after;
  all = s.all;
  splits = s.splits;
  known = f s.text s.after s.known;
}

module _ (q : Request) (rest : Bytes) where
  -- State `s` accepts `cs` with request `r`, and ends with the request `q` and `rest` unread.
  abbrev pub Accepts : State → Request → Bytes → Type 0
  Accepts s r cs = parse s r cs ≡ accepted q rest

  pub Split-method :
      (cs : Bytes) (r : Request)
      → Accepts method r cs
      → Split IsToken 32 (λ t. Accepts uri (record r { method = r.method ++ t })) cs
  unfolding parse consume
  Split-method [] r e = absurd cc
  Split-method (c ∷ cs) r e = elim (Bool-cases (c == 32)) [
    | inl stop ↦ Split-stop c cs (ground arith) (rw append-nil (ground arith))
    | inr go ↦ elim (Bool-cases (is_no_token c)) [
      | inl bad ↦ absurd (ground arith)
      | inr good ↦ Split-cons c cs (IsToken-is_no_token c good) (
          Split-map (λ t ds a. rw append_assoc at a)
            (Split-method cs (record r { method = r.method ++ c ∷ [] }) (ground arith)))
    ]
  ]

  pub Split-uri :
      (cs : Bytes) (r : Request)
      → Accepts uri r cs
      → Split IsUriByte 32 (λ t. Accepts http_version_h (record r { uri = r.uri ++ t })) cs
  unfolding parse consume
  Split-uri [] r e = absurd cc
  Split-uri (c ∷ cs) r e = elim (Bool-cases (c == 32)) [
    | inl stop ↦ Split-stop c cs (ground arith) (rw append-nil (ground arith))
    | inr go ↦ elim (Bool-cases (is_ctl_char c)) [
      | inl bad ↦ absurd (ground arith)
      | inr good ↦ Split-cons c cs (ground (arith, IsText-is_ctl_char c good)) (
          Split-map (λ t ds a. rw append_assoc at a)
            (Split-uri cs (record r { uri = r.uri ++ c ∷ [] }) (ground arith)))
    ]
  ]

  pub Split-major :
      (cs : Bytes) (r : Request) (v : ℕ)
      → r.http_version_major ≡ v % 2 ^ 32
      → Accepts http_version_major r cs
      → Split IsDigit b'.'
          (λ t.
            Accepts http_version_minor_start
              (record r { http_version_major = value_onto v t % 2 ^ 32 }))
          cs
  unfolding parse consume value_onto
  Split-major [] r v w e = absurd cc
  Split-major (c ∷ cs) r v w e = elim (Bool-cases (c == b'.')) [
    | inl stop ↦ Split-stop c cs (ground arith) (ground arith)
    | inr go ↦ elim (Bool-cases (is_digit_char c)) [
      | inr bad ↦ absurd (ground arith)
      | inl good ↦ Split-cons c cs (IsDigit-is_digit_char c good) (
          Split-major cs (record r { http_version_major = push_digit r.http_version_major c })
            (v * 10 + (c - 48)) (push_digit_lem r.http_version_major v c w) (ground arith))
    ]
  ]

  pub Split-minor :
      (cs : Bytes) (r : Request) (v : ℕ)
      → r.http_version_minor ≡ v % 2 ^ 32
      → Accepts http_version_minor r cs
      → Split IsDigit 13
          (λ t.
            Accepts expecting_newline_1 (record r { http_version_minor = value_onto v t % 2 ^ 32 }))
          cs
  unfolding parse consume value_onto
  Split-minor [] r v w e = absurd cc
  Split-minor (c ∷ cs) r v w e = elim (Bool-cases (c == 13)) [
    | inl stop ↦ Split-stop c cs (ground arith) (ground arith)
    | inr go ↦ elim (Bool-cases (is_digit_char c)) [
      | inr bad ↦ absurd (ground arith)
      | inl good ↦ Split-cons c cs (IsDigit-is_digit_char c good) (
          Split-minor cs (record r { http_version_minor = push_digit r.http_version_minor c })
            (v * 10 + (c - 48)) (push_digit_lem r.http_version_minor v c w) (ground arith))
    ]
  ]

  -- The headers with one put at their end.
  abbrev pub with_back : Request → List Header → Header → Request
  with_back r hs h = record r { headers = hs ++ h ∷ [] }

  pub Split-name :
      (cs : Bytes) (r : Request) (hs : List Header) (h : Header)
      → Accepts header_name (with_back r hs h) cs
      → Split IsToken b':'
          (λ t.
            Accepts space_before_header_value (with_back r hs (record h { name = h.name ++ t })))
          cs
  unfolding parse consume
  Split-name [] r hs h e = absurd cc
  Split-name (c ∷ cs) r hs h e = elim (Bool-cases (c == b':')) [
    | inl stop ↦ Split-stop c cs (ground arith) (rw append-nil (ground arith))
    | inr go ↦ elim (Bool-cases (is_no_token c)) [
      | inl bad ↦ absurd (ground arith)
      | inr good ↦ Split-cons c cs (IsToken-is_no_token c good) (
          Split-map (λ t ds a. rw append_assoc at a)
            (Split-name cs r hs (push_name c h)
              (ground (arith, update_back-concat (push_name c) hs h))))
    ]
  ]

  pub Split-value :
      (cs : Bytes) (r : Request) (hs : List Header) (h : Header)
      → Accepts header_value (with_back r hs h) cs
      → Split IsText 13 (λ t. Accepts expecting_newline_2 (with_back r hs (append_value t h))) cs
  unfolding parse consume
  Split-value [] r hs h e = absurd cc
  Split-value (c ∷ cs) r hs h e = elim (Bool-cases (c == 13)) [
    | inl stop ↦ Split-stop c cs (ground arith) (rw append-nil (ground arith))
    | inr go ↦ elim (Bool-cases (is_ctl_char c)) [
      | inl bad ↦ absurd (ground arith)
      | inr good ↦ Split-cons c cs (IsText-is_ctl_char c good) (
          Split-map (λ t ds a. rw append_assoc at a)
            (Split-value cs r hs (push_value c h)
              (ground (arith, update_back-concat (push_value c) hs h))))
    ]
  ]
