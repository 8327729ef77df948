-- ===== src/Http/Parser/Forward.antt =====
-- The loops of RequestParser.cpp on the characters of one part of a text of the grammar.
use sec_mon.Prelude.{
  ℕ, ◌+◌, ◌-◌, ◌*◌, ◌%◌, ◌^◌, ◌≡◌, ◌≢◌, refl, ap, true, false, List, [], ◌∷◌, ◌++◌, append-nil,
  append_assoc, arith, All,
}
use sec_mon.Prelude.Text.{Bytes, IsDigit, value_onto}
use sec_mon.Http.Request.{Header, Request}
use sec_mon.Http.Parser.{
  State, method_start, method, uri, http_version_major, http_version_minor, header_lws, header_name,
  header_value, is_char, is_ctl, is_no_token, is_ctl_char, is_digit, is_digit_char, is_tspecial,
  push_name, push_value, push_digit, update_back, more, consume, parse,
}
use sec_mon.Http.Parser.Grammar.{IsToken, IsText, IsUriByte, IsBlank, AllSome}

pub is_no_token-IsToken : (c : ℕ) → IsToken c → is_no_token c ≡ false
unfolding is_no_token is_char is_ctl
is_no_token-IsToken c h = ground arith

pub IsToken-ne_colon : (c : ℕ) → IsToken c → c ≢ b':'
unfolding is_tspecial
IsToken-ne_colon c h = ground arith

pub is_ctl_char-IsText : (c : ℕ) → IsText c → is_ctl_char c ≡ false
unfolding is_ctl_char is_ctl
is_ctl_char-IsText c h = ground arith

pub is_digit_char-IsDigit : (c : ℕ) → IsDigit c → is_digit_char c ≡ true
unfolding is_digit_char is_digit
is_digit_char-IsDigit c h = ground arith

-- One byte that leaves the result open.
pub parse-more :
    (s s' : State) (r r' : Request) (c : ℕ) (cs : Bytes)
    → consume s r c ≡ more s' r'
    → parse s r (c ∷ cs) ≡ parse s' r' cs
unfolding parse
parse-more s s' r r' c cs e = ground arith

pub push_digit_lem : (w v c : ℕ) → w ≡ v % 2 ^ 32 → push_digit w c ≡ (v * 10 + (c - 48)) % 2 ^ 32
push_digit_lem w v c e = omega arith

pub update_back-concat :
    (f : Header → Header) (hs : List Header) (h : Header)
    → update_back f (hs ++ h ∷ []) ≡ hs ++ f h ∷ []
unfolding update_back
update_back-concat f [] h = refl
update_back-concat f (k ∷ []) h = refl
update_back-concat f (k ∷ j ∷ hs) h = ap (◌∷◌ k) (update_back-concat f (j ∷ hs) h)

-- A vector that is not empty has a last element.
pub split_back :
    (hs : List Header) → hs ≢ [] → (ks : List Header) × (k : Header) × (hs ≡ ks ++ k ∷ [])
split_back [] ne = absurd (ne refl)
split_back (h ∷ []) ne = ([], h, refl)
split_back (h ∷ j ∷ hs) ne =
    let (ks, k, e) = split_back (j ∷ hs) (λ x. cc) in (h ∷ ks, k, ap (◌∷◌ h) e)

module _ (rest : Bytes) where
  pub parse-method :
      (ts : Bytes) (r : Request)
      → All IsToken ts
      → parse method r (ts ++ rest) ≡ parse method (record r { method = r.method ++ ts }) rest
  unfolding parse consume
  parse-method [] r h = rw append-nil
  parse-method (c ∷ cs) r h = ground (
    arith,
    is_no_token-IsToken c,
    parse-method cs (record r { method = r.method ++ c ∷ [] }),
    append_assoc r.method (c ∷ []) cs,
  )

  pub parse-method_start :
      (ts : Bytes) (r : Request)
      → AllSome IsToken ts
      → parse method_start r (ts ++ rest) ≡ parse method (record r { method = r.method ++ ts }) rest
  unfolding parse consume
  parse-method_start [] r h = absurd h
  parse-method_start (c ∷ cs) r h = ground (
    arith,
    is_no_token-IsToken c,
    parse-method cs (record r { method = r.method ++ c ∷ [] }),
    append_assoc r.method (c ∷ []) cs,
  )

  pub parse-uri :
      (ts : Bytes) (r : Request)
      → All IsUriByte ts
      → parse uri r (ts ++ rest) ≡ parse uri (record r { uri = r.uri ++ ts }) rest
  unfolding parse consume
  parse-uri [] r h = rw append-nil
  parse-uri (c ∷ cs) r h = ground (
    arith,
    is_ctl_char-IsText c,
    parse-uri cs (record r { uri = r.uri ++ c ∷ [] }),
    append_assoc r.uri (c ∷ []) cs,
  )

  pub parse-major :
      (ds : Bytes) (r : Request) (v : ℕ)
      → All IsDigit ds
      → r.http_version_major ≡ v % 2 ^ 32
      → parse http_version_major r (ds ++ rest)
        ≡ parse http_version_major (record r { http_version_major = value_onto v ds % 2 ^ 32 }) rest
  unfolding parse consume value_onto
  parse-major [] r v h e = ground (arith, e)
  parse-major (c ∷ cs) r v h e = ground (
    arith,
    is_digit_char-IsDigit c,
    push_digit_lem r.http_version_major v c e,
    parse-major cs (record r { http_version_major = push_digit r.http_version_major c })
        (v * 10 + (c - 48)),
  )

  pub parse-minor :
      (ds : Bytes) (r : Request) (v : ℕ)
      → All IsDigit ds
      → r.http_version_minor ≡ v % 2 ^ 32
      → parse http_version_minor r (ds ++ rest)
        ≡ parse http_version_minor (record r { http_version_minor = value_onto v ds % 2 ^ 32 }) rest
  unfolding parse consume value_onto
  parse-minor [] r v h e = ground (arith, e)
  parse-minor (c ∷ cs) r v h e = ground (
    arith,
    is_digit_char-IsDigit c,
    push_digit_lem r.http_version_minor v c e,
    parse-minor cs (record r { http_version_minor = push_digit r.http_version_minor c })
        (v * 10 + (c - 48)),
  )

  pub parse-name :
      (ts : Bytes) (r : Request) (hs : List Header) (h : Header)
      → All IsToken ts
      → r.headers ≡ hs ++ h ∷ []
      → parse header_name r (ts ++ rest)
        ≡ parse header_name
            (record r { headers = hs ++ (record h { name = h.name ++ ts }) ∷ [] })
            rest
  unfolding parse consume
  parse-name [] r hs h k e = rw append-nil (ground (arith, e))
  parse-name (c ∷ cs) r hs h k e = ground (
    arith,
    is_no_token-IsToken c,
    IsToken-ne_colon c,
    update_back-concat (push_name c) hs h,
    parse-name cs (record r { headers = hs ++ push_name c h ∷ [] }) hs (push_name c h),
    append_assoc h.name (c ∷ []) cs,
  )

  pub parse-value :
      (ts : Bytes) (r : Request) (hs : List Header) (h : Header)
      → All IsText ts
      → r.headers ≡ hs ++ h ∷ []
      → parse header_value r (ts ++ rest)
        ≡ parse header_value
            (record r { headers = hs ++ (record h { value = h.value ++ ts }) ∷ [] })
            rest
  unfolding parse consume
  parse-value [] r hs h k e = rw append-nil (ground (arith, e))
  parse-value (c ∷ cs) r hs h k e = ground (
    arith,
    is_ctl_char-IsText c,
    update_back-concat (push_value c) hs h,
    parse-value cs (record r { headers = hs ++ push_value c h ∷ [] }) hs (push_value c h),
    append_assoc h.value (c ∷ []) cs,
  )

  pub parse-blanks :
      (bs : Bytes) (r : Request)
      → All IsBlank bs
      → parse header_lws r (bs ++ rest) ≡ parse header_lws r rest
  unfolding parse consume
  parse-blanks [] r h = refl
  parse-blanks (c ∷ cs) r h = ground (arith, parse-blanks cs r)

-- From behind the slash to the end of the request line.
