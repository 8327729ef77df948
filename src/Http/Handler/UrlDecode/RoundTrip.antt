-- ===== src/Http/Handler/UrlDecode/RoundTrip.antt =====
-- Percent-encoding, and the url_decode of src/GUI/RequestHandler.cpp.
use sec_mon.Prelude.{
  ℕ, ◌+◌, ◌*◌, ◌/◌, ◌%◌, ◌<◌, ◌≢◌, ◌⊎◌, inl, inr, sym, ap, ◌∙◌, ◌≡◌, refl, Bool, false, some, [],
  ◌∷◌, ◌++◌, arith, ltb, if◌then◌else◌, All, Bool-cases,
}
use sec_mon.Prelude.Text.{Bytes}
use sec_mon.Http.Handler.UrlDecode.{hex_digit, extract_hex, plain, cons_some, url_decode}

-- A digit as clients write it.
unfoldable pub hex_char : ℕ → ℕ
hex_char n = if ltb n 10 then b'0' + n else 55 + n

-- Each byte that `safe` rejects is written as an escape.
unfoldable pub url_encode : (ℕ → Bool) → Bytes → Bytes
unfolding hex_char
url_encode safe [] = []
url_encode safe (c ∷ cs) =
    (if safe c then c ∷ [] else b'%' ∷ hex_char (c / 16) ∷ hex_char (c % 16) ∷ [])
    ++ url_encode safe cs

pub url_decode-plain :
    (c : ℕ) (cs : Bytes) → c ≢ b'%' → url_decode (c ∷ cs) ≡ cons_some (plain c) (url_decode cs)
unfolding url_decode
url_decode-plain c [] h = ground arith
url_decode-plain c (d ∷ []) h = ground arith
url_decode-plain c (d ∷ e ∷ cs) h = ground arith

hex_digit-hex_char : (n : ℕ) → n < 16 → hex_digit (hex_char n) ≡ some n
unfolding hex_digit hex_char
hex_digit-hex_char n h = ground arith

hex_char_bounds :
    (n : ℕ)
    → n < 16
    → (hex_char n < 9)
      ⊎ (13 < hex_char n)
        × (hex_char n ≢ 32)
        × (hex_char n ≢ b'-')
        × (hex_char n ≢ b'+')
        × (hex_char n ≢ b'x')
        × (hex_char n ≢ b'X')
unfolding hex_char
hex_char_bounds n h =
    inr (ground arith, ground arith, ground arith, ground arith, ground arith, ground arith)

extract_hex-hex_char :
    (a b : ℕ) → a < 16 → b < 16 → extract_hex (hex_char a) (hex_char b) ≡ some (a * 16 + b)
unfolding extract_hex
extract_hex-hex_char a b h k =
    rw (hex_digit-hex_char a h, hex_digit-hex_char b k) (ground (arith, hex_char_bounds a h))

-- Decoding an encoded text of bytes gives the text back, if the encoding escapes `%` and `+`.
pub url_decode-url_encode :
    (safe : ℕ → Bool) (bs : Bytes)
    → safe b'%' ≡ false
    → safe b'+' ≡ false
    → All (λ b. b < 256) bs
    → url_decode (url_encode safe bs) ≡ some bs
unfolding url_encode
url_decode-url_encode safe [] p q h = unfold url_decode in refl
url_decode-url_encode safe (c ∷ cs) p q h = elim (Bool-cases (safe c)) [
  | inl plain_byte ↦
      let np : c ≢ b'%' = λ e. cc (sym plain_byte ∙ ap safe e ∙ p) in
      let nq : c ≢ b'+' = λ e. cc (sym plain_byte ∙ ap safe e ∙ q) in
      rw plain_byte (
        url_decode-plain c (url_encode safe cs) np
        ∙ rw (url_decode-url_encode safe cs p q h.1) (unfold plain in ground arith))
  | inr escaped ↦
      let whole : c / 16 * 16 + c % 16 ≡ c = omega arith in
      rw escaped (
        step (c / 16) (c % 16) (url_encode safe cs) (omega arith) (omega arith)
        ∙ rw (url_decode-url_encode safe cs p q h.1) (ap (λ b. some (b ∷ cs)) whole))
]
  where
    step :
        (a b : ℕ) (rest : Bytes)
        → a < 16
        → b < 16
        → url_decode (b'%' ∷ hex_char a ∷ hex_char b ∷ rest)
          ≡ cons_some (a * 16 + b) (url_decode rest)
    step a b rest h k = unfold url_decode in rw (extract_hex-hex_char a b h k)
