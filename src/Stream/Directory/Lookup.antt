-- ===== src/Stream/Directory/Lookup.antt =====
-- Which stream a request path names (src/GUI/StreamDirectory.cpp).
use sec_mon.Prelude.{
  ℕ, suc, ◌+◌, ◌-◌, ◌*◌, ◌^◌, ◌<◌, ◌≡◌, ◌≢◌, refl, ap, sym, subst, ◌∙◌, none, some, [], ◌∷◌, ◌++◌,
  take, length, All, arith,
}
use sec_mon.Prelude.Int.{pos}
use sec_mon.Prelude.Text.{
  Bytes, codes, IsDigit, decimal, decimal-IsDigit, decimal-cons, value_onto, value_onto-decimal,
  find_last_of-append,
}
use sec_mon.Stream.Directory.{
  Directory, skip_spaces, read_digits, read_int, stoi, register, filename, handle_valid_stream,
}

take-append_two :
    (ds : Bytes) (c e : ℕ) (cs : Bytes)
    → take (suc (suc (length ds))) (ds ++ c ∷ e ∷ cs) ≡ ds ++ c ∷ e ∷ []
take-append_two [] c e cs = refl
take-append_two (d ∷ ds) c e cs = ap (◌∷◌ d) (take-append_two ds c e cs)

read_digits-append :
    (ds : Bytes) (v c : ℕ) (cs : Bytes)
    → All IsDigit ds
    → ¬ IsDigit c
    → read_digits (some v) (ds ++ c ∷ cs) ≡ some (value_onto v ds)
unfolding read_digits value_onto
read_digits-append [] v c cs h n = ground arith
read_digits-append (d ∷ ds) v c cs h n =
    ground (arith, read_digits-append ds (v * 10 + (d - 48)) c cs h.1 n)

-- The text that `stoi` gets is the number, the dot and one byte of the extension.
stoi-digits :
    (d : ℕ) (ds cs : Bytes)
    → IsDigit d
    → All IsDigit ds
    → value_onto 0 (d ∷ ds) < 2 ^ 31
    → stoi (d ∷ (ds ++ b'.' ∷ cs)) ≡ some (pos (value_onto 0 (d ∷ ds)))
unfolding stoi skip_spaces read_int value_onto
stoi-digits d ds cs h k b =
    ground (arith, read_first, read_digits-append ds (0 * 10 + (d - 48)) b'.' cs k)
  where
    read_first :
        read_digits none (d ∷ (ds ++ b'.' ∷ cs))
        ≡ read_digits (some (0 * 10 + (d - 48))) (ds ++ b'.' ∷ cs)
    read_first = unfold read_digits in ground arith

filename-dot :
    (ds ext : Bytes) (e : ℕ)
    → filename (b'/' ∷ (ds ++ b'.' ∷ e ∷ ext)) (suc (length ds)) ≡ ds ++ b'.' ∷ e ∷ []
filename-dot ds ext e =
    subst (λ n. take n (ds ++ b'.' ∷ e ∷ ext) ≡ ds ++ b'.' ∷ e ∷ []) two
      (take-append_two ds b'.' e ext)
  where
    two : suc (suc (length ds)) ≡ suc (length ds) + 1
    two = omega arith

IsDigit-ne_dot : (ds : Bytes) → All IsDigit ds → All (λ b. b ≢ b'.') ds
IsDigit-ne_dot [] h = tt
IsDigit-ne_dot (d ∷ ds) h = (ground arith, IsDigit-ne_dot ds h.1)

-- The path of stream `k`.
abbrev pub stream_path : ℕ → Bytes
stream_path k = b'/' ∷ (decimal k ++ codes ".mjpeg")

-- The path of a stream number leads to the entry of that number.
handle_valid_stream-digits :
    (dir : Directory) (d : ℕ) (ds : Bytes) (conn : ℕ)
    → IsDigit d
    → All IsDigit ds
    → value_onto 0 (d ∷ ds) < 2 ^ 31
    → handle_valid_stream dir (b'/' ∷ d ∷ (ds ++ codes ".mjpeg")) conn
      ≡ register dir conn (some (pos (value_onto 0 (d ∷ ds))))
unfolding handle_valid_stream
handle_valid_stream-digits dir d ds conn h k b = rw (
  handle_valid_stream,
  find_last_of-append b'.' (b'/' ∷ d ∷ ds) (codes "mjpeg") (omega arith),
  filename-dot (d ∷ ds) (codes "jpeg") b'm',
  stoi-digits d ds (b'm' ∷ []) h k b,
)

pub handle_valid_stream-stream_path :
    (dir : Directory) (k conn : ℕ)
    → k < 2 ^ 31
    → handle_valid_stream dir (stream_path k) conn ≡ register dir conn (some (pos k))
handle_valid_stream-stream_path dir k conn b =
    let (d, ds, e) = decimal-cons k in
    let v : value_onto 0 (d ∷ ds) ≡ k = sym (ap (value_onto 0) e) ∙ value_onto-decimal k in
    let h : All IsDigit (d ∷ ds) = rw e at (decimal-IsDigit k) in
    rw e (handle_valid_stream-digits dir d ds conn h.0 h.1 (omega (arith, v)) ∙ rw v)
