-- ===== src/Http/Handler/StreamRequests.antt =====
-- A request for `/k.mjpeg`, from the request line to the stream (src/GUI/RequestHandler.cpp and
-- src/GUI/StreamDirectory.cpp).
use sec_mon.Prelude.{
  ℕ, suc, ◌+◌, ◌^◌, ◌<◌, ◌≤◌, ◌≡◌, ◌≢◌, ◌⊎◌, refl, ap, subst, ◌∙◌, inl, inr, true, false, Option,
  some, [], ◌∷◌, ◌++◌, arith, ◌==◌, ◌&&◌, leb, ltb, if◌then◌else◌, All, All-append, Bool-cases,
  length, drop,
}
use sec_mon.Prelude.Text.{
  Bytes, codes, bytes_eq_refl, IsDigit, decimal, decimal-IsDigit, find_last_of-append,
}
use sec_mon.Http.Request.{Request}
use sec_mon.Http.Reply.{Reply, not_found, stock_reply}
use sec_mon.Stream.{Stream, register_new_connection}
use sec_mon.Stream.Directory.{Directory, find}
use sec_mon.Stream.Directory.Lookup.{stream_path}
use sec_mon.Stream.Directory.Numbers.{
  IsDirectory, handle_valid_stream_served, handle_valid_stream_refused,
}
use sec_mon.Http.Handler.UrlDecode.{url_decode, plain}
use sec_mon.Http.Handler.UrlDecode.RoundTrip.{url_decode-plain}
use sec_mon.Http.Handler.{
  has_dots, is_refused, ends_in_slash, with_index, extension_of, Handled, send_stream, respond,
  handle_request,
}

abbrev IsClean : ℕ → Type 0
IsClean c = (c ≢ b'%') × (c ≢ b'+') × (c ≢ b'/')

url_decode_clean : (bs : Bytes) → All (λ c. (c ≢ b'%') × (c ≢ b'+')) bs → url_decode bs ≡ some bs
url_decode_clean [] h = unfold url_decode in refl
url_decode_clean (c ∷ cs) h =
    url_decode-plain c cs h.0.0 ∙ rw (url_decode_clean cs h.1) (unfold plain in ground arith)

has_dots-digits :
    (c : ℕ) (ds : Bytes) → c ≢ b'.' → All IsDigit ds → has_dots (c ∷ (ds ++ codes ".mjpeg")) ≡ false
unfolding has_dots
has_dots-digits c [] n h = ground arith
has_dots-digits c (d ∷ ds) n h = ground (arith, has_dots-digits d ds)

ends_in_slash-mjpeg : (c : ℕ) (bs : Bytes) → ends_in_slash (c ∷ (bs ++ codes ".mjpeg")) ≡ false
unfolding ends_in_slash
ends_in_slash-mjpeg c [] = refl
ends_in_slash-mjpeg c (b ∷ bs) = ends_in_slash-mjpeg b bs

drop-append : (bs : Bytes) (c : ℕ) (cs : Bytes) → drop (suc (length bs)) (bs ++ c ∷ cs) ≡ cs
drop-append [] c cs = refl
drop-append (b ∷ bs) c cs = drop-append bs c cs

IsClean-digits : (ds : Bytes) → All IsDigit ds → All IsClean ds
IsClean-digits [] h = tt
IsClean-digits (d ∷ ds) h = ((ground arith, ground arith, ground arith), IsClean-digits ds h.1)

All-map : {P Q : ℕ → Type 0} (bs : Bytes) → ((c : ℕ) → P c → Q c) → All P bs → All Q bs
All-map [] f h = tt
All-map (b ∷ bs) f h = (f b h.0, All-map bs f h.1)

module _ (ds : Bytes) (digits : All IsDigit ds) where
  IsClean-path : All IsClean (ds ++ codes ".mjpeg")
  IsClean-path = All-append IsClean ds (codes ".mjpeg") (IsClean-digits ds digits) (omega arith)

  url_decode-digits :
      url_decode (b'/' ∷ (ds ++ codes ".mjpeg")) ≡ some (b'/' ∷ (ds ++ codes ".mjpeg"))
  url_decode-digits =
      url_decode_clean _ ((omega arith, omega arith), All-map _ (λ c h. (h.0, h.1)) IsClean-path)

  extension_of-digits : extension_of (b'/' ∷ (ds ++ codes ".mjpeg")) ≡ codes "mjpeg"
  unfolding extension_of
  extension_of-digits =
      rw
        (
          extension_of,
          find_last_of-append b'.' (b'/' ∷ ds) (codes "mjpeg") (omega arith),
          find_last_of-append b'/' [] (ds ++ codes ".mjpeg") (All-map _ (λ c h. h.2) IsClean-path),
        )
        (subst
          (λ n.
            (if ltb 0 (suc (length ds)) then drop n (b'/' ∷ (ds ++ codes ".mjpeg")) else [])
            ≡ codes "mjpeg")
          two (ground (arith, drop-append ds b'.' (codes "mjpeg"))))
    where
      two : suc (suc (length ds)) ≡ suc (length ds) + 1
      two = omega arith

-- Stream `k` takes over the connection.
pub record IsServed (d : Directory) (rep : Reply) (conn k : ℕ) (h : Handled) : Type 0 where
  pub known : (1 ≤ k) × (k ≤ d.stream_id)
  pub taken : h.is_stream ≡ true
  pub no_reply : h.reply ≡ rep
  pub stream : Stream
  pub found : find k d.stream_list ≡ some stream
  pub registered :
      (i : ℕ)
      → find i h.directory.stream_list
        ≡ (if i == k then some (register_new_connection stream conn) else find i d.stream_list)

-- No stream has the number `k`.
pub record IsUnknown (d : Directory) (k : ℕ) (h : Handled) : Type 0 where
  pub unknown : (k ≡ 0) ⊎ (d.stream_id < k)
  pub not_taken : h.is_stream ≡ false
  pub refused : h.reply ≡ stock_reply not_found
  pub unchanged : h.directory ≡ d

send_stream_outcome :
    (d : Directory) (rep : Reply) (conn k : ℕ)
    → IsDirectory d
    → k < 2 ^ 31
    → IsServed d rep conn k (send_stream d (stream_path k) rep conn)
      ⊎ IsUnknown d k (send_stream d (stream_path k) rep conn)
unfolding send_stream
send_stream_outcome d rep conn k h b = elim (Bool-cases (leb 1 k && leb k d.stream_id)) [
  | inl known ↦
      let (s, e, _, (taken, _, r)) =
        handle_valid_stream_served d k conn h (ground arith) (ground arith) b in
      inl (record {
        known = (ground arith, ground arith);
        taken = taken;
        no_reply = rw taken refl;
        stream = s;
        found = e;
        registered = r;
      })
  | inr unknown ↦
      let gone : (k ≡ 0) ⊎ (d.stream_id < k) = ground arith in
      let same = handle_valid_stream_refused d k conn h gone b in
      inr (record {
        unknown = gone;
        not_taken = rw same refl;
        refused = rw same refl;
        unchanged = rw same refl;
      })
]

module _ (open_file : Bytes → Option Bytes) (root : Bytes) where
  -- The path of a stream number goes to the stream directory as it stands.
  handle_request-stream_path :
      (d : Directory) (req : Request) (rep : Reply) (conn k : ℕ)
      → req.uri ≡ stream_path k
      → handle_request open_file root d req rep conn ≡ send_stream d (stream_path k) rep conn
  unfolding handle_request respond with_index is_refused
  handle_request-stream_path d req rep conn k uri =
      let ds : Bytes = decimal k in
      let h : All IsDigit ds = decimal-IsDigit k in
      let decoded : url_decode req.uri ≡ some (stream_path k) =
        ap url_decode uri ∙ url_decode-digits ds h in
      rw (decoded, handle_request)
        (ground (
          arith,
          has_dots-digits b'/' ds (omega arith) h,
          ends_in_slash-mjpeg b'/' ds,
          extension_of-digits ds h,
          bytes_eq_refl (codes "mjpeg"),
        ))

  -- With a directory that has its streams numbered from 1, a request for the number of a stream is taken
  -- over by that stream, and no reply is written. A request for any other `int` that is not negative gets
  -- the stock reply 404, and the directory stays as it was.
  pub handle_request_stream :
      (d : Directory) (req : Request) (rep : Reply) (conn k : ℕ)
      → IsDirectory d
      → k < 2 ^ 31
      → req.uri ≡ stream_path k
      → IsServed d rep conn k (handle_request open_file root d req rep conn)
        ⊎ IsUnknown d k (handle_request open_file root d req rep conn)
  handle_request_stream d req rep conn k h b uri =
      rw (handle_request-stream_path d req rep conn k uri) (send_stream_outcome d rep conn k h b)
