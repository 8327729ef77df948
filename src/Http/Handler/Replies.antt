-- ===== src/Http/Handler/Replies.antt =====
-- What the request handler answers (src/GUI/RequestHandler.cpp) to requests for files and for
-- streams.
use sec_mon.Prelude.{
  ℕ, zero, suc, ◌<◌, ◌≡◌, ap, sym, ◌∙◌, inl, inr, Bool, false, Option, none, some, [], ◌∷◌, ◌++◌,
  append_assoc, append-nil, arith, All, Option-cases, length, take, drop, take-append-drop,
  length-drop,
}
use sec_mon.Prelude.Text.{Bytes, codes, bytes_eq}
use sec_mon.Http.Request.{Request}
use sec_mon.Http.Reply.{Reply, ok, not_found, stock_reply, content_headers}
use sec_mon.Http.MimeTypes.{extension_to_type}
use sec_mon.Stream.Directory.{Directory}
use sec_mon.Http.Handler.UrlDecode.{url_decode}
use sec_mon.Http.Handler.UrlDecode.RoundTrip.{url_encode, url_decode-url_encode}
use sec_mon.Http.Handler.{
  is_refused, ends_in_slash, with_index, extension_of, c_str, read_chunks, send_file, respond,
  handle_request,
}

-- The loop reads the whole file.
read_chunks_lem :
    (fuel : ℕ) (unread content : Bytes)
    → length unread < fuel
    → read_chunks fuel unread content ≡ content ++ unread
unfolding read_chunks
read_chunks_lem zero unread content h = absurd (omega arith)
read_chunks_lem (suc fuel) [] content h = sym (append-nil content)
read_chunks_lem (suc fuel) (c ∷ cs) content h =
    read_chunks_lem fuel (drop 512 (c ∷ cs)) (content ++ take 512 (c ∷ cs))
      (omega (arith, length-drop 512 (c ∷ cs)))
    ∙ append_assoc content (take 512 (c ∷ cs)) (drop 512 (c ∷ cs))
    ∙ ap (◌++◌ content) (take-append-drop 512 (c ∷ cs))

-- The reply with a file.
abbrev pub file_reply : Bytes → Bytes → Reply
file_reply file extension = record {
  status = ok;
  headers = content_headers file (extension_to_type extension);
  content = file;
}

module _ (open_file : Bytes → Option Bytes) (root : Bytes) where
  -- A path that is absolute, has no two dots in a row, names no stream and does not end in a slash is
  -- answered, if the client percent-encodes it and the reply has no content yet, by the file behind it:
  -- the whole content, its size and the type of its extension. If the file cannot be opened, the answer
  -- is the stock reply 404.
  pub handle_request_file :
      (safe : ℕ → Bool) (d : Directory) (req : Request) (rep : Reply) (conn : ℕ) (path : Bytes)
      → safe b'%' ≡ false
      → safe b'+' ≡ false
      → All (λ b. b < 256) path
      → req.uri ≡ url_encode safe path
      → is_refused path ≡ false
      → ends_in_slash path ≡ false
      → bytes_eq (extension_of path) (codes "mjpeg") ≡ false
      → rep.content ≡ []
      → (handle_request open_file root d req rep conn ≡ record {
        directory = d;
        reply = elim (open_file (c_str (root ++ path))) [
          | none ↦ stock_reply not_found
          | some file ↦ file_reply file (extension_of path)
        ];
        is_stream = false;
      })
  unfolding handle_request respond send_file with_index
  handle_request_file safe d req rep conn path p q bytes uri good page no_stream fresh =
      let decoded : url_decode req.uri ≡ some path =
        ap url_decode uri ∙ url_decode-url_encode safe path p q bytes in
      rw (decoded, handle_request)
        (elim (Option-cases (open_file (c_str (root ++ path)))) [
          | inl e ↦ ground arith
          | inr (file, e) ↦ ground (arith, read_chunks_lem (suc (length file)) file rep.content)
        ])
