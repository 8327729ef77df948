-- ===== src/Http/Handler.antt =====
-- src/GUI/RequestHandler.cpp: from a request to a reply, or to a stream. The file system is a
-- parameter: what an opened file holds, and `none` where it cannot be opened.
pub mod UrlDecode
pub mod Paths
pub mod Replies
pub mod StreamRequests
use sec_mon.Prelude.{
  ℕ, zero, suc, ◌+◌, Bool, true, false, not, ◌&&◌, ◌||◌, Option, none, some, List, [], ◌∷◌, ◌++◌,
  ◌==◌, ltb, if◌then◌else◌, length, take, drop,
}
use sec_mon.Prelude.Text.{Bytes, codes, bytes_eq, find_last_of}
use sec_mon.Http.Request.{Request}
use sec_mon.Http.Reply.{Reply, ok, bad_request, not_found, stock_reply, content_headers}
use sec_mon.Http.MimeTypes.{extension_to_type}
use sec_mon.Stream.Directory.{Directory, handle_valid_stream}
use UrlDecode.{url_decode}

-- `request_path.find("..") != npos`.
unfoldable pub has_dots : Bytes → Bool
has_dots [] = false
has_dots (a ∷ []) = false
has_dots (a ∷ b ∷ cs) = (a == b'.' && b == b'.') || has_dots (b ∷ cs)

-- The test for a path that is empty, not absolute, or with `..` in it.
unfoldable pub is_refused : Bytes → Bool
is_refused [] = true
is_refused (c ∷ cs) = not (c == b'/') || has_dots (c ∷ cs)

unfoldable pub ends_in_slash : Bytes → Bool
ends_in_slash [] = false
ends_in_slash (c ∷ []) = c == b'/'
ends_in_slash (c ∷ d ∷ cs) = ends_in_slash (d ∷ cs)

unfoldable pub with_index : Bytes → Bytes
with_index path = if ends_in_slash path then path ++ codes "index.html" else path

-- What stands behind the last dot, if no slash does.
unfoldable pub extension_of : Bytes → Bytes
extension_of path = elim (find_last_of b'.' path) [
  | none ↦ []
  | some dot ↦ elim (find_last_of b'/' path) [
    | none ↦ []
    | some slash ↦ if ltb slash dot then drop (dot + 1) path else []
  ]
]

-- The bytes of a string up to the first NUL: what a file name passed by `c_str()` is.
unfoldable pub c_str : Bytes → Bytes
c_str [] = []
c_str (c ∷ cs) = if c == 0 then [] else c ∷ c_str cs

-- `while (is.read(buf, 512).gcount() > 0) content.append(buf, is.gcount())`.
unfoldable pub read_chunks : ℕ → Bytes → Bytes → Bytes
read_chunks zero unread content = content
read_chunks (suc fuel) unread content = elim (take 512 unread) [
  | [] ↦ content
  | c ∷ cs ↦ read_chunks fuel (drop 512 unread) (content ++ c ∷ cs)
]

-- What `handle_request` changes and returns.
pub record Handled : Type 0 where
  pub directory : Directory
  pub reply : Reply
  pub is_stream : Bool

-- A request for a stream.
unfoldable pub send_stream : Directory → Bytes → Reply → ℕ → Handled
send_stream d path rep conn =
    let (d', found) = handle_valid_stream d path conn in
    record {
      directory = d';
      reply = if found then rep else stock_reply not_found;
      is_stream = found;
    }

abbrev refuse_request : Directory → Handled
refuse_request d = record { directory = d; reply = stock_reply bad_request; is_stream = false }

module _ (open_file : Bytes → Option Bytes) (doc_root : Bytes) where
  -- The part behind the test on the extension: a file is sent.
  unfoldable pub send_file : Bytes → Bytes → Reply → Reply
  send_file path extension rep = elim (open_file (c_str (doc_root ++ path))) [
    | none ↦ stock_reply not_found
    | some file ↦
        let content = read_chunks (suc (length file)) file rep.content in
        record {
          status = ok;
          headers = content_headers content (extension_to_type extension);
          content = content;
        }
  ]

  -- A path that passed the tests.
  unfoldable pub respond : Directory → Bytes → Reply → ℕ → Handled
  respond d path rep conn =
      let extension = extension_of path in
      if bytes_eq extension (codes "mjpeg")
      then send_stream d path rep conn
      else record { directory = d; reply = send_file path extension rep; is_stream = false }

  unfoldable pub handle_request : Directory → Request → Reply → ℕ → Handled
  handle_request d req rep conn = elim (url_decode req.uri) [
    | none ↦ refuse_request d
    | some path ↦ if is_refused path then refuse_request d else respond d (with_index path) rep conn
  ]
