-- ===== src/Examples/Requests.antt =====
-- Tests: requests that are parsed and handled (src/GUI/RequestParser.cpp, src/GUI/RequestHandler.cpp).
use sec_mon.Prelude.{
  ℕ, ◌≡◌, ap, sym, ◌∙◌, refl, ◌↔◌, inl, inr, Bool, false, Option, none, some, [], ◌∷◌, arith,
  if◌then◌else◌, ◌==◌, Bool-cases, not,
}
use sec_mon.Prelude.Text.{Bytes, codes, bytes_eq, bytes_eq_iff, find_last_of, decimal, concat}
use sec_mon.Http.Request.{Request, empty_request}
use sec_mon.Http.Parser.{is_tspecial, expecting_newline_3, parse, reset}
use sec_mon.Http.Parser.Grammar.{Spelling, IsSpelling, spell, meaning}
use sec_mon.Http.Parser.Complete.{accepted}
use sec_mon.Http.Parser.Sound.{parse_iff_spell}
use sec_mon.Http.Parser.Chunks.{parse-spelling_of, spelling_of, spelling_of-IsSpelling, IsRequest}
use sec_mon.Http.Reply.{to_buffers}
use sec_mon.Http.Handler.{handle_request, is_refused, has_dots, ends_in_slash, extension_of, c_str}
use sec_mon.Http.Handler.UrlDecode.{url_decode}
use sec_mon.Http.Handler.UrlDecode.RoundTrip.{url_encode, url_decode-url_encode}
use sec_mon.Http.Handler.Paths.{handle_request-IsUnder, IsUnder}
use sec_mon.Http.Handler.Replies.{handle_request_file, file_reply}
use sec_mon.Http.Connection.{streaming, writing, start, handle_read, empty_reply}
use sec_mon.Http.Connection.Reads.{feed, feed-concat, feed-spell}
use sec_mon.Stream.Directory.{new_directory}

abbrev pub get_request : Request
get_request = record {
  method = codes "GET";
  uri = codes "/a";
  http_version_major = 1;
  http_version_minor = 0;
  headers = (record { name = codes "Host"; value = codes "cam" }) ∷ [];
}

get_request-IsRequest : IsRequest get_request
unfolding is_tspecial
get_request-IsRequest = record {
  method_tokens = ground arith;
  uri_bytes = ground arith;
  major_bound = omega arith;
  minor_bound = omega arith;
  headers_fit = ground arith;
}

parse-spelling_of_example :
    parse reset empty_request (spell (spelling_of get_request) (codes "rest"))
    ≡ accepted get_request (codes "rest")
parse-spelling_of_example = parse-spelling_of get_request (codes "rest") get_request-IsRequest

parse_iff_spell_example :
    (parse reset empty_request (codes "GET /a HTTP/1.0\r\n\r\n") ≡ accepted get_request []) ↔ (
      (p : Spelling) × IsSpelling p
      × (codes "GET /a HTTP/1.0\r\n\r\n" ≡ spell p [])
      × (get_request ≡ meaning p))
parse_iff_spell_example = parse_iff_spell get_request [] (codes "GET /a HTTP/1.0\r\n\r\n")

-- A file system with one page, and one that has a file of the system as well.
abbrev pub page : Bytes → Option Bytes
page name = if bytes_eq name (codes "/srv/a") then some (codes "hello") else none

abbrev more_files : Bytes → Option Bytes
more_files name = if bytes_eq name (codes "/etc/p") then some (codes "root") else page name

abbrev pub home : Bytes
home = codes "/srv"

abbrev second_byte : Bytes → ℕ
second_byte l = elim l [ [] ↦ 0 | c ∷ cs ↦ elim cs [ [] ↦ 0 | d ∷ ds ↦ d ] ]

same_below : (name : Bytes) → IsUnder home name → page name ≡ more_files name
same_below name u = elim (Bool-cases (bytes_eq name (codes "/etc/p"))) [
  | inl e ↦
      let outside = (bytes_eq_iff name (codes "/etc/p")).0 e in
      let second : b'e' ≡ b's' = ap second_byte (sym outside ∙ u.splits) in
      absurd (omega (arith, second))
  | inr e ↦ rw e refl
]

handle_request-IsUnder_example :
    handle_request page home new_directory get_request empty_reply 1
    ≡ handle_request more_files home new_directory get_request empty_reply 1
handle_request-IsUnder_example =
    handle_request-IsUnder page more_files home (ground arith) same_below new_directory get_request
      empty_reply 1

feed-concat_example :
    feed page home
      (record { connection = start 1; directory = new_directory })
      (codes "GE" ∷ codes "T /a" ∷ [])
    ≡ handle_read page home false
        (codes "GET /a")
        (record { connection = start 1; directory = new_directory })
unfolding concat
feed-concat_example =
    feed-concat page home (record { connection = start 1; directory = new_directory })
      (codes "GE" ∷ codes "T /a" ∷ []) refl

feed-spell_example :
    let h =
      handle_request page home new_directory (meaning (spelling_of get_request)) empty_reply 1 in
    feed page home
      (record { connection = start 1; directory = new_directory })
      (codes "GET /a HT" ∷ codes "TP/1.0\r\nHost: cam\r\n\r\n" ∷ [])
    ≡ record {
      connection = record {
        number = 1;
        request_parser = expecting_newline_3;
        request = meaning (spelling_of get_request);
        reply = h.reply;
        activity = if h.is_stream then streaming else writing (to_buffers h.reply);
      };
      directory = h.directory;
    }
unfolding concat decimal
feed-spell_example =
    feed-spell page home new_directory 1 (spelling_of get_request) []
      (codes "GET /a HT" ∷ codes "TP/1.0\r\nHost: cam\r\n\r\n" ∷ [])
      (spelling_of-IsSpelling get_request get_request-IsRequest) refl

-- The client escapes the last byte of the path.
abbrev safe : ℕ → Bool
safe c = if c == b'a' then false else if c == b'%' then false else not (c == b'+')

handle_request_file_example :
    handle_request page home new_directory (record get_request { uri = codes "/%61" }) empty_reply 1
    ≡ record { directory = new_directory; reply = file_reply (codes "hello") []; is_stream = false }
unfolding is_refused has_dots ends_in_slash extension_of c_str url_encode find_last_of bytes_eq
handle_request_file_example =
    handle_request_file page home safe new_directory (record get_request { uri = codes "/%61" })
      empty_reply 1 (codes "/a") refl refl (ground arith) refl refl refl refl refl

url_decode-url_encode_example : url_decode (url_encode safe (codes "/a")) ≡ some (codes "/a")
url_decode-url_encode_example = url_decode-url_encode safe (codes "/a") refl refl (ground arith)
