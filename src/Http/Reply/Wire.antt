-- ===== src/Http/Reply/Wire.antt =====
-- What a client reads from the buffers of a reply (src/GUI/Reply.cpp): a reader of responses, written
-- independently of the code.
use sec_mon.Prelude.{
  ℕ, zero, suc, ◌<◌, ◌≤◌, ◌≡◌, ◌≢◌, refl, ap, ◌∙◌, some, List, [], ◌∷◌, ◌++◌, append_assoc,
  append-nil, arith, All, length, length-append,
}
use sec_mon.Prelude.Text.{
  Bytes, codes, crlf, concat, decimal, decimal-IsDigit, IsDigit, value_onto, value_onto-decimal,
}
use sec_mon.Http.Request.{Header}
use sec_mon.Http.Reply.{
  Status, ok, created, accepted, no_content, multiple_choices, moved_permanently, moved_temporarily,
  not_modified, bad_request, unauthorized, forbidden, not_found, internal_server_error,
  not_implemented, bad_gateway, service_unavailable, status_code, to_buffer, to_string, Reply,
  header_buffers, to_buffers, content_headers, stock_reply,
}
use sec_mon.Http.Reply.Reader.{
  read_line, read_field, Response, prepend_field, read_fields, read_code, read_response,
  read_response-line,
}

-- Headers that can be told apart on the wire.
abbrev pub IsField : Header → Type 0
IsField h = (h.name ≢ []) × All (λ c. (c ≢ b':') × (c ≢ 13)) h.name × All (λ c. c ≢ 13) h.value

read_line-crlf :
    (t rest : Bytes) → All (λ c. c ≢ 13) t → read_line (t ++ 13 ∷ 10 ∷ rest) ≡ some (t, rest)
unfolding read_line
read_line-crlf [] rest h = refl
read_line-crlf (c ∷ []) rest h = ground arith
read_line-crlf (c ∷ d ∷ t) rest h = ground (arith, read_line-crlf (d ∷ t) rest h.1)

read_field-colon :
    (n v : Bytes)
    → All (λ c. (c ≢ b':') × (c ≢ 13)) n
    → read_field (n ++ b':' ∷ 32 ∷ v) ≡ some (record { name = n; value = v })
unfolding read_field
read_field-colon [] v h = refl
read_field-colon (c ∷ cs) v h = ground (arith, read_field-colon cs v h.1)

-- The bytes of a header line.
abbrev line_of : Header → Bytes
line_of h = h.name ++ b':' ∷ 32 ∷ h.value

no_cr :
    (n v : Bytes)
    → All (λ c. (c ≢ b':') × (c ≢ 13)) n
    → All (λ c. c ≢ 13) v
    → All (λ c. c ≢ 13) (n ++ b':' ∷ 32 ∷ v)
no_cr [] v h k = (omega arith, (omega arith, k))
no_cr (c ∷ cs) v h k = (h.0.1, no_cr cs v h.1 k)

header_buffers-cons :
    (h : Header) (hs : List Header) (content : Bytes)
    → concat (header_buffers (h ∷ hs) content)
      ≡ line_of h ++ 13 ∷ 10 ∷ concat (header_buffers hs content)
unfolding concat header_buffers
header_buffers-cons h hs content = simp append_assoc

read_fields-line :
    (fuel : ℕ) (n v rest : Bytes)
    → IsField (record { name = n; value = v })
    → read_fields (suc fuel) (n ++ b':' ∷ 32 ∷ v ++ 13 ∷ 10 ∷ rest)
      ≡ prepend_field (some (record { name = n; value = v })) (read_fields fuel rest)
unfolding read_fields
read_fields-line fuel [] v rest h = absurd (h.0 refl)
read_fields-line fuel (c ∷ cs) v rest h = ground (
  arith,
  read_line-crlf (c ∷ (cs ++ b':' ∷ 32 ∷ v)) rest (no_cr (c ∷ cs) v h.1 h.2),
  read_field-colon (c ∷ cs) v h.1,
)

read_fields-header_buffers :
    (fuel : ℕ) (hs : List Header) (content : Bytes)
    → length hs < fuel
    → All IsField hs
    → read_fields fuel (concat (header_buffers hs content)) ≡ some (hs, content)
read_fields-header_buffers zero hs content b h = absurd (omega arith)
read_fields-header_buffers (suc fuel) [] content b h =
    unfold read_fields read_line concat header_buffers in rw append-nil
read_fields-header_buffers (suc fuel) (h ∷ hs) content b (f, fs) =
    rw (header_buffers-cons h hs content) (
      read_fields-line fuel h.name h.value (concat (header_buffers hs content)) f
      ∙ ap (prepend_field (some h)) (read_fields-header_buffers fuel hs content (omega arith) fs))

-- Each status line ends in CRLF, holds no CR before that, and has the status code in its place.
abbrev IsStatusLine : Status → Bytes → Type 0
IsStatusLine s line =
    (to_buffer s ≡ line ++ crlf) × All (λ c. c ≢ 13) line × (read_code line ≡ status_code s)

status_line : (s : Status) → (line : Bytes) × IsStatusLine s line
unfolding to_buffer status_code value_onto
status_line ok = (codes "HTTP/1.0 200 OK", (refl, omega arith, refl))
status_line created = (codes "HTTP/1.0 201 Created", (refl, omega arith, refl))
status_line accepted = (codes "HTTP/1.0 202 Accepted", (refl, omega arith, refl))
status_line no_content = (codes "HTTP/1.0 204 No Content", (refl, omega arith, refl))
status_line multiple_choices = (codes "HTTP/1.0 300 Multiple Choices", (refl, omega arith, refl))
status_line moved_permanently = (codes "HTTP/1.0 301 Moved Permanently", (refl, omega arith, refl))
status_line moved_temporarily = (codes "HTTP/1.0 302 Moved Temporarily", (refl, omega arith, refl))
status_line not_modified = (codes "HTTP/1.0 304 Not Modified", (refl, omega arith, refl))
status_line bad_request = (codes "HTTP/1.0 400 Bad Request", (refl, omega arith, refl))
status_line unauthorized = (codes "HTTP/1.0 401 Unauthorized", (refl, omega arith, refl))
status_line forbidden = (codes "HTTP/1.0 403 Forbidden", (refl, omega arith, refl))
status_line not_found = (codes "HTTP/1.0 404 Not Found", (refl, omega arith, refl))
status_line internal_server_error =
    (codes "HTTP/1.0 500 Internal Server Error", (refl, omega arith, refl))
status_line not_implemented = (codes "HTTP/1.0 501 Not Implemented", (refl, omega arith, refl))
status_line bad_gateway = (codes "HTTP/1.0 502 Bad Gateway", (refl, omega arith, refl))
status_line service_unavailable =
    (codes "HTTP/1.0 503 Service Unavailable", (refl, omega arith, refl))

length-header_buffers :
    (hs : List Header) (content : Bytes) → length hs ≤ length (concat (header_buffers hs content))
length-header_buffers [] content = omega arith
length-header_buffers (h ∷ hs) content = omega (
  arith,
  ap length (header_buffers-cons h hs content),
  length-append (line_of h) (13 ∷ 10 ∷ concat (header_buffers hs content)),
  length-header_buffers hs content,
)

-- A reader gets back from the buffers of a reply its status code, its headers and its content, if no
-- header name is empty or has a colon in it, and no header has a CR in it.
pub read_response-to_buffers :
    (r : Reply)
    → All IsField r.headers
    → read_response (concat (to_buffers r))
      ≡ some (record { code = status_code r.status; fields = r.headers; body = r.content })
unfolding to_buffers concat
read_response-to_buffers r h =
    let (line, (e, clean, code)) = status_line r.status in
    let rest : Bytes = concat (header_buffers r.headers r.content) in
    let start : to_buffer r.status ++ rest ≡ line ++ 13 ∷ 10 ∷ rest =
      ap (λ b. b ++ rest) e ∙ append_assoc line crlf rest in
    let fuel : length r.headers < length (line ++ 13 ∷ 10 ∷ rest) =
      omega
        (arith, length-append line (13 ∷ 10 ∷ rest), length-header_buffers r.headers r.content) in
    rw start (
      read_response-line (line ++ 13 ∷ 10 ∷ rest) line rest (read_line-crlf line rest clean)
      ∙ rw (read_fields-header_buffers _ r.headers r.content fuel h, code))

-- The two headers of a reply with a content, on the wire: the size that they announce is the content's.
pub content_headers-IsField :
    (content type : Bytes) → All (λ c. c ≢ 13) type → All IsField (content_headers content type)
content_headers-IsField content type h = (
  ((λ e. cc), omega arith, digits (decimal (length content)) (decimal-IsDigit (length content))),
  (((λ e. cc), omega arith, h), tt),
)
  where
    digits : (ds : Bytes) → All IsDigit ds → All (λ c. c ≢ 13) ds
    digits [] k = tt
    digits (d ∷ ds) k = (omega arith, digits ds k.1)

-- A reader of a stock reply gets the code of its status, a page, and a `Content-Length` that is the
-- page's true size.
pub read_response-stock_reply :
    (s : Status)
    → (r : Response) × (read_response (concat (to_buffers (stock_reply s))) ≡ some r)
      × (r.code ≡ status_code s)
      × (r.body ≡ to_string s)
      × (ls : Bytes) × (types : Header) × (r.fields
          ≡ (record { name = codes "Content-Length"; value = ls }) ∷ types ∷ [])
      × (value_onto 0 ls ≡ length r.body)
unfolding stock_reply
read_response-stock_reply s = (
  record { code = status_code s; fields = (stock_reply s).headers; body = to_string s },
  read_response-to_buffers (stock_reply s)
      (content_headers-IsField (to_string s) (codes "text/html") (omega arith)),
  refl,
  refl,
  decimal (length (to_string s)),
  record { name = codes "Content-Type"; value = codes "text/html" },
  refl,
  value_onto-decimal (length (to_string s)),
)
