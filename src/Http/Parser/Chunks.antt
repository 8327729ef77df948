-- ===== src/Http/Parser/Chunks.antt =====
-- A request that arrives in pieces: src/GUI/Connection.cpp calls `parse` once for each piece read.
use sec_mon.Prelude.{
  ℕ, ◌^◌, ◌<◌, ◌≡◌, refl, ap, sym, ◌∙◌, List, [], ◌∷◌, ◌++◌, arith, All, map, append_assoc,
  append-nil,
}
use sec_mon.Prelude.Text.{
  Bytes, IsDigit, decimal, decimal-cons, decimal-IsDigit, value_onto-decimal,
}
use sec_mon.Http.Request.{Header, Request, empty_request}
use sec_mon.Http.Parser.{State, is_true, is_false, indeterminate, Parsed, consume, parse, reset}
use sec_mon.Http.Parser.Grammar.{
  IsToken, IsText, IsUriByte, AllSome, Line, field, store_all, AllLines, Spelling, IsSpelling,
  spell, meaning,
}
use sec_mon.Http.Parser.Complete.{accepted, parse-spell}

-- A run is taken up again while its result is open. Otherwise the new input stays unread.
abbrev pub resume : Parsed → Bytes → Parsed
resume p ys = elim p.outcome.result [
  | indeterminate ↦ parse p.outcome.state p.outcome.request ys
  | is_true ↦ record p { rest = p.rest ++ ys }
  | is_false ↦ record p { rest = p.rest ++ ys }
]

-- From every state and with every request so far, parsing an input in two pieces gives what parsing it
-- whole gives.
pub parse-append :
    (s : State) (r : Request) (xs ys : Bytes) → parse s r (xs ++ ys) ≡ resume (parse s r xs) ys
unfolding parse
parse-append s r [] ys = refl
parse-append s r (x ∷ xs) ys =
    ground (arith, parse-append (consume s r x).state (consume s r x).request xs ys)

-- A request as a client writes it: no line is continued.
abbrev pub to_line : Header → Line
to_line h = field h.name h.value

abbrev pub spelling_of : Request → Spelling
spelling_of r = record {
  method = r.method;
  uri = r.uri;
  major = decimal r.http_version_major;
  minor = decimal r.http_version_minor;
  lines = map to_line r.headers;
}

abbrev pub IsHeader : Header → Type 0
IsHeader h = AllSome IsToken h.name × All IsText h.value

-- What a request must satisfy to be written.
pub record IsRequest (r : Request) : Type 0 where
  pub method_tokens : AllSome IsToken r.method
  pub uri_bytes : All IsUriByte r.uri
  pub major_bound : r.http_version_major < 2 ^ 32
  pub minor_bound : r.http_version_minor < 2 ^ 32
  pub headers_fit : All IsHeader r.headers

AllLines-to_line : (hs ks : List Header) → All IsHeader hs → AllLines ks (map to_line hs)
AllLines-to_line [] ks h = tt
AllLines-to_line (x ∷ xs) ks h = (h.0, AllLines-to_line xs _ h.1)

store_all-to_line : (hs ks : List Header) → store_all ks (map to_line hs) ≡ ks ++ hs
store_all-to_line [] ks = sym (append-nil ks)
store_all-to_line (x ∷ xs) ks = store_all-to_line xs (ks ++ x ∷ []) ∙ append_assoc ks (x ∷ []) xs

decimal-AllSome : (n : ℕ) → AllSome IsDigit (decimal n)
decimal-AllSome n = let (d, ds, e) = decimal-cons n in rw e (rw e at (decimal-IsDigit n))

pub spelling_of-IsSpelling : (r : Request) → IsRequest r → IsSpelling (spelling_of r)
spelling_of-IsSpelling r h = record {
  method_tokens = h.method_tokens;
  uri_bytes = h.uri_bytes;
  major_digits = decimal-AllSome r.http_version_major;
  minor_digits = decimal-AllSome r.http_version_minor;
  lines_fit = AllLines-to_line r.headers [] h.headers_fit;
}

meaning-spelling_of : (r : Request) → IsRequest r → meaning (spelling_of r) ≡ r
meaning-spelling_of r h = ground (
  arith,
  value_onto-decimal r.http_version_major,
  value_onto-decimal r.http_version_minor,
  store_all-to_line r.headers [],
  h.major_bound,
  h.minor_bound,
)

-- A request made of tokens and texts, with its version numbers below 2 ^ 32, is written out and read back
-- as it was, whatever stands behind it.
pub parse-spelling_of :
    (r : Request) (rest : Bytes)
    → IsRequest r
    → parse reset empty_request (spell (spelling_of r) rest) ≡ accepted r rest
parse-spelling_of r rest h =
    parse-spell (spelling_of r) rest (spelling_of-IsSpelling r h)
    ∙ ap (λ q. accepted q rest) (meaning-spelling_of r h)
