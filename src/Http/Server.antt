-- ===== src/Http/Server.antt =====
-- src/GUI/HTTP_Server.cpp: the loop that accepts connections. The resolver and the acceptor are Boost's.
use sec_mon.Prelude.{ℕ, ◌+◌, Bool, true, false, Option, none, some, List, [], ◌∷◌, ◌++◌}
use sec_mon.Http.Connection.{Connection, start}

-- The connections made so far, `new_connection_` by its number, whether an `async_accept` is under way,
-- and the connections that were started.
pub record HttpServer : Type 0 where
  pub made : ℕ
  pub new_connection : Option ℕ
  pub accepting : Bool
  pub started : List Connection

-- The constructor.
abbrev pub new_http_server : HttpServer
new_http_server = record { made = 0; new_connection = none; accepting = false; started = [] }

-- `start_accept`, which `start` calls.
unfoldable pub start_accept : HttpServer → HttpServer
start_accept s = record s { made = s.made + 1; new_connection = some s.made; accepting = true }

-- `new_connection_->start`.
abbrev pub start_connection : HttpServer → HttpServer
start_connection s = elim s.new_connection [
  | none ↦ s
  | some n ↦ record s { started = s.started ++ start n ∷ [] }
]

-- `handle_accept`; the Boolean is the error.
unfoldable pub handle_accept : Bool → HttpServer → HttpServer
unfolding start_accept
handle_accept true s = start_accept s
handle_accept false s = start_accept (start_connection s)
