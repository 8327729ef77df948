-- ===== src/WebSocketServer.antt =====
-- src/GUI/WebSocketServer.cpp: the connections of the web socket server. A connection handle is a number;
-- websocketpp calls the handlers and closes connections.
pub mod Connections
use sec_mon.Prelude.{
  ℕ, Bool, true, false, ◌==◌, if◌then◌else◌, Option, none, some, List, [], ◌∷◌, ◌++◌,
}
use sec_mon.Prelude.Text.{Bytes, codes}

-- `master_list`, a set, `shuttingDown`, and the connections that the server was told to close.
pub record WebSocketServer : Type 0 where
  pub shutting_down : Bool
  pub master_list : List ℕ
  pub closed : List ℕ

-- The constructor.
abbrev pub new_server : WebSocketServer
new_server = record { shutting_down = false; master_list = []; closed = [] }

-- `insert` and `erase` of a set.
unfoldable pub insert_handle : ℕ → List ℕ → List ℕ
insert_handle h [] = h ∷ []
insert_handle h (k ∷ ks) = let rest = insert_handle h ks in if k == h then k ∷ ks else k ∷ rest

unfoldable pub erase_handle : ℕ → List ℕ → List ℕ
erase_handle h [] = []
erase_handle h (k ∷ ks) = let rest = erase_handle h ks in if k == h then ks else k ∷ rest

-- `on_open`: while the server shuts down, a message is logged and no more.
unfoldable pub on_open : ℕ → WebSocketServer → WebSocketServer
on_open h s = record s { master_list = insert_handle h s.master_list }

-- `on_close`.
unfoldable pub on_close : ℕ → WebSocketServer → WebSocketServer
on_close h s = record s { master_list = erase_handle h s.master_list }

-- `shutdown`.
unfoldable pub shutdown : WebSocketServer → WebSocketServer
shutdown s = record s { shutting_down = true; closed = s.closed ++ s.master_list; master_list = [] }

-- The destructor.
unfoldable pub destroy : WebSocketServer → WebSocketServer
destroy s = record s { closed = s.closed ++ s.master_list }

-- `on_message`, which only logs the two members of a message. rapidjson is a parameter: the text of a
-- member, if the message is a document that has it; `none` is an assertion of rapidjson that fails.
unfoldable pub on_message :
    (Bytes → Bytes → Option Bytes) → Bytes → WebSocketServer → Option WebSocketServer
on_message member payload s = elim (member payload (codes "room")) [
  | none ↦ none
  | some room ↦ elim (member payload (codes "data")) [ none ↦ none | some text ↦ some s ]
]
