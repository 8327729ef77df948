-- ===== src/Stream.antt =====
-- The streams of src/GUI: Stream.cpp here, and below it the connections of a stream
-- (StreamConnection.cpp) and the directory of streams (StreamDirectory.cpp). A stream connection is
-- named by the number of the client connection whose socket it took over.
pub mod Connection
pub mod Directory
use sec_mon.Prelude.{ℕ, List, [], ◌∷◌, ◌++◌, ◌==◌, if◌then◌else◌}

-- `signal_` is the publisher's signal, by number; `slots` are the subscriptions made through it.
pub record Stream : Type 0 where
  pub signal : ℕ
  pub stream_id : ℕ
  pub connection_list : List ℕ
  pub slots : List ℕ

-- The constructor.
abbrev pub new_stream : ℕ → ℕ → Stream
new_stream signal id = record { signal = signal; stream_id = id; connection_list = []; slots = [] }

-- `connectToSignal`.
abbrev pub connect_to_signal : Stream → ℕ → Stream
connect_to_signal s conn = record s { slots = s.slots ++ conn ∷ [] }

-- `registerNewConnection`: the connection joins the list, and its `start` subscribes it.
unfoldable pub register_new_connection : Stream → ℕ → Stream
register_new_connection s conn =
    connect_to_signal (record s { connection_list = s.connection_list ++ conn ∷ [] }) conn

-- `std::find` and `erase`: the first entry goes.
unfoldable pub erase_first : ℕ → List ℕ → List ℕ
erase_first x [] = []
erase_first x (y ∷ ys) = if y == x then ys else y ∷ erase_first x ys

unfoldable pub deregister_connection : Stream → ℕ → Stream
unfolding erase_first
deregister_connection s conn = record s { connection_list = erase_first conn s.connection_list }

-- What `stream_signal_connection_.disconnect()` does to the signal.
unfoldable pub disconnect : Stream → ℕ → Stream
unfolding erase_first
disconnect s conn = record s { slots = erase_first conn s.slots }
