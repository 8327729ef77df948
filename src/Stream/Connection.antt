-- ===== src/Stream/Connection.antt =====
-- src/GUI/StreamConnection.cpp: the connection of one viewer to one stream. Handlers that wait on the
-- connection's strand and writes under way are part of the state; the strand runs handlers one at a
-- time, in the order in which they were posted.
pub mod Runs
pub mod Pending
pub mod Order
use sec_mon.Prelude.{ℕ, suc, Bool, true, false, List, [], ◌∷◌, ◌++◌, length}
use sec_mon.Prelude.Text.{Bytes, codes, crlf, decimal}
use sec_mon.Http.Request.{Header}
use sec_mon.Http.Reply.{Reply, ok, to_buffer, name_value_separator}

-- `boost::asio::const_buffer`, a pointer: into bytes that live as long as the write that reads them, or
-- into an object that is destroyed before that. What a write makes of the latter C++ leaves undefined.
pub data Buffer : Type 0 where
  points_to : Bytes → Buffer
  dangling : Buffer

-- `FrameToSend`: the buffers; the image that they point into is kept with them.
pub record FrameToSend : Type 0 where
  pub buffers : List Buffer

abbrev pub no_frame : FrameToSend
no_frame = record { buffers = [] }

-- `outbox_`, the buffers handed to writes that have not completed, the messages posted for
-- `addToOutbox`, and whether the signal still reaches the connection and the socket is open.
pub record StreamConnection : Type 0 where
  pub outbox : List FrameToSend
  pub writes : List (List Buffer)
  pub posted : List FrameToSend
  pub connected : Bool
  pub socket_open : Bool

-- The constructor.
abbrev pub new_connection : StreamConnection
new_connection = record {
  outbox = [];
  writes = [];
  posted = [];
  connected = false;
  socket_open = true;
}

-- `FrameHeader`.
abbrev pub frame_header : Bytes
frame_header = codes "\r\n--BOUNDARYSTRING\r\nContent-type: image/jpeg\r\nContent-Length: "

-- The reply of `sendInitialHeaders`.
abbrev header : Bytes → Bytes → Header
header n v = record { name = n; value = v }

pub initial_reply : Reply
initial_reply = record {
  status = ok;
  headers =
      header (codes "Connection") (codes "Keep-Alive")
      ∷ header (codes "Max-Age") (codes "0")
      ∷ header (codes "Expires") (codes "0")
      ∷ header (codes "Cache-Control") (codes "no-cache")
      ∷ header (codes "Pragma") (codes "no-cache")
      ∷ header (codes "Content-Type") (codes "multipart/x-mixed-replace; boundary=--BOUNDARYSTRING")
      ∷ [];
  content = [];
}

-- The buffers of a reply that is destroyed: the status line and the separators are constants, and the
-- headers and the content are the reply's own.
unfoldable pub lost_header_buffers : List Header → List Buffer
lost_header_buffers [] = points_to crlf ∷ dangling ∷ []
lost_header_buffers (h ∷ hs) =
    dangling ∷ points_to name_value_separator ∷ dangling ∷ points_to crlf ∷ lost_header_buffers hs

unfoldable pub lost_buffers : Reply → List Buffer
unfolding lost_header_buffers
lost_buffers r = points_to (to_buffer r.status) ∷ lost_header_buffers r.headers

-- `async_write`.
abbrev pub async_write : List Buffer → StreamConnection → StreamConnection
async_write bs c = record c { writes = c.writes ++ bs ∷ [] }

-- `sendInitialHeaders`: an empty message stands in the outbox for the write of the headers. The write
-- goes on after the reply, a local variable, is destroyed.
unfoldable pub send_initial_headers : StreamConnection → StreamConnection
send_initial_headers c =
    async_write (lost_buffers initial_reply) (record c { outbox = c.outbox ++ no_frame ∷ [] })

-- `start`.
unfoldable pub start : StreamConnection → StreamConnection
unfolding send_initial_headers
start c = record (send_initial_headers c) { connected = true }

-- The message that `sendFrame` makes of an image, which it keeps. The text of the length is a temporary
-- object, which is destroyed at once.
unfoldable pub frame_message : Bytes → FrameToSend
frame_message image = record {
  buffers =
      points_to frame_header ∷ dangling ∷ points_to crlf ∷ points_to crlf ∷ points_to image ∷ [];
}

-- `sendFrame`, which the signal calls.
unfoldable pub send_frame : Bytes → StreamConnection → StreamConnection
send_frame image c = record c { posted = c.posted ++ frame_message image ∷ [] }

-- `writeNextMessage`, on the outbox.
unfoldable pub write_next_message : List FrameToSend → StreamConnection → StreamConnection
write_next_message [] c = c
write_next_message (m ∷ ms) c = async_write m.buffers c

-- The test of `addToOutbox` for an outstanding write, on the outbox with the new message.
unfoldable pub start_write : List FrameToSend → StreamConnection → StreamConnection
unfolding write_next_message
start_write (m ∷ k ∷ ms) c = c
start_write ms c = write_next_message ms c

-- `addToOutbox`.
unfoldable pub add_to_outbox : FrameToSend → StreamConnection → StreamConnection
unfolding start_write
add_to_outbox m c = let c' = record c { outbox = c.outbox ++ m ∷ [] } in start_write c'.outbox c'

-- `pop_front` of an outbox that may be empty.
abbrev pub pop_front : List FrameToSend → List FrameToSend
pop_front [] = []
pop_front (m ∷ ms) = ms

-- `handle_write`; the Boolean is the error. What it does to the stream is `Stream.disconnect` and
-- `Stream.deregister_connection`.
unfoldable pub handle_write : Bool → StreamConnection → StreamConnection
unfolding write_next_message
handle_write true c = record c {
  outbox = pop_front c.outbox;
  connected = false;
  socket_open = false;
}
handle_write false c =
    let c' = record c { outbox = pop_front c.outbox } in write_next_message c'.outbox c'

-- What a read ends with: no error, the end of the input or a reset, or another error.
pub data ReadResult : Type 0 where
  no_error : ReadResult
  eof_or_reset : ReadResult
  other_error : ReadResult

-- `handle_read`, and whether it starts another read. No handler calls it: the read that would is
-- commented out.
unfoldable pub handle_read : ReadResult → StreamConnection → StreamConnection × Bool
handle_read eof_or_reset c = (record c { socket_open = false }, false)
handle_read _ c = (c, true)
