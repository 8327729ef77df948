-- ===== src/Stream/Connection/Runs.antt =====
-- The runs of a viewer's connection (src/GUI/StreamConnection.cpp): images that are signalled, handlers
-- that the strand runs, and writes that end.
use sec_mon.Prelude.{◌≡◌, true, false, List, [], ◌∷◌, ◌++◌, map}
use sec_mon.Prelude.Text.{Bytes}
use sec_mon.Stream.Connection.{
  Buffer, lost_buffers, FrameToSend, StreamConnection, new_connection, initial_reply, start,
  frame_message, send_frame, add_to_outbox, handle_write,
}

-- The connection, the images signalled to it so far and the writes that completed without an error.
pub record Session : Type 0 where
  pub connection : StreamConnection
  pub signalled : List Bytes
  pub sent : List (List Buffer)

abbrev pub started : Session
started = record { connection = start new_connection; signalled = []; sent = [] }

-- What can happen next. A write completes only if one is under way, and without an error only while the
-- socket is open.
pub data Step (s : Session) : Session → Type 0 where
  signal :
      (image : Bytes)
      → s.connection.connected ≡ true
      → Step s (record s {
        connection = send_frame image s.connection;
        signalled = s.signalled ++ image ∷ [];
      })
  run_posted :
      (m : FrameToSend) (ms : List FrameToSend)
      → s.connection.posted ≡ m ∷ ms
      → Step s (record s { connection = add_to_outbox m (record (s.connection) { posted = ms }) })
  write_done :
      (w : List Buffer) (ws : List (List Buffer))
      → s.connection.writes ≡ w ∷ ws
      → s.connection.socket_open ≡ true
      → Step s (record s {
        connection = handle_write false (record (s.connection) { writes = ws });
        sent = s.sent ++ w ∷ [];
      })
  write_failed :
      (w : List Buffer) (ws : List (List Buffer))
      → s.connection.writes ≡ w ∷ ws
      → Step s (record s { connection = handle_write true (record (s.connection) { writes = ws }) })

pub data Reach : Session → Type 0 where
  here : Reach started
  next : {s t : Session} → Reach s → Step s t → Reach t

abbrev pub buffers_of : List FrameToSend → List (List Buffer)
buffers_of = map (λ m. m.buffers)

-- The buffers of all that the viewer should ever be sent for the images signalled.
abbrev pub expected : List Bytes → List (List Buffer)
expected images = lost_buffers initial_reply ∷ map (λ i. (frame_message i).buffers) images
