-- ===== src/Http/Connection.antt =====
-- src/GUI/Connection.cpp: a client's connection, from the first read to the reply. The bytes of each
-- completed read are an argument of its handler, at most 8192 of them.
pub mod Reads
use sec_mon.Prelude.{Bool, true, false, ℕ, Option, List, [], ◌∷◌, ◌++◌, if◌then◌else◌}
use sec_mon.Prelude.Text.{Bytes}
use sec_mon.Http.Request.{Request, empty_request}
use sec_mon.Http.Parser.{State, Tribool, is_true, is_false, indeterminate, Outcome, parse, reset}
use sec_mon.Http.Reply.{Reply, ok, bad_request, stock_reply, to_buffers}
use sec_mon.Stream.Directory.{Directory}
use sec_mon.Http.Handler.{Handled, handle_request}

-- What goes on with the connection's socket: a read, a write of some buffers, nothing as a stream took
-- the socket, a shutdown, or nothing as the object goes away.
pub data Activity : Type 0 where
  reading : Activity
  writing : List Bytes → Activity
  streaming shut_down dropped : Activity

pub record Connection : Type 0 where
  pub number : ℕ
  pub request_parser : State
  pub request : Request
  pub reply : Reply
  pub activity : Activity

-- A reply that nothing was assigned to; its status is not read before it is set.
abbrev pub empty_reply : Reply
empty_reply = record { status = ok; headers = []; content = [] }

-- The constructor and `start`.
abbrev pub start : ℕ → Connection
start n = record {
  number = n;
  request_parser = reset;
  request = empty_request;
  reply = empty_reply;
  activity = reading;
}

-- The server's state around a connection: the streams are shared by all.
pub record World : Type 0 where
  pub connection : Connection
  pub directory : Directory

module _ (open_file : Bytes → Option Bytes) (doc_root : Bytes) where
  -- The branch on the parser's result, with its state and request stored.
  unfoldable pub dispatch : Tribool → World → World
  dispatch is_true w =
      let h =
        handle_request open_file doc_root w.directory w.connection.request w.connection.reply
          w.connection.number in
      record {
        connection = record (w.connection) {
          reply = h.reply;
          activity = if h.is_stream then streaming else writing (to_buffers h.reply);
        };
        directory = h.directory;
      }
  dispatch is_false w = record w {
    connection = record (w.connection) {
      reply = stock_reply bad_request;
      activity = writing (to_buffers (stock_reply bad_request));
    };
  }
  dispatch indeterminate w = record w { connection = record (w.connection) { activity = reading } }

  abbrev store_outcome : World → Outcome → World
  store_outcome w o = record w {
    connection = record (w.connection) { request_parser = o.state; request = o.request };
  }

  -- `handle_read`; the Boolean is the error.
  unfoldable pub handle_read : Bool → Bytes → World → World
  unfolding dispatch
  handle_read true bytes w = record w { connection = record (w.connection) { activity = dropped } }
  handle_read false bytes w =
      let o = (parse w.connection.request_parser w.connection.request bytes).outcome in
      dispatch o.result (store_outcome w o)

  -- `handle_write`.
  unfoldable pub handle_write : Bool → World → World
  handle_write e w = record w {
    connection = record (w.connection) { activity = if e then dropped else shut_down };
  }
