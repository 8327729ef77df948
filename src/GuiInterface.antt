-- ===== src/GuiInterface.antt =====
-- src/GUI/GUI_Interface.cpp: the servers behind one interface.
use sec_mon.Prelude.{ℕ}
use sec_mon.Http.Server.{HttpServer, new_http_server, start_accept}
use sec_mon.Stream.Directory.{Directory, new_directory, add_stream}
use sec_mon.WebSocketServer.{WebSocketServer, new_server}
use sec_mon.WebSocketServer

pub record GuiInterface : Type 0 where
  pub web_socket_server : WebSocketServer
  pub stream_directory : Directory
  pub http_server : HttpServer

-- The constructor.
abbrev pub new_gui_interface : GuiInterface
new_gui_interface = record {
  web_socket_server = new_server;
  stream_directory = new_directory;
  http_server = new_http_server;
}

-- `start`. What the web socket server's `start` does is websocketpp's.
unfoldable pub start : GuiInterface → GuiInterface
unfolding start_accept
start g = record g { http_server = start_accept g.http_server }

-- `shutdown`, which leaves the web server as it is.
unfoldable pub shutdown : GuiInterface → GuiInterface
shutdown g = record g { web_socket_server = WebSocketServer.shutdown g.web_socket_server }

-- `registerNewStream`; the argument is the publisher's signal.
unfoldable pub register_new_stream : ℕ → GuiInterface → GuiInterface
unfolding add_stream
register_new_stream signal g = record g { stream_directory = add_stream g.stream_directory signal }
