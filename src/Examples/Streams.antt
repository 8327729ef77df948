-- ===== src/Examples/Streams.antt =====
-- Tests: streams and their directory (src/GUI/StreamDirectory.cpp).
use sec_mon.Prelude.{ℕ, ◌≡◌, refl, ◌⊎◌, true, some, arith, if◌then◌else◌, ◌==◌}
use sec_mon.Prelude.Text.{codes, decimal}
use sec_mon.Http.Handler.{handle_request}
use sec_mon.Http.Handler.StreamRequests.{handle_request_stream, IsServed, IsUnknown}
use sec_mon.Http.Connection.{empty_reply}
use sec_mon.Stream.{Stream, register_new_connection}
use sec_mon.Stream.Directory.{find, Directory, new_directory, add_stream, handle_valid_stream}
use sec_mon.Stream.Directory.Lookup.{stream_path}
use sec_mon.Stream.Directory.Numbers.{
  IsDirectory, add_stream-IsDirectory, handle_valid_stream_served,
}
use sec_mon.Examples.Requests.{get_request, page, home}

abbrev two_streams : Directory
two_streams = add_stream (add_stream new_directory 7) 8

two_streams-IsDirectory : IsDirectory two_streams
two_streams-IsDirectory =
    add_stream-IsDirectory (add_stream new_directory 7) 8
      (add_stream-IsDirectory new_directory 7 refl)

add_stream-IsDirectory_example : IsDirectory (add_stream new_directory 7)
add_stream-IsDirectory_example = add_stream-IsDirectory new_directory 7 refl

handle_request_stream_example :
    IsServed two_streams empty_reply 5 2 (
      handle_request page home two_streams
        (record get_request { uri = codes "/2.mjpeg" })
        empty_reply
        5)
    ⊎ IsUnknown two_streams 2 (
        handle_request page home two_streams
          (record get_request { uri = codes "/2.mjpeg" })
          empty_reply
          5)
unfolding decimal
handle_request_stream_example =
    handle_request_stream page home two_streams (record get_request { uri = codes "/2.mjpeg" })
      empty_reply 5 2 two_streams-IsDirectory (omega arith) refl

handle_valid_stream_served_example :
    (s : Stream) × (find 2 two_streams.stream_list ≡ some s)
    × (s.stream_id ≡ 2)
    × (let r = handle_valid_stream two_streams (stream_path 2) 5 in
        (r.1 ≡ true)
        × IsDirectory r.0
        × ((i : ℕ)
            → find i r.0.stream_list ≡ (
                if i == 2
                then some (register_new_connection s 5)
                else find i two_streams.stream_list)))
unfolding add_stream
handle_valid_stream_served_example =
    handle_valid_stream_served two_streams 2 5 two_streams-IsDirectory (omega arith) (omega arith)
      (omega arith)
