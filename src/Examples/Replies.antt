-- ===== src/Examples/Replies.antt =====
-- Tests: replies as their reader gets them (src/GUI/Reply.cpp).
use sec_mon.Prelude.{◌≡◌, some, [], ◌∷◌, arith, length}
use sec_mon.Prelude.Text.{Bytes, codes, value_onto, concat}
use sec_mon.Http.Request.{Header}
use sec_mon.Http.Reply.{Reply, ok, not_found, to_buffers, stock_reply, status_code, to_string}
use sec_mon.Http.Reply.Reader.{read_response, Response}
use sec_mon.Http.Reply.Wire.{read_response-to_buffers, read_response-stock_reply}

abbrev small_reply : Reply
small_reply = record {
  status = ok;
  headers = (record { name = codes "A"; value = codes "b" }) ∷ [];
  content = codes "hi";
}

read_response-to_buffers_example :
    read_response (concat (to_buffers small_reply))
    ≡ some (record { code = status_code ok; fields = small_reply.headers; body = codes "hi" })
read_response-to_buffers_example = read_response-to_buffers small_reply (ground arith)

read_response-stock_reply_example :
    (r : Response) × (read_response (concat (to_buffers (stock_reply not_found))) ≡ some r)
    × (r.code ≡ status_code not_found)
    × (r.body ≡ to_string not_found)
    × (ls : Bytes) × (types : Header) × (r.fields
        ≡ (record { name = codes "Content-Length"; value = ls }) ∷ types ∷ [])
    × (value_onto 0 ls ≡ length r.body)
read_response-stock_reply_example = read_response-stock_reply not_found
