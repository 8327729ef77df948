-- ===== src/Http/Connection/Reads.antt =====
-- How the network cuts a request into reads, for src/GUI/Connection.cpp.
use sec_mon.Prelude.{ℕ, ◌≡◌, refl, ◌∙◌, false, Option, List, [], ◌∷◌, ◌++◌, arith, if◌then◌else◌}
use sec_mon.Prelude.Text.{Bytes, concat}
use sec_mon.Http.Parser.{Tribool, is_true, is_false, indeterminate, parse, expecting_newline_3}
use sec_mon.Http.Parser.Grammar.{Spelling, IsSpelling, spell, meaning}
use sec_mon.Http.Parser.Complete.{parse-spell}
use sec_mon.Http.Parser.Chunks.{parse-append}
use sec_mon.Http.Reply.{to_buffers}
use sec_mon.Stream.Directory.{Directory}
use sec_mon.Http.Handler.{handle_request}
use sec_mon.Http.Connection.{
  Activity, reading, writing, streaming, shut_down, dropped, empty_reply, start, World, handle_read,
}

-- Another read is started exactly when the result is open.
abbrev Continues : Tribool → Activity → Type 0
Continues indeterminate a = a ≡ reading
Continues is_true a = ¬ (a ≡ reading)
Continues is_false a = ¬ (a ≡ reading)

module _ (open_file : Bytes → Option Bytes) (root : Bytes) where
  -- Reads complete one after the other for as long as the connection starts another one.
  unfoldable pub feed : World → List Bytes → World
  feed w [] = w
  feed w (p ∷ ps) =
      let w' = handle_read open_file root false p w in
      elim w'.connection.activity [
        | reading ↦ feed w' ps
        | writing bs ↦ w'
        | streaming ↦ w'
        | shut_down ↦ w'
        | dropped ↦ w'
      ]

  -- A read in two parts: the second one counts only if the first left the result open.
  handle_read-append :
      (r : Tribool) (w : World) (p rest : Bytes)
      → (parse w.connection.request_parser w.connection.request p).outcome.result ≡ r
      → w.connection.activity ≡ reading
      → handle_read open_file root false (p ++ rest) w ≡ (elim r [
        | indeterminate ↦
            handle_read open_file root false rest (handle_read open_file root false p w)
        | is_true ↦ handle_read open_file root false p w
        | is_false ↦ handle_read open_file root false p w
      ])
  unfolding handle_read
  handle_read-append is_true w p rest e a =
      ground (arith, parse-append w.connection.request_parser w.connection.request p rest)
  handle_read-append is_false w p rest e a =
      ground (arith, parse-append w.connection.request_parser w.connection.request p rest)
  handle_read-append indeterminate w p rest e a =
      ground (arith, parse-append w.connection.request_parser w.connection.request p rest)

  handle_read-activity :
      (r : Tribool) (w : World) (p : Bytes)
      → (parse w.connection.request_parser w.connection.request p).outcome.result ≡ r
      → Continues r (handle_read open_file root false p w).connection.activity
  unfolding handle_read
  handle_read-activity is_true w p e = λ f. ground arith
  handle_read-activity is_false w p e = λ f. ground arith
  handle_read-activity indeterminate w p e = ground arith

  -- Feeding a connection that reads with the pieces of an input, one read for each, comes to the same
  -- as one read of the whole input.
  pub feed-concat :
      (w : World) (ps : List Bytes)
      → w.connection.activity ≡ reading
      → feed w ps ≡ handle_read open_file root false (concat ps) w
  unfolding feed concat
  feed-concat w [] a = unfold handle_read parse in ground arith
  feed-concat w (p ∷ ps) a =
      let r = (parse w.connection.request_parser w.connection.request p).outcome.result in
      let w' = handle_read open_file root false p w in
      step r (handle_read-append r w p (concat ps) refl a) (handle_read-activity r w p refl)
        (feed-concat w' ps)
    where
      step :
          (r : Tribool)
          → handle_read open_file root false (p ++ concat ps) w ≡ (elim r [
            | indeterminate ↦
                handle_read open_file root false (concat ps) (handle_read open_file root false p w)
            | is_true ↦ handle_read open_file root false p w
            | is_false ↦ handle_read open_file root false p w
          ])
          → Continues r (handle_read open_file root false p w).connection.activity
          → ((handle_read open_file root false p w).connection.activity ≡ reading
              → feed (handle_read open_file root false p w) ps
                ≡ handle_read open_file root false
                    (concat ps)
                    (handle_read open_file root false p w))
          → feed w (p ∷ ps) ≡ handle_read open_file root false (p ++ concat ps) w
      step is_true e c ih = ground arith
      step is_false e c ih = ground arith
      step indeterminate e c ih = ground (arith, ih c)

  -- A request of the grammar, cut into reads in any way and with anything behind it, is answered
  -- by what the handler makes of its meaning: a stream takes the connection over, or the
  -- reply is written.
  pub feed-spell :
      (d : Directory) (number : ℕ) (p : Spelling) (rest : Bytes) (ps : List Bytes)
      → IsSpelling p
      → concat ps ≡ spell p rest
      → (let h = handle_request open_file root d (meaning p) empty_reply number in
          feed (record { connection = start number; directory = d }) ps ≡ record {
            connection = record {
              number = number;
              request_parser = expecting_newline_3;
              request = meaning p;
              reply = h.reply;
              activity = if h.is_stream then streaming else writing (to_buffers h.reply);
            };
            directory = h.directory;
          })
  feed-spell d number p rest ps fits cut =
      feed-concat (record { connection = start number; directory = d }) ps refl
      ∙ rw cut (unfold handle_read in rw (parse-spell p rest fits))
