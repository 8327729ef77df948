-- ===== src/Examples/Publishing.antt =====
-- Tests: a frame that is published (src/ScenePublisher.cpp) and a history of web socket connections
-- (src/GUI/WebSocketServer.cpp).
use sec_mon.Prelude.{ℕ, ◌+◌, ◌≡◌, refl, ◌↔◌, Bool, ◌==◌, if◌then◌else◌, Option, List, [], ◌∷◌, Any}
use sec_mon.Prelude.Text.{Bytes, codes, bytes_eq}
use sec_mon.Frame.{
  Frame, new_frame, returns, get_image, get_image_as_jpg, get_original_with_overlay_image_as_jpg,
  find_name,
}
use sec_mon.ScenePublisher.{ScenePublisher, process_next_frame, signal_streams}
use sec_mon.ScenePublisher.Published.{IsWatched, process_next_frame_iff}
use sec_mon.WebSocketServer.Connections.{
  Event, opened, has_closed, shut, after, is_open, count, count-after, shutdown-closes,
}

-- An image is a number here, empty if it is 0 and encoded as one byte.
abbrev is_zero : ℕ → Bool
is_zero n = n == 0

abbrev one_byte : Option ℕ → ℕ → Bytes
one_byte quality n = n ∷ []

abbrev overlaid : ℕ → ℕ → Frame ℕ → ℕ
overlaid original overlay f = original + overlay

abbrev publisher : ScenePublisher
publisher = record {
  display_name = codes "door";
  description = [];
  streams =
      (record { name = codes "main"; num_slots = 1 })
      ∷ (record { name = codes "difference"; num_slots = 2 })
      ∷ (record { name = codes "overlay"; num_slots = 1 })
      ∷ [];
  registered = [];
}

process_next_frame_iff_example :
    (let (f', sent) =
        process_next_frame is_zero one_byte overlaid publisher (codes "CPU") (new_frame 40 2) in
      Any (λ e. e ≡ (codes "overlay", 40 ∷ [])) sent ↔ (
        Any (IsWatched (codes "overlay")) publisher.streams
        × (get_image_as_jpg is_zero one_byte overlaid f' (codes "overlay") ≡ returns (40 ∷ []))))
process_next_frame_iff_example =
    process_next_frame_iff is_zero one_byte overlaid publisher (codes "CPU") (codes "overlay")
      (40 ∷ []) (new_frame 40 2)

-- The difference image, which no element has registered, is left out.
two_sent :
    (process_next_frame is_zero one_byte overlaid publisher (codes "CPU") (new_frame 40 2)).1
    ≡ (codes "main", 42 ∷ []) ∷ (codes "overlay", 2 ∷ []) ∷ []
unfolding process_next_frame signal_streams get_image_as_jpg get_original_with_overlay_image_as_jpg
    get_image find_name bytes_eq
two_sent = refl

abbrev history : List Event
history = opened 3 ∷ has_closed 2 ∷ opened 2 ∷ opened 1 ∷ []

count-after_example : count 2 (after history).master_list ≡ (if is_open 2 history then 1 else 0)
count-after_example = count-after 2 history

shutdown-closes_example :
    ((after (shut ∷ history)).master_list ≡ [])
    × (count 3 (after (shut ∷ history)).closed
        ≡ count 3 (after history).closed + (if is_open 3 history then 1 else 0))
shutdown-closes_example = shutdown-closes 3 history
