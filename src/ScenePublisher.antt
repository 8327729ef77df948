-- ===== src/ScenePublisher.antt =====
-- src/ScenePublisher.cpp: the pictures of a frame are handed to the streams that have subscribers.
pub mod Published
use sec_mon.Prelude.{ℕ, ltb, Bool, if◌then◌else◌, Option, none, some, List, [], ◌∷◌, ◌++◌}
use sec_mon.Prelude.Text.{Bytes, codes}
use sec_mon.Frame.{
  Frame, Result, throws, returns, get_image_as_jpg, set_display_name, set_display_stats,
}

-- `ScenePublisher::Stream`: its name and the number of slots of its signal.
pub record StreamOf : Type 0 where
  pub name : Bytes
  pub num_slots : ℕ

-- `display_name_`, `description_` and `streams_`, with the streams that were handed to the GUI.
pub record ScenePublisher : Type 0 where
  pub display_name : Bytes
  pub description : Bytes
  pub streams : List StreamOf
  pub registered : List Bytes

-- `add_stream`.
unfoldable pub add_stream : Bytes → ScenePublisher → ScenePublisher
add_stream name p = record p {
  streams = p.streams ++ (record { name = name; num_slots = 0 }) ∷ [];
  registered = p.registered ++ name ∷ [];
}

-- The constructor.
unfoldable pub new_publisher : Bytes → Bytes → ScenePublisher
unfolding add_stream
new_publisher display_name description = add_stream (codes "difference") (
    add_stream (codes "foreground") (
      add_stream (codes "overlay") (
        add_stream (codes "main") (record {
          display_name = display_name;
          description = description;
          streams = [];
          registered = [];
        }))))

-- A signal with the image, unless there was an exception, which is caught.
abbrev pub emit : Bytes → Result Bytes → List (Bytes × Bytes) → List (Bytes × Bytes)
emit name (throws e) rest = rest
emit name (returns image) rest = (name, image) ∷ rest

-- What OpenCV does is a parameter, as in Frame, and so is the performance monitor's text.
module _ {Image : Type 0} (is_empty_image : Image → Bool) (encode : Option ℕ → Image → Bytes)
    (render : Image → Image → Frame Image → Image) where
  -- The loop over the streams: the signals, by the streams' names.
  unfoldable pub signal_streams : List StreamOf → Frame Image → List (Bytes × Bytes)
  signal_streams [] f = []
  signal_streams (s ∷ ss) f =
      let rest = signal_streams ss f in
      if ltb 0 s.num_slots
      then emit s.name (get_image_as_jpg is_empty_image encode render f s.name) rest
      else rest

  -- `process_next_frame`: the frame and the signals.
  unfoldable pub process_next_frame :
      ScenePublisher → Bytes → Frame Image → Frame Image × List (Bytes × Bytes)
  unfolding signal_streams
  process_next_frame p stats f =
      let f' = set_display_stats (set_display_name f p.display_name) stats in
      (f', signal_streams p.streams f')
