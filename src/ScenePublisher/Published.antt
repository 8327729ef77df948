-- ===== src/ScenePublisher/Published.antt =====
-- What a publisher (src/ScenePublisher.cpp) sends for a frame.
use sec_mon.Prelude.{
  ℕ, ◌<◌, ◌≡◌, sym, ap, ◌∙◌, ◌↔◌, ◌⊎◌, inl, inr, ltb, Bool, Option, List, [], ◌∷◌, Any, arith,
  Bool-cases, ltb→lt,
}
use sec_mon.Prelude.Text.{Bytes}
use sec_mon.Frame.{
  Frame, Result, throws, returns, get_image_as_jpg, set_display_name, set_display_stats,
}
use sec_mon.ScenePublisher.{StreamOf, ScenePublisher, emit, signal_streams, process_next_frame}

-- A stream with a subscriber, of the given name.
abbrev pub IsWatched : Bytes → StreamOf → Type 0
IsWatched name s = (s.name ≡ name) × (0 < s.num_slots)

emit_iff :
    (stream name image : Bytes) (r : Result Bytes) (rest : List (Bytes × Bytes))
    → Any (λ e. e ≡ (name, image)) (emit stream r rest)
      ↔ (((stream ≡ name) × (r ≡ returns image)) ⊎ Any (λ e. e ≡ (name, image)) rest)
emit_iff stream name image (throws x) rest =
    ((λ h. inr h), (λ h. elim h [ inl (a, b) ↦ absurd cc | inr g ↦ g ]))
emit_iff stream name image (returns i) rest = (
  (λ h. elim h [ inl e ↦ inl (ap (λ q. q.0) e, ap (λ q. returns q.1) e) | inr g ↦ inr g ]),
  (λ h. elim h [ inl (a, b) ↦ inl (let same : i ≡ image = cc in cc) | inr g ↦ inr g ]),
)

module _ {Image : Type 0} (is_empty_image : Image → Bool) (encode : Option ℕ → Image → Bytes)
    (render : Image → Image → Frame Image → Image) where
  signal_streams_iff :
      (name image : Bytes) (ss : List StreamOf) (f : Frame Image)
      → Any (λ e. e ≡ (name, image)) (signal_streams is_empty_image encode render ss f) ↔ (
          Any (IsWatched name) ss
          × (get_image_as_jpg is_empty_image encode render f name ≡ returns image))
  unfolding signal_streams
  signal_streams_iff name image [] f = ((λ h. elim h [ ]), λ (h, e). elim h [ ])
  signal_streams_iff name image (s ∷ ss) f =
      let ih = signal_streams_iff name image ss f in
      let r = get_image_as_jpg is_empty_image encode render f in
      let rest = signal_streams is_empty_image encode render ss f in
      elim (Bool-cases (ltb 0 s.num_slots)) [
        | inr e ↦ rw e (
          (λ h. let (w, g) = ih.0 h in (inr w, g)),
          (λ (w, g). elim w [ inl (n, some_slot) ↦ absurd (ground arith) | inr v ↦ ih.1 (v, g) ]),
        )
        | inl e ↦ rw e (
          (λ h. elim ((emit_iff s.name name image (r s.name) rest).0 h) [
            | inl (n, g) ↦ (inl (n, ltb→lt 0 s.num_slots e), ap r (sym n) ∙ g)
            | inr v ↦ let (w, g) = ih.0 v in (inr w, g)
          ]),
          (λ (w, g).
              (emit_iff s.name name image (r s.name) rest).1
                (elim w [ inl (n, some_slot) ↦ inl (n, ap r n ∙ g) | inr v ↦ inr (ih.1 (v, g)) ])),
        )
      ]

  -- A publisher sends an image under a name exactly if a stream of that name has a subscriber and the
  -- frame, with the scene's name and the statistics on it, has that image: a stream whose image cannot be
  -- had stops no other.
  pub process_next_frame_iff :
      (p : ScenePublisher) (stats name image : Bytes) (f : Frame Image)
      → (let (f', sent) = process_next_frame is_empty_image encode render p stats f in
          Any (λ e. e ≡ (name, image)) sent ↔ (
            Any (IsWatched name) p.streams
            × (get_image_as_jpg is_empty_image encode render f' name ≡ returns image)))
  unfolding process_next_frame
  process_next_frame_iff p stats name image f =
      signal_streams_iff name image p.streams
        (set_display_stats (set_display_name f p.display_name) stats)
