-- ===== src/ImageSource/Cycle.antt =====
-- What src/ImageSource/ImageSource.cpp makes of a video file, which ends and is then opened again.
use sec_mon.Prelude.{
  ℕ, suc, ◌+◌, ◌%◌, ◌≤◌, ◌<◌, ◌≡◌, refl, sym, ap, ◌∙◌, true, false, ◌==◌, some, List, [], ◌∷◌,
  modify, ◌⊎◌, inl, inr, length, get_elem?, take, arith, ==_iff, get_elem?-lt, List-cases,
  Bool-cases,
}
use native.Mathlib.Nat.{mod-eq_of_lt, mod_self, mod-add-mod, mod-lt}
use sec_mon.Prelude.Text.{Bytes, codes, bytes_eq, decimal}
use sec_mon.Frame.{Frame, new_frame}
use sec_mon.Camera.{Capture, new_camera, get_next_frame, restart}
use sec_mon.ImageSource.{ImageSource, Failure, new_image_source, next_frame}

-- The capture plays a file of images: opening it stands before the first, reading moves on by one image
-- and fails behind the last, and the position is the number of images read.
pub record IsFile {State Image : Type 0} (cv : Capture State Image) (source : Bytes)
    (images : List Image) (at : ℕ → State) : Type 0 where
  pub opens : (s : State) → cv.open_source source s ≡ at 0
  pub opened : (k : ℕ) → cv.is_opened (at k) ≡ true
  pub reads :
      (k : ℕ) (image : Image)
      → get_elem? images k ≡ some image
      → cv.read (at k) ≡ (true, image, at (suc k))
  pub ends : (blank : Image) × (cv.read (at (length images)) ≡ (false, blank, at (length images)))
  pub position : (k : ℕ) → cv.pos_frames (at k) ≡ k

module _ {State Image : Type 0} (cv : Capture State Image) (no_image : Image)
    (zeros : ℕ → ℕ → Image) where
  open cv use {fps, is_empty_image, cols, rows}

  abbrev prepend : Frame Image → Failure ⊎ List (Frame Image) → Failure ⊎ List (Frame Image)
  prepend f (inl e) = inl e
  prepend f (inr fs) = inr (f ∷ fs)

  abbrev then_take :
      (ImageSource State → Failure ⊎ List (Frame Image))
      → (Failure ⊎ Frame Image) × ImageSource State
      → Failure ⊎ List (Frame Image)
  then_take rest (inl e, s) = inl e
  then_take rest (inr f, s) = prepend f (rest s)

  -- Frames in turn, at the given times.
  unfoldable pub take_frames : List Bytes → ImageSource State → Failure ⊎ List (Frame Image)
  unfolding next_frame
  take_frames [] s = inr []
  take_frames (now ∷ nows) s =
      then_take (λ t. take_frames nows t) (next_frame cv no_image zeros now s)

  module _ (source : Bytes) (images : List Image) (at : ℕ → State)
      (file : IsFile cv source images at) (name : bytes_eq (take 4 source) (codes "http") ≡ false)
      (first : Image) (starts : get_elem? images 0 ≡ some first)
      (full : is_empty_image first ≡ false) where
    -- The source before the image of an index.
    source_at : ℕ → ImageSource State
    source_at p = record {
      camera = record {
        source = source;
        camera = at p;
        frames_per_second = fps (at 1);
        width = cols first;
        height = rows first;
        real_camera = bytes_eq (take 4 source) (codes "http");
      };
      width = cols first;
      height = rows first;
    }

    -- The frame for an image of the file, with its number.
    pub file_frame : Image → ℕ → Frame Image
    file_frame image n =
        let f = new_frame no_image (zeros (cols first) (rows first)) in
        record f { images = modify 0 (λ x. image) f.images; display_time = decimal n }

    new_image_source_lem : (s : State) → new_image_source cv source s ≡ inr (source_at 1)
    unfolding new_image_source new_camera source_at
    new_image_source_lem s =
        rw (file.opens s, file.opened 0) (rw (file.reads 0 first starts) (rw full refl))

    next_frame-inside :
        (now : Bytes) (p : ℕ) (image : Image)
        → get_elem? images p ≡ some image
        → next_frame cv no_image zeros now (source_at p)
          ≡ (inr (file_frame image (suc p)), source_at (suc p))
    unfolding next_frame get_next_frame source_at file_frame
    next_frame-inside now p image e =
        rw (file.reads p image e) (rw (name, file.position (suc p)) refl)

    next_frame-wrap :
        (now : Bytes)
        → next_frame cv no_image zeros now (source_at (length images))
          ≡ (inr (file_frame first 1), source_at 1)
    unfolding next_frame get_next_frame source_at file_frame restart
    next_frame-wrap now =
        let (blank, ended) = file.ends in
        rw ended (
          rw (file.opens _, file.opened 0)
            (rw (file.reads 0 first starts) (rw (name, file.position 1) refl)))

    next_frame_lem :
        (now : Bytes) (p : ℕ)
        → p ≤ length images
        → (image : Image) × (get_elem? images (p % length images) ≡ some image)
          × (next_frame cv no_image zeros now (source_at p) ≡ (
            inr (file_frame image (suc (p % length images))),
            source_at (suc (p % length images)),
          ))
    next_frame_lem now p h = elim (Bool-cases (p == length images)) [
      | inl last ↦
          let e : p ≡ length images = (==_iff _ _).0 last in
          let n : p % length images ≡ 0 =
            ap (λ q. q % length images) e ∙ mod_self (length images) in
          rw n (first, starts, rw e (next_frame-wrap now))
      | inr more ↦
          let below : p < length images = ground arith in
          let n : p % length images ≡ p = mod-eq_of_lt below in
          let (image, e) = get_elem?-lt p images below in
          rw n (image, e, next_frame-inside now p image e)
    ]

    -- The frames from an image on: the images go round.
    abbrev pub GoesRound : ℕ → List Bytes → List (Frame Image) → Type 0
    GoesRound p [] [] = Unit
    GoesRound p [] (f ∷ fs) = ⊥
    GoesRound p (now ∷ nows) [] = ⊥
    GoesRound p (now ∷ nows) (f ∷ fs) =
        ((image : Image) × (get_elem? images (p % length images) ≡ some image)
          × (f ≡ file_frame image (suc (p % length images))))
        × GoesRound (suc p) nows fs

    is_there : 0 < length images
    is_there = elim (List-cases images) [
      | inl e ↦ absurd (cc (sym starts ∙ ap (λ l. get_elem? l 0) e))
      | inr (x, xs, e) ↦ omega (arith, ap length e)
    ]

    -- The index after a remainder.
    suc-mod : (p q n : ℕ) → p % n ≡ q % n → suc p % n ≡ suc (q % n) % n
    suc-mod p q n e =
        ap (λ k. k % n) (let k : suc p ≡ p + 1 = omega arith in k)
        ∙ sym (mod-add-mod p n 1)
        ∙ ap (λ k. k % n) (let k : p % n + 1 ≡ suc (q % n) = omega (arith, e) in k)

    take_frames-from :
        (nows : List Bytes) (p q : ℕ)
        → q ≤ length images
        → p % length images ≡ q % length images
        → (fs : List (Frame Image)) × (take_frames nows (source_at q) ≡ inr fs)
          × GoesRound p nows fs
    unfolding take_frames
    take_frames-from [] p q h e = ([], refl, tt)
    take_frames-from (now ∷ nows) p q h e =
        let (image, at_q, next) = next_frame_lem now q h in
        let (fs, rest, round) =
          take_frames-from nows (suc p) (suc (q % length images)) (mod-lt q is_there)
            (suc-mod p q (length images) e) in
        (
          file_frame image (suc (q % length images)) ∷ fs,
          rw next (ap (prepend _) rest),
          (
            (image, ap (get_elem? images) e ∙ at_q, ap (λ k. file_frame image (suc k)) (sym e)),
            round,
          ),
        )

    -- For a capture that plays a file of images, whose name is no web address and whose first image is
    -- not empty: the source is built, and it never throws. Frame `k` that it makes, counted from 0, has
    -- image `(k + 1) % n` of the `n` images and shows its number, counted from 1: the first image is
    -- left out at first, and comes when the file has ended and was opened again.
    pub take_frames-GoesRound :
        (s : State) (nows : List Bytes)
        → (src : ImageSource State) × (new_image_source cv source s ≡ inr src)
          × (fs : List (Frame Image)) × (take_frames nows src ≡ inr fs)
          × GoesRound 1 nows fs
    take_frames-GoesRound s nows =
        let (fs, taken, round) = take_frames-from nows 1 1 is_there refl in
        (source_at 1, new_image_source_lem s, fs, taken, round)
