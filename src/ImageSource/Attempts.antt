-- ===== src/ImageSource/Attempts.antt =====
-- When src/ImageSource/ImageSource.cpp has a frame to pass on, and what it throws otherwise.
use sec_mon.Prelude.{ℕ, ◌≡◌, true, false, ◌⊎◌, ◌↔◌, inl, inr, arith, Bool-cases}
use sec_mon.Prelude.Text.{Bytes}
use sec_mon.Frame.{Frame}
use sec_mon.Camera.{Capture, get_next_frame, restart}
use sec_mon.ImageSource.{ImageSource, Failure, failed_after_restart, bare_exception, next_frame}

module _ {State Image : Type 0} (cv : Capture State Image) where
  open cv use {open_source, is_opened, read, release}

  -- The capture after a first attempt, opened again.
  abbrev pub reopened : ImageSource State → State
  reopened s = open_source s.camera.source (release (read s.camera.camera).2)

  -- A result, as the two attempts decide it.
  abbrev pub IsDecided : ImageSource State → Failure ⊎ Frame Image → Type 0
  IsDecided s result =
      (((f : Frame Image) × (result ≡ inr f)) ↔ (
        ((read s.camera.camera).0 ≡ true)
        ⊎ ((is_opened (reopened s) ≡ true) × ((read (reopened s)).0 ≡ true))))
      × ((result ≡ inl bare_exception)
          ↔ (((read s.camera.camera).0 ≡ false) × (is_opened (reopened s) ≡ false)))
      × ((result ≡ inl failed_after_restart) ↔ (
          ((read s.camera.camera).0 ≡ false)
          × (is_opened (reopened s) ≡ true)
          × ((read (reopened s)).0 ≡ false)))

  -- `process_next_frame` makes a frame exactly if the first attempt reads an image, or if the capture can
  -- be opened again and the second attempt reads one. If the first attempt reads nothing and the capture
  -- cannot be opened again, and only then, the camera's exception is lost to a bare `std::exception`; if
  -- it reads nothing a second time, and only then, a text is thrown.
  pub next_frame-attempts :
      (no_image : Image) (zeros : ℕ → ℕ → Image) (now : Bytes) (s : ImageSource State)
      → IsDecided s (next_frame cv no_image zeros now s).0
  unfolding next_frame get_next_frame restart
  next_frame-attempts no_image zeros now s = elim (Bool-cases (read s.camera.camera).0) [
    | inl e ↦ rw e (ground arith)
    | inr e ↦ elim (Bool-cases (is_opened (reopened s))) [
      | inl f ↦ elim (Bool-cases (read (reopened s)).0) [
        | inl g ↦ rw (e, f, g) (ground arith)
        | inr g ↦ rw (e, f, g) (ground arith)
      ]
      | inr f ↦ rw (e, f) (ground arith)
    ]
  ]
