-- ===== src/Examples/Frames.antt =====
-- Tests: a video file of three images (src/ImageSource), and what moves in it (src/ImageProcessing). An
-- image is a number.
use mathlib.Core.List.Permᴰ
use sec_mon.Prelude.{
  ℕ, suc, ◌+◌, ◌-◌, ◌≡◌, refl, Bool, true, false, ltb, none, some, List, [], ◌∷◌, map, inr,
  get_elem?,
}
use sec_mon.Prelude.Text.{Bytes, codes, bytes_eq}
use sec_mon.Frame.{Frame, returns}
use sec_mon.Image.Regions.{Contours}
use sec_mon.Image.Movement.{Vision, new_detector}
use sec_mon.Image.Movement.Differences.{captured, detect_all, differences, detect_all-differences}
use sec_mon.Image.Processor.{process_all, IsWatched, process_all-IsWatched}
use sec_mon.Camera.{Capture}
use sec_mon.ImageSource.{ImageSource, new_image_source, next_frame}
use sec_mon.ImageSource.Attempts.{IsDecided, next_frame-attempts}
use sec_mon.ImageSource.Cycle.{IsFile, take_frames, GoesRound, take_frames-GoesRound}
use sec_mon.Examples.Overlap.{rect, exact, exact-IsRectOps}

abbrev vision : Vision ℕ
vision = record {
  Contour = ℕ;
  takes_color = λ x. ltb 0 x;
  gray = λ x. x;
  takes_both = λ x y. ltb 0 x;
  absdiff = λ x y. x - y + (y - x);
  threshold = λ n x. x;
  find_contours = λ x. x ∷ [];
  black = λ x. 0;
  area_below = λ n c. ltb c n;
  draw_contour = λ c x. c + x;
  close = λ n x. x;
}

abbrev contours : Contours ℕ
contours = record {
  Contour = ℕ;
  find_contours = λ x. x ∷ [];
  area_below = λ n c. ltb c n;
  bounding_rect = λ c. rect 0 0 c c;
  rectangle = λ x r. x + 1;
}

abbrev pictures : List ℕ
pictures = 7 ∷ 20 ∷ 60 ∷ []

detect_all-differences_example :
    detect_all vision new_detector (map (captured 0 1) pictures)
    ≡ returns (differences vision 0 1 none pictures)
detect_all-differences_example =
    detect_all-differences vision 0 1 pictures ((refl, refl, refl), ((refl, refl, refl), tt))

process_all-IsWatched_example :
    (fs : List (Frame ℕ)) × (process_all vision contours
        (λ rs. rs)
        exact
        new_detector
        (map (captured 0 1) pictures)
      ≡ some (returns fs))
    × IsWatched vision contours (λ rs. rs) exact 0 1 none pictures fs
process_all-IsWatched_example =
    process_all-IsWatched vision contours (λ rs. rs) exact 0 1 exact-IsRectOps (λ rs. Permᴰ.refl rs)
      pictures ((refl, refl, refl), ((refl, refl, refl), tt))

abbrev read_at : ℕ → Bool × ℕ × ℕ
read_at k = elim (get_elem? pictures k) [ none ↦ (false, 0, k) | some x ↦ (true, x, suc k) ]

-- The state of the capture is its position.
abbrev video : Capture ℕ ℕ
video = record {
  open_source = λ url k. 0;
  is_opened = λ k. true;
  read = read_at;
  fps = λ k. 25;
  pos_frames = λ k. k;
  release = λ k. k;
  is_empty_image = λ x. false;
  cols = λ x. 4;
  rows = λ x. 3;
}

abbrev url : Bytes
url = codes "yard.avi"

video-IsFile : IsFile video url pictures (λ k. k)
video-IsFile = record {
  opens = λ k. refl;
  opened = λ k. refl;
  reads = λ k x e. rw (e, read_at) refl;
  ends = (0, refl);
  position = λ k. refl;
}

not_http : bytes_eq (codes "yard") (codes "http") ≡ false
unfolding bytes_eq
not_http = refl

abbrev times : List Bytes
times = [] ∷ [] ∷ [] ∷ [] ∷ []

take_frames-GoesRound_example :
    (src : ImageSource ℕ) × (new_image_source video url 9 ≡ inr src)
    × (fs : List (Frame ℕ)) × (take_frames video 0 (λ w h. 1) times src ≡ inr fs)
    × GoesRound video 0
        (λ w h. 1)
        url
        pictures
        (λ k. k)
        video-IsFile
        not_http
        7
        refl
        refl
        1
        times
        fs
take_frames-GoesRound_example =
    take_frames-GoesRound video 0 (λ w h. 1) url pictures (λ k. k) video-IsFile not_http 7 refl refl
      9 times

abbrev at_the_end : ImageSource ℕ
at_the_end = record {
  camera = record {
    source = url;
    camera = 3;
    frames_per_second = 25;
    width = 4;
    height = 3;
    real_camera = false;
  };
  width = 4;
  height = 3;
}

next_frame-attempts_example :
    IsDecided video at_the_end (next_frame video 0 (λ w h. 1) [] at_the_end).0
next_frame-attempts_example = next_frame-attempts video 0 (λ w h. 1) [] at_the_end
