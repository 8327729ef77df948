-- ===== src/Frame.antt =====
-- src/Frame.cpp: the named images of a frame. A reference to an image is the index of its slot; what
-- OpenCV does with images is a parameter.
pub mod Slots
pub mod Names
use sec_mon.Prelude.{
  ℕ, zero, suc, Bool, true, false, if◌then◌else◌, Option, none, some, List, [], ◌∷◌, ◌++◌,
  get_elem?, modify,
}
use sec_mon.Prelude.Throwing
pub use sec_mon.Prelude.Throwing.{throws, returns, ◌>>=◌}
use sec_mon.Prelude.Text.{Bytes, codes, bytes_eq}
use sec_mon.Image.{Rect}

-- The `invalid_argument` exceptions, by their messages, and the exceptions of OpenCV.
pub data Error : Type 0 where
  already_registered : Error
  no_available_images : Error
  not_registered : Error
  no_data : Error
  cv_exception : Error

abbrev pub Result : Type 0 → Type 0
Result = Throwing.Result Error

-- `images_`, `image_names_`, `regions_of_interest_` and the texts that are drawn on the frame.
pub record Frame (Image : Type 0) : Type 0 where
  pub images : List Image
  pub image_names : List Bytes
  pub regions_of_interest : List Rect
  pub display_time : Bytes
  pub display_name : Bytes
  pub display_stats : Bytes

-- The loop of `get_image` over the names, from the slot of the given index on.
unfoldable pub find_name : ℕ → Bytes → List Bytes → Option ℕ
find_name i name [] = none
find_name i name (n ∷ ns) = if bytes_eq n name then some i else find_name (suc i) name ns

-- A slot and the names with a new one in it.
pub record Slot : Type 0 where
  pub index : ℕ
  pub names : List Bytes

abbrev pub behind : Bytes → Result Slot → Result Slot
behind n r = do s ← r; returns (record s { names = n ∷ s.names })

-- The loop of `get_new_image`.
unfoldable pub take_slot : ℕ → Bytes → List Bytes → Result Slot
take_slot i name [] = throws no_available_images
take_slot i name (n ∷ ns) =
    let rest = take_slot (suc i) name ns in
    if bytes_eq n name
    then throws already_registered
    else if bytes_eq n []
    then returns (record { index = i; names = name ∷ ns })
    else behind n rest

abbrev pub or_throw : Error → Option ℕ → Result ℕ
or_throw e none = throws e
or_throw e (some i) = returns i

module _ {Image : Type 0} where
  -- The constructor, with the images before and after `zeros` is assigned to the second.
  abbrev pub new_frame : Image → Image → Frame Image
  new_frame no_image zeros = record {
    images =
        no_image ∷ zeros ∷ no_image ∷ no_image ∷ no_image ∷ no_image ∷ no_image ∷ no_image
        ∷ no_image ∷ no_image ∷ [];
    image_names = codes "original" ∷ codes "overlay" ∷ [] ∷ [] ∷ [] ∷ [] ∷ [] ∷ [] ∷ [] ∷ [] ∷ [];
    regions_of_interest = [];
    display_time = [];
    display_name = [];
    display_stats = [];
  }

  -- `get_image`.
  unfoldable pub get_image : Frame Image → Bytes → Result ℕ
  get_image f name = or_throw not_registered (find_name 0 name f.image_names)

  abbrev pub with_names : Frame Image → Result Slot → Result (Frame Image × ℕ)
  with_names f r = do s ← r; returns (record f { image_names = s.names }, s.index)

  -- `get_new_image`. `get_new_blank_image` does the same: the static function `zeros` that it calls on
  -- the image returns a new one, which is dropped.
  unfoldable pub get_new_image : Frame Image → Bytes → Result (Frame Image × ℕ)
  get_new_image f name = with_names f (take_slot 0 name f.image_names)

  unfoldable pub get_new_blank_image : Frame Image → Bytes → Result (Frame Image × ℕ)
  get_new_blank_image f name = with_names f (take_slot 0 name f.image_names)

  -- `get_new_or_existing_image`.
  unfoldable pub get_new_or_existing_image : Frame Image → Bytes → Result (Frame Image × ℕ)
  unfolding get_new_image
  get_new_or_existing_image f name = elim (find_name 0 name f.image_names) [
    | some i ↦ returns (f, i)
    | none ↦ get_new_image f name
  ]

  -- `set_display_time`, `set_display_name` and `set_display_stats`.
  abbrev pub set_display_time : Frame Image → Bytes → Frame Image
  set_display_time f t = record f { display_time = t }

  abbrev pub set_display_name : Frame Image → Bytes → Frame Image
  set_display_name f n = record f { display_name = n }

  abbrev pub set_display_stats : Frame Image → Bytes → Frame Image
  set_display_stats f s = record f { display_stats = s }

-- OpenCV: whether an image is empty, its encoding at a quality, and the picture with border, overlay and
-- texts.
module _ {Image : Type 0} (is_empty_image : Image → Bool) (encode : Option ℕ → Image → Bytes)
    (render : Image → Image → Frame Image → Image) where
  -- An image that is there, and is not empty.
  abbrev pub existing : Option Image → Result Image
  existing none = throws no_data
  existing (some image) = returns image

  abbrev pub with_data : Image → Result Image
  with_data image = if is_empty_image image then throws no_data else returns image

  abbrev pub encode_slot : Option ℕ → Option Image → Result Bytes
  encode_slot quality slot = do
    image ← existing slot
    image ← with_data image
    returns (encode quality image)

  abbrev pub encode_display : Option Image → Option Image → Frame Image → Result Bytes
  encode_display original overlay f = do
    original ← existing original
    overlay ← existing overlay
    original ← with_data original
    returns (encode none (render original overlay f))

  -- `get_original_with_overlay_image_as_jpg`.
  unfoldable pub get_original_with_overlay_image_as_jpg : Frame Image → Result Bytes
  get_original_with_overlay_image_as_jpg f =
      encode_display (get_elem? f.images 0) (get_elem? f.images 1) f

  -- `get_original_image_as_jpg`.
  unfoldable pub get_original_image_as_jpg : Frame Image → Result Bytes
  get_original_image_as_jpg f = encode_slot (some 90) (get_elem? f.images 0)

  -- `get_image_as_jpg` of one name.
  unfoldable pub get_image_as_jpg : Frame Image → Bytes → Result Bytes
  unfolding get_original_with_overlay_image_as_jpg get_image
  get_image_as_jpg f name =
      if bytes_eq name (codes "main")
      then get_original_with_overlay_image_as_jpg f
      else do i ← get_image f name; encode_slot none (get_elem? f.images i)

  -- What `get_image_as_jpg` of two names does once it has both images, the first at a slot.
  abbrev pub copy_over : Frame Image → ℕ → Image → Image → Frame Image × Bytes
  copy_over f i first second =
      if is_empty_image second
      then (f, encode none first)
      else (record f { images = modify i (λ x. second) f.images }, encode none second)

  -- `get_image_as_jpg` of two names, which leaves the second image in the place of the first.
  unfoldable pub get_both_images_as_jpg : Frame Image → Bytes → Bytes → Result (Frame Image × Bytes)
  unfolding get_image
  get_both_images_as_jpg f name1 name2 = do
    i ← get_image f name1
    first ← existing (get_elem? f.images i)
    first ← with_data first
    j ← get_image f name2
    second ← existing (get_elem? f.images j)
    returns (copy_over f i first second)
