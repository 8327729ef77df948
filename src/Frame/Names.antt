-- ===== src/Frame/Names.antt =====
-- The names of a frame's images (src/Frame.cpp): one slot for each, and what each operation does to
-- them.
use sec_mon.Prelude.{
  ℕ, ◌≡◌, ◌≢◌, refl, sym, ap, ◌∙◌, ◌⊎◌, inl, inr, if◌then◌else◌, none, some, [], All, arith, length,
  Option-cases,
}
use sec_mon.Prelude.Text.{Bytes, bytes_eq, bytes_eq_refl}
use sec_mon.Frame.{
  Frame, already_registered, no_available_images, not_registered, Result, throws, returns,
  find_name, Slot, take_slot, get_image, get_new_image, get_new_or_existing_image, with_names,
}
use sec_mon.Frame.Slots.{IsPacked, Taken, already, full, taken, find_name_distinct, take_slot-Taken}

-- The outcomes of registering a name.
pub data Registered {Image : Type 0} (f : Frame Image) (name : Bytes)
    : Result (Frame Image × ℕ) → Type 0 where
  was_registered :
      (j : ℕ) → get_image f name ≡ returns j → Registered f name (throws already_registered)
  was_full :
      get_image f name ≡ throws not_registered
      → All (λ m. m ≢ []) f.image_names
      → Registered f name (throws no_available_images)
  registered :
      (g : Frame Image) (i : ℕ)
      → get_image f name ≡ throws not_registered
      → g.images ≡ f.images
      → IsPacked g.image_names
      → length g.image_names ≡ length f.image_names
      → ((m : Bytes)
          → m ≢ []
          → get_image g m ≡ (if bytes_eq name m then returns i else get_image f m))
      → ((m : Bytes) → m ≢ [] → get_image f m ≢ returns i)
      → Registered f name (returns (g, i))

module _ {Image : Type 0} where
  Taken-Registered :
      (f : Frame Image) (name : Bytes) (r : Result Slot)
      → Taken 0 name f.image_names r
      → Registered f name (with_names f r)
  unfolding get_image
  Taken-Registered f name _ (already j e) = was_registered j (rw e refl)
  Taken-Registered f name _ (full e a) = was_full (rw e refl) a
  Taken-Registered f name _ (taken s e b p l k v) =
      registered (record f { image_names = s.names }) s.index (rw e refl) refl p l
        (λ m h. ground (arith, k m h)) (λ m h. let other = v m h in λ g. ground arith)

  -- In a frame whose used slots come first, registering a name that is not empty either takes a slot
  -- that no other name has, leaves every other name where it was and the used slots first; or throws
  -- since the name has an image already; or throws since it has none and all slots are used.
  pub get_new_image-Registered :
      (f : Frame Image) (name : Bytes)
      → name ≢ []
      → IsPacked f.image_names
      → Registered f name (get_new_image f name)
  unfolding get_new_image
  get_new_image-Registered f name h p =
      Taken-Registered f name (take_slot 0 name f.image_names)
        (take_slot-Taken 0 name f.image_names h p)

  Taken-found :
      (f g : Frame Image) (name : Bytes) (i : ℕ) (r : Result Slot)
      → name ≢ []
      → Taken 0 name f.image_names r
      → with_names f r ≡ returns (g, i)
      → find_name 0 name g.image_names ≡ some i
  Taken-found f g name i _ h (already j e) w = absurd cc
  Taken-found f g name i _ h (full e a) w = absurd cc
  Taken-found f g name i _ h (taken s e b p l k v) w =
      let same : s.names ≡ g.image_names = ground arith in
      let at : s.index ≡ i = ground arith in
      let there : find_name 0 name s.names ≡ some s.index =
        k name h ∙ rw (bytes_eq_refl name) refl in
      ap (find_name 0 name) (sym same) ∙ there ∙ ap some at

  -- No two names share an image.
  get_image-distinct :
      (f : Frame Image) (m n : Bytes) (i : ℕ)
      → get_image f m ≡ returns i
      → get_image f n ≡ returns i
      → m ≡ n
  unfolding get_image
  get_image-distinct f m n i e k =
      find_name_distinct 0 m n f.image_names i (ground arith) (ground arith)

  -- Asking for a new or existing image, with a name that is not empty, in a frame whose used slots come
  -- first: once it has returned an image, asking again and `get_image` return the same image, the frame
  -- stays as it is, and no other name has that image.
  pub get_new_or_existing_image-again :
      (f g : Frame Image) (name : Bytes) (i : ℕ)
      → name ≢ []
      → IsPacked f.image_names
      → get_new_or_existing_image f name ≡ returns (g, i)
      → (get_image g name ≡ returns i)
        × (get_new_or_existing_image g name ≡ returns (g, i))
        × ((m : Bytes) → get_image g m ≡ returns i → m ≡ name)
  unfolding get_new_or_existing_image get_image get_new_image
  get_new_or_existing_image-again f g name i h p e =
      let there : find_name 0 name g.image_names ≡ some i =
        found (Option-cases (find_name 0 name f.image_names)) in
      (
        rw there refl,
        rw (there, get_new_or_existing_image) refl,
        λ m k. get_image-distinct g m name i k (rw there refl),
      )
    where
      found :
          (find_name 0 name f.image_names ≡ none)
            ⊎ ((j : ℕ) × (find_name 0 name f.image_names ≡ some j))
          → find_name 0 name g.image_names ≡ some i
      found (inr (j, k)) = ground arith
      found (inl k) =
          Taken-found f g name i (take_slot 0 name f.image_names) h
            (take_slot-Taken 0 name f.image_names h p) (ground arith)
