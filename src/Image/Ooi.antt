-- ===== src/Image/Ooi.antt =====
-- src/ObjectProcessing/OOI.cpp: an object that is followed from frame to frame.
use sec_mon.Prelude.{◌≡◌, ◌⊎◌, inl, inr, refl, ap, arith, ltb→lt, Bool-cases, if◌then◌else◌}
use sec_mon.Prelude.Text.{Bytes, codes}
use sec_mon.Prelude.Int.{
  ℤ, pos, negsuc, ◌+ℤ◌, ◌-ℤ◌, ◌≤ℤ◌, ◌<ℤ◌, pos_part, neg_part, ltb_ℤ, min_ℤ, int_laws,
}
use sec_mon.Image.{Rect, Covers}

-- `id_`, `current_pos_`, `classification_` and the frames of the first sighting and the last updates; the
-- state is always `newOOI` and the type `unknown`.
pub record Ooi : Type 0 where
  pub id : ℤ
  pub current_pos : Rect
  pub classification : Bytes
  pub first_frame : ℤ
  pub last_id_frame : ℤ
  pub last_update_frame_id : ℤ

-- The constructor.
abbrev pub new_ooi : ℤ → Rect → ℤ → Ooi
new_ooi id position frame_id = record {
  id = id;
  current_pos = position;
  classification = codes "none";
  first_frame = frame_id;
  last_id_frame = negsuc 0;
  last_update_frame_id = frame_id;
}

-- `update_position`, `set_classification`, `set_last_id_frame` and `set_last_update_frame_id`.
abbrev pub update_position : Ooi → Rect → ℤ → Ooi
update_position o r frame_id = record o { current_pos = r; last_update_frame_id = frame_id }

abbrev pub set_classification : Ooi → Bytes → Ooi
set_classification o c = record o { classification = c }

abbrev pub set_last_id_frame : Ooi → ℤ → Ooi
set_last_id_frame o frame_id = record o { last_id_frame = frame_id }

abbrev pub set_last_update_frame_id : Ooi → ℤ → Ooi
set_last_update_frame_id o frame_id = record o { last_update_frame_id = frame_id }

-- The two tests of `ResizeRect` on a position and a size.
abbrev pub grow_start : ℤ → ℤ → ℤ → ℤ × ℤ
grow_start delta start size =
    if ltb_ℤ (delta -ℤ pos 1) start then (start -ℤ delta, size +ℤ delta) else (start, size)

-- The end of `ResizeRect` for one side.
abbrev pub grow_end : ℤ → ℤ → ℤ × ℤ → ℤ
grow_end delta max (start, size) = size +ℤ min_ℤ delta (max -ℤ (start +ℤ size))

-- `ResizeRect`.
unfoldable pub resize_rect : Ooi → ℤ → ℤ → ℤ → Rect
resize_rect o delta max_width max_height =
    let across = grow_start delta o.current_pos.x o.current_pos.width in
    let down = grow_start delta o.current_pos.y o.current_pos.height in
    record {
      x = across.0;
      y = down.0;
      width = grow_end delta max_width across;
      height = grow_end delta max_height down;
    }

-- `get_rect_for_display` and `get_rect_for_classification`.
unfoldable pub get_rect_for_display : Ooi → ℤ → ℤ → Rect
unfolding resize_rect
get_rect_for_display o max_width max_height = resize_rect o (pos 2) max_width max_height

unfoldable pub get_rect_for_classification : Ooi → ℤ → ℤ → Rect
unfolding resize_rect
get_rect_for_classification o max_width max_height = resize_rect o (pos 10) max_width max_height

-- The start and the size of one side, before and after.
abbrev IsGrown : ℤ → ℤ → ℤ → ℤ → ℤ × ℤ → Type 0
IsGrown delta max start size (a, b) =
    (pos 0 ≤ℤ a)
    × (a ≤ℤ start)
    × ((start -ℤ delta) ≤ℤ a)
    × ((start +ℤ size) ≤ℤ (a +ℤ b))
    × ((a +ℤ b) ≤ℤ (pos 0 +ℤ max))
    × ((a +ℤ b) ≤ℤ ((start -ℤ delta) +ℤ (size +ℤ delta +ℤ delta)))

min_cases : (a b : ℤ) → ((min_ℤ a b ≡ a) × (a ≤ℤ b)) ⊎ ((min_ℤ a b ≡ b) × (b ≤ℤ a))
unfolding min_ℤ
min_cases a b = elim (Bool-cases (ltb_ℤ b a)) [
  | inl e ↦ inr (rw e refl, ground arith)
  | inr e ↦ inl (rw e refl, ground arith)
]

grow_end-IsGrown :
    (delta max start size a b : ℤ)
    → pos 0 ≤ℤ delta
    → (start +ℤ size) ≤ℤ (pos 0 +ℤ max)
    → pos 0 ≤ℤ a
    → a ≤ℤ start
    → (start -ℤ delta) ≤ℤ a
    → a +ℤ b ≡ start +ℤ size
    → IsGrown delta max start size (a, grow_end delta max (a, b))
grow_end-IsGrown delta max start size a b d m h k l e = elim (min_cases delta (max -ℤ (a +ℤ b))) [
  | inl (f, g) ↦ rw f (
    h,
    k,
    l,
    omega (int_laws, ap pos_part e, ap neg_part e),
    omega (int_laws, ap pos_part e, ap neg_part e),
    omega (int_laws, ap pos_part e, ap neg_part e),
  )
  | inr (f, g) ↦ rw f (
    h,
    k,
    l,
    omega (int_laws, ap pos_part e, ap neg_part e),
    omega (int_laws, ap pos_part e, ap neg_part e),
    omega (int_laws, ap pos_part e, ap neg_part e),
  )
]

grow-IsGrown :
    (delta max start size : ℤ)
    → pos 0 ≤ℤ delta
    → pos 0 ≤ℤ start
    → (start +ℤ size) ≤ℤ (pos 0 +ℤ max)
    → IsGrown delta max start size
        ((grow_start delta start size).0, grow_end delta max (grow_start delta start size))
grow-IsGrown delta max start size d h m = elim (Bool-cases (ltb_ℤ (delta -ℤ pos 1) start)) [
  | inl e ↦
      let past : (delta -ℤ pos 1) <ℤ start = ltb→lt _ _ e in
      rw e (
        grow_end-IsGrown delta max start size (start -ℤ delta) (size +ℤ delta) d m
          (omega (int_laws, past)) (omega int_laws) (omega int_laws) (omega int_laws))
  | inr e ↦ rw e (
      grow_end-IsGrown delta max start size start size d m h (omega int_laws) (omega int_laws) refl)
]

-- For an object inside an image, and a margin that is not negative, the resized rectangle covers the
-- object, lies inside the image, and reaches past the object by at most the margin on each side.
pub resize_rect-Covers :
    (o : Ooi) (delta max_width max_height : ℤ)
    → pos 0 ≤ℤ delta
    → Covers (record { x = pos 0; y = pos 0; width = max_width; height = max_height }) o.current_pos
    → (let r = resize_rect o delta max_width max_height in
        let p = o.current_pos in
        Covers r p
        × Covers (record { x = pos 0; y = pos 0; width = max_width; height = max_height }) r
        × Covers
            (record {
              x = p.x -ℤ delta;
              y = p.y -ℤ delta;
              width = p.width +ℤ delta +ℤ delta;
              height = p.height +ℤ delta +ℤ delta;
            })
            r)
unfolding resize_rect
resize_rect-Covers o delta max_width max_height d h =
    let (a, b, c, e, f, g) =
      grow-IsGrown delta max_width o.current_pos.x o.current_pos.width d h.left h.right in
    let (k, l, m, n, p, q) =
      grow-IsGrown delta max_height o.current_pos.y o.current_pos.height d h.top h.bottom in
    (
      record { left = b; top = l; right = e; bottom = n },
      record { left = a; top = k; right = f; bottom = p },
      record { left = c; top = m; right = g; bottom = q },
    )
