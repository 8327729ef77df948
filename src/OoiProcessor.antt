-- ===== src/OoiProcessor.antt =====
-- src/ObjectProcessing/OOI_Processor.cpp: the objects of interest by number. A vector's iterator is an index.
use sec_mon.Prelude.{
  ℕ, ◌+◌, ◌%◌, ◌^◌, ◌==◌, if◌then◌else◌, Option, none, some, List, [], ◌∷◌, ◌++◌, get_elem?,
}
use sec_mon.Prelude.Int.{ℤ, pos}
use sec_mon.Image.{Rect}
use sec_mon.Image.Roi.{erase}
use sec_mon.Image.Ooi.{Ooi, new_ooi}

-- `next_ooi_id_`, an `unsigned int`, `ooi_list_`, and the frames that wait on the strand.
pub record OoiProcessor : Type 0 where
  pub next_ooi_id : ℕ
  pub ooi_list : List (ℕ × Ooi)
  pub posted : List ℤ

-- The constructor.
abbrev pub new_ooi_processor : OoiProcessor
new_ooi_processor = record { next_ooi_id = 0; ooi_list = []; posted = [] }

-- `insert` of a map, which keeps an object that is there.
unfoldable pub insert_ooi : ℕ → Ooi → List (ℕ × Ooi) → List (ℕ × Ooi)
insert_ooi id o [] = (id, o) ∷ []
insert_ooi id o ((j, u) ∷ m) =
    let rest = insert_ooi id o m in if j == id then (j, u) ∷ m else (j, u) ∷ rest

-- `create_new_ooi` of the region at an index, with the count of new objects. `none` is an access outside
-- the vector.
unfoldable pub create_new_ooi :
    ℕ → ℤ → OoiProcessor → ℕ → List Rect → Option (OoiProcessor × ℕ × List Rect)
unfolding insert_ooi erase
create_new_ooi i frame_id p new_oois rois = elim (get_elem? rois i) [
  | none ↦ none
  | some roi ↦
      let o = new_ooi (pos p.next_ooi_id) roi frame_id in
      some (
        record p {
          next_ooi_id = (p.next_ooi_id + 1) % 2 ^ 32;
          ooi_list = insert_ooi p.next_ooi_id o p.ooi_list;
        },
        new_oois + 1,
        erase i rois,
      )
]

-- `process_next_frame`, which posts `process_frame`, and that, which does nothing.
unfoldable pub process_next_frame : ℤ → OoiProcessor → OoiProcessor
process_next_frame frame_id p = record p { posted = p.posted ++ frame_id ∷ [] }

abbrev pub process_frame : OoiProcessor → OoiProcessor
process_frame p = elim p.posted [ [] ↦ p | f ∷ fs ↦ record p { posted = fs } ]
