-- ===== src/Stream/Directory.antt =====
-- src/GUI/StreamDirectory.cpp: streams by number, and the request path that names one.
pub mod Lookup
pub mod Numbers
use sec_mon.Prelude.{
  ℕ, zero, suc, ◌+◌, ◌-◌, ◌*◌, ◌^◌, Bool, true, false, ◌&&◌, ◌||◌, Option, none, some, List, [],
  ◌∷◌, ◌++◌, ◌==◌, leb, ltb, if◌then◌else◌, take, drop,
}
use sec_mon.Prelude.Int.{ℤ, pos, negsuc}
use sec_mon.Prelude.Text.{Bytes, find_last_of}
use sec_mon.Stream.{Stream, new_stream, register_new_connection}

pub record Directory : Type 0 where
  pub stream_id : ℕ
  pub stream_list : List (ℕ × Stream)

abbrev pub new_directory : Directory
new_directory = record { stream_id = 0; stream_list = [] }

module _ {ℓ} {V : Type ℓ} where
  -- `std::map::find`.
  unfoldable pub find : ℕ → List (ℕ × V) → Option V
  find k [] = none
  find k ((j, v) ∷ m) = if j == k then some v else find k m

  -- `std::map::insert`, which keeps an entry that is there.
  unfoldable pub insert : ℕ → V → List (ℕ × V) → List (ℕ × V)
  insert k v [] = (k, v) ∷ []
  insert k v ((j, w) ∷ m) = if j == k then (j, w) ∷ m else (j, w) ∷ insert k v m

  -- A call on the object that an entry points to.
  unfoldable pub update : ℕ → (V → V) → List (ℕ × V) → List (ℕ × V)
  update k f [] = []
  update k f ((j, v) ∷ m) = if j == k then (j, f v) ∷ m else (j, v) ∷ update k f m

-- `addStream`; the argument is the publisher's signal.
unfoldable pub add_stream : Directory → ℕ → Directory
unfolding insert
add_stream d signal =
    let id = d.stream_id + 1 in
    record { stream_id = id; stream_list = insert id (new_stream signal id) d.stream_list }

unfoldable pub skip_spaces : Bytes → Bytes
skip_spaces [] = []
skip_spaces (c ∷ cs) = if c == 32 || (leb 9 c && leb c 13) then skip_spaces cs else c ∷ cs

-- The digits at the front; `none` if there are none.
unfoldable pub read_digits : Option ℕ → Bytes → Option ℕ
read_digits acc [] = acc
read_digits acc (c ∷ cs) =
    if leb b'0' c && leb c b'9'
    then read_digits (some (elim acc [ none ↦ 0 | some v ↦ v * 10 ] + (c - b'0'))) cs
    else acc

abbrev in_range : (ℕ → ℤ) → ℕ → Option ℕ → Option ℤ
in_range f bound none = none
in_range f bound (some v) = if leb v bound then some (f v) else none

abbrev negate : ℕ → ℤ
negate zero = pos 0
negate (suc n) = negsuc n

unfoldable pub read_int : Bytes → Option ℤ
unfolding read_digits
read_int [] = none
read_int (c ∷ cs) =
    if c == b'-'
    then in_range negate (2 ^ 31) (read_digits none cs)
    else if c == b'+'
    then in_range pos (2 ^ 31 - 1) (read_digits none cs)
    else in_range pos (2 ^ 31 - 1) (read_digits none (c ∷ cs))

-- `std::stoi`: `none` where it throws, for want of a digit or out of an `int`'s range.
unfoldable pub stoi : Bytes → Option ℤ
unfolding skip_spaces read_int
stoi bs = read_int (skip_spaces bs)

-- A registration under an identifier, if the directory has it.
abbrev register_at : Directory → ℕ → ℕ → Option Stream → Directory × Bool
register_at d id conn none = (d, false)
register_at d id conn (some s) =
    (record d { stream_list = update id (λ t. register_new_connection t conn) d.stream_list }, true)

unfoldable pub register : Directory → ℕ → Option ℤ → Directory × Bool
unfolding find update
register d conn none = (d, false)
register d conn (some (negsuc n)) = (d, false)
register d conn (some (pos id)) = register_at d id conn (find id d.stream_list)

-- `streamRequest.substr(1, last_dot_pos + 1)`.
abbrev pub filename : Bytes → ℕ → Bytes
filename path dot = take (dot + 1) (drop 1 path)

-- `handleValidStream`, whose result says whether the path names a stream.
unfoldable pub handle_valid_stream : Directory → Bytes → ℕ → Directory × Bool
handle_valid_stream d path conn = elim (find_last_of b'.' path) [
  | none ↦ (d, false)
  | some dot ↦ register d conn (stoi (filename path dot))
]
