-- ===== src/Stream/Directory/Numbers.antt =====
-- The numbers that the directory gives its streams (src/GUI/StreamDirectory.cpp).
use sec_mon.Prelude.{
  ℕ, suc, ◌^◌, ◌<◌, ◌≤◌, ◌≡◌, refl, subst, inl, inr, ◌⊎◌, true, false, none, some, List, [], ◌∷◌,
  ◌==◌, if◌then◌else◌, arith, Bool-cases,
}
use sec_mon.Stream.{Stream, new_stream, register_new_connection}
use sec_mon.Stream.Directory.{
  Directory, new_directory, find, insert, update, add_stream, register, handle_valid_stream,
}
use sec_mon.Stream.Directory.Lookup.{stream_path, handle_valid_stream-stream_path}

-- The entries of the keys `k`, `k + 1` and so on.
abbrev Numbered : ℕ → List (ℕ × Stream) → ℕ → Type 0
Numbered k [] n = k ≡ n
Numbered k ((j, s) ∷ m) n = (j ≡ k) × (s.stream_id ≡ k) × Numbered (suc k) m n

-- The keys are 1, 2, ..., `stream_id`, in this order, and each stream knows its number.
abbrev pub IsDirectory : Directory → Type 0
IsDirectory d = Numbered 1 d.stream_list (suc d.stream_id)

Numbered-le : (k : ℕ) (m : List (ℕ × Stream)) (n : ℕ) → Numbered k m n → k ≤ n
Numbered-le k [] n h = omega arith
Numbered-le k ((j, s) ∷ m) n h = omega (arith, Numbered-le (suc k) m n h.2)

insert-Numbered :
    (k : ℕ) (m : List (ℕ × Stream)) (n signal : ℕ)
    → Numbered k m n
    → Numbered k (insert n (new_stream signal n) m) (suc n)
unfolding insert
insert-Numbered k [] n signal h = ground arith
insert-Numbered k ((j, s) ∷ m) n signal h =
    ground (arith, Numbered-le (suc k) m n h.2, insert-Numbered (suc k) m n signal h.2)

update-Numbered :
    (k : ℕ) (m : List (ℕ × Stream)) (n j : ℕ) (f : Stream → Stream)
    → ((s : Stream) → (f s).stream_id ≡ s.stream_id)
    → Numbered k m n
    → Numbered k (update j f m) n
unfolding update
update-Numbered k [] n j f e h = h
update-Numbered k ((i, s) ∷ m) n j f e h =
    ground (arith, e s, update-Numbered (suc k) m n j f e h.2)

find-Numbered :
    (k : ℕ) (m : List (ℕ × Stream)) (n j : ℕ)
    → Numbered k m n
    → k ≤ j
    → j < n
    → (s : Stream) × (find j m ≡ some s) × (s.stream_id ≡ j)
unfolding find
find-Numbered k [] n j h a b = absurd (omega arith)
find-Numbered k ((i, s) ∷ m) n j h a b = elim (Bool-cases (i == j)) [
  | inl same ↦ (s, ground arith, ground arith)
  | inr other ↦
      let (t, e, f) = find-Numbered (suc k) m n j h.2 (ground arith) b in (t, rw (other, find) e, f)
]

find_outside :
    (k : ℕ) (m : List (ℕ × Stream)) (n j : ℕ) → Numbered k m n → (j < k) ⊎ (n ≤ j) → find j m ≡ none
unfolding find
find_outside k [] n j h a = refl
find_outside k ((i, s) ∷ m) n j h a =
    ground (arith, Numbered-le (suc k) m n h.2, find_outside (suc k) m n j h.2)

find-update :
    (j i : ℕ) (f : Stream → Stream) (m : List (ℕ × Stream))
    → find i (update j f m)
      ≡ (if i == j then elim (find i m) [ none ↦ none | some s ↦ some (f s) ] else find i m)
unfolding find update
find-update j i f [] = ground arith
find-update j i f ((k, s) ∷ m) = ground (arith, find-update j i f m)

pub new_directory-IsDirectory : IsDirectory new_directory
new_directory-IsDirectory = refl

-- Adding a stream to a directory with its streams numbered from 1 keeps them numbered.
pub add_stream-IsDirectory :
    (d : Directory) (signal : ℕ) → IsDirectory d → IsDirectory (add_stream d signal)
unfolding add_stream
add_stream-IsDirectory d signal h =
    subst (λ n. Numbered 1 (insert n (new_stream signal n) d.stream_list) (suc n)) (omega arith)
      (insert-Numbered 1 d.stream_list (suc d.stream_id) signal h)

register_at_id : (s : Stream) (conn : ℕ) → (register_new_connection s conn).stream_id ≡ s.stream_id
unfolding register_new_connection
register_at_id s conn = refl

-- A request for stream `k`, an `int` that a directory with its streams numbered from 1 has given out, is
-- served: the connection is registered with the stream of that number, every other entry is as it was,
-- and the streams stay numbered.
pub handle_valid_stream_served :
    (d : Directory) (k conn : ℕ)
    → IsDirectory d
    → 1 ≤ k
    → k ≤ d.stream_id
    → k < 2 ^ 31
    → (s : Stream) × (find k d.stream_list ≡ some s)
      × (s.stream_id ≡ k)
      × (let r = handle_valid_stream d (stream_path k) conn in
          (r.1 ≡ true)
          × IsDirectory r.0
          × ((i : ℕ)
              → find i r.0.stream_list
                ≡ (if i == k then some (register_new_connection s conn) else find i d.stream_list)))
unfolding register
handle_valid_stream_served d k conn h a b c =
    let (s, e, f) = find-Numbered 1 d.stream_list (suc d.stream_id) k h a (omega arith) in
    (
      s,
      e,
      f,
      rw (handle_valid_stream-stream_path d k conn c, e)
          (
            refl,
            update-Numbered 1 d.stream_list (suc d.stream_id) k _ (λ t. register_at_id t conn) h,
            λ i.
                ground
                  (arith, find-update k i (λ t. register_new_connection t conn) d.stream_list, e),
          ),
    )

-- A request for a number below 2^31 that a directory with its streams numbered from 1 has not given out is
-- refused, and the directory stays as it was.
pub handle_valid_stream_refused :
    (d : Directory) (k conn : ℕ)
    → IsDirectory d
    → (k ≡ 0) ⊎ (d.stream_id < k)
    → k < 2 ^ 31
    → handle_valid_stream d (stream_path k) conn ≡ (d, false)
unfolding register
handle_valid_stream_refused d k conn h a c = rw (
  handle_valid_stream-stream_path d k conn c,
  find_outside 1 d.stream_list (suc d.stream_id) k h (ground arith),
)
