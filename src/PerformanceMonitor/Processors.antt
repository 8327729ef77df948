-- ===== src/PerformanceMonitor/Processors.antt =====
-- The lines of `/proc/cpuinfo` that src/PerformanceMonitor.cpp counts, whose buffer takes 127 characters.
use sec_mon.Prelude.{
  ℕ, zero, suc, ◌+◌, ◌≤◌, ◌≡◌, ◌≢◌, refl, ap, ◌∙◌, false, ◌==◌, if◌then◌else◌, List, [], ◌∷◌, ◌++◌,
  length, length-append, All, arith,
}
use sec_mon.Prelude.Text.{Bytes, codes}
use sec_mon.PerformanceMonitor.{fgets, starts_with, count_processors, processors_in}

-- The text of lines, each with its end.
unfoldable pub text_of : List Bytes → Bytes
text_of [] = []
text_of (l ∷ ls) = l ++ 10 ∷ text_of ls

-- How many lines start with the word.
unfoldable pub processor_lines : List Bytes → ℕ
processor_lines [] = 0
processor_lines (l ∷ ls) =
    (if starts_with (codes "processor") (l ++ 10 ∷ []) then 1 else 0) + processor_lines ls

-- A line that fits into the buffer with its end.
abbrev pub IsShort : Bytes → Type 0
IsShort l = (length l ≤ 126) × All (λ c. c ≢ 10) l

fgets_line :
    (n : ℕ) (l rest : Bytes)
    → length l ≤ n
    → All (λ c. c ≢ 10) l
    → fgets (suc n) (l ++ 10 ∷ rest) ≡ (l ++ 10 ∷ [], rest)
unfolding fgets
fgets_line n [] rest h a = refl
fgets_line zero (c ∷ l) rest h a = absurd (omega arith)
fgets_line (suc n) (c ∷ l) rest h a =
    let other : (c == 10) ≡ false = ground (arith, a.0) in
    rw (other, fgets_line n l rest (omega arith) a.1) refl

count_nothing : (fuel : ℕ) → count_processors fuel [] ≡ 0
unfolding count_processors
count_nothing zero = refl
count_nothing (suc fuel) = refl

count_line :
    (fuel : ℕ) (l rest : Bytes)
    → IsShort l
    → count_processors (suc fuel) (l ++ 10 ∷ rest)
      ≡ (if starts_with (codes "processor") (l ++ 10 ∷ []) then 1 else 0)
        + count_processors fuel rest
unfolding count_processors
count_line fuel [] rest a = rw (fgets_line 126 [] rest (omega arith) tt, count_processors) refl
count_line fuel (c ∷ l) rest a = rw (fgets_line 126 (c ∷ l) rest a.0 a.1, count_processors) refl

count_processors-lines :
    (fuel : ℕ) (ls : List Bytes)
    → length (text_of ls) ≤ fuel
    → All IsShort ls
    → count_processors fuel (text_of ls) ≡ processor_lines ls
unfolding text_of processor_lines
count_processors-lines zero [] h a = count_nothing zero
count_processors-lines (suc fuel) [] h a = count_nothing (suc fuel)
count_processors-lines zero (l ∷ ls) h a = absurd (omega (arith, length-append l (10 ∷ text_of ls)))
count_processors-lines (suc fuel) (l ∷ ls) h a =
    count_line fuel l (text_of ls) a.0
    ∙ ap (λ n. (if starts_with (codes "processor") (l ++ 10 ∷ []) then 1 else 0) + n)
        (count_processors-lines fuel ls (omega (arith, length-append l (10 ∷ text_of ls))) a.1)

-- On a file whose lines fit into the buffer, the count is that of the lines that start with "processor".
pub processors_in-lines :
    (ls : List Bytes) → All IsShort ls → processors_in (text_of ls) ≡ processor_lines ls
unfolding processors_in
processors_in-lines ls a = count_processors-lines (length (text_of ls)) ls (omega arith) a
