-- ===== src/Http/Handler/Paths.antt =====
-- The paths of the files that the request handler opens (src/GUI/RequestHandler.cpp).
use mathlib.Core.Path.{ap₂}
use sec_mon.Prelude.{
  subst, ℕ, ◌≡◌, ◌≢◌, refl, ap, ◌∙◌, inl, inr, true, false, Option, List, [], ◌∷◌, ◌++◌, arith,
  ◌==◌, if◌then◌else◌, All, Bool-cases, List-cases, Option-cases,
}
use sec_mon.Prelude.Text.{Bytes, codes}
use sec_mon.Http.Request.{Request}
use sec_mon.Http.Reply.{Reply}
use sec_mon.Stream.Directory.{Directory}
use sec_mon.Http.Handler.UrlDecode.{url_decode}
use sec_mon.Http.Handler.{
  has_dots, is_refused, ends_in_slash, with_index, c_str, send_file, respond, handle_request,
}

abbrev push : ℕ → List Bytes → List Bytes
push c [] = (c ∷ []) ∷ []
push c (s ∷ ss) = (c ∷ s) ∷ ss

-- The components of a path.
pub segments : Bytes → List Bytes
segments [] = [] ∷ []
segments (c ∷ cs) = if c == b'/' then [] ∷ segments cs else push c (segments cs)

abbrev pub dot_dot : Bytes
dot_dot = b'.' ∷ b'.' ∷ []

-- A file name below `root`: no component leads back up.
pub record IsUnder (root name : Bytes) : Type 0 where
  pub path : Bytes
  pub splits : name ≡ root ++ b'/' ∷ path
  pub stays : All (λ s. s ≢ dot_dot) (segments path)

-- A path whose first component is one dot begins with a dot.
first_dot :
    (cs : Bytes) (ss : List Bytes)
    → segments cs ≡ (b'.' ∷ []) ∷ ss
    → (ds : Bytes) × (cs ≡ b'.' ∷ ds)
unfolding segments
first_dot [] ss e = absurd cc
first_dot (c ∷ cs) ss e = elim (Bool-cases (c == b'/')) [
  | inl slash ↦ absurd (ground arith)
  | inr other ↦ elim (List-cases (segments cs)) [
    | inl f ↦ (cs, ground arith)
    | inr (s, rest, f) ↦ (cs, ground arith)
  ]
]

has_dots-tail : (c : ℕ) (cs : Bytes) → has_dots (c ∷ cs) ≡ false → has_dots cs ≡ false
unfolding has_dots
has_dots-tail c [] h = refl
has_dots-tail c (d ∷ cs) h = ground arith

two_dots : (ds : Bytes) → has_dots (b'.' ∷ b'.' ∷ ds) ≡ false → ⊥
unfolding has_dots
two_dots ds h = cc

push-stays :
    (c : ℕ) (cs : Bytes) (ss : List Bytes)
    → segments cs ≡ ss
    → has_dots (c ∷ cs) ≡ false
    → All (λ s. s ≢ dot_dot) ss
    → All (λ s. s ≢ dot_dot) (push c ss)
push-stays c cs [] e h a = ((λ f. cc), tt)
push-stays c cs (s ∷ ss) e h a = (keep, a.1)
  where
    keep : (c ∷ s) ≢ dot_dot
    keep f =
        let one : s ≡ b'.' ∷ [] = cc in
        let (ds, g) = first_dot cs ss (e ∙ ap (λ t. t ∷ ss) one) in
        let start : c ≡ b'.' = cc in
        two_dots ds (subst (λ b. has_dots b ≡ false) (ap₂ ◌∷◌ start g) h)

-- A text with no two dots in a row has no component of two dots.
segments-stays : (cs : Bytes) → has_dots cs ≡ false → All (λ s. s ≢ dot_dot) (segments cs)
unfolding segments
segments-stays [] h = ((λ f. cc), tt)
segments-stays (c ∷ cs) h = elim (Bool-cases (c == b'/')) [
  | inl slash ↦ rw (slash, segments) ((λ f. cc), segments-stays cs (has_dots-tail c cs h))
  | inr other ↦
      rw (other, segments)
        (push-stays c cs (segments cs) refl h (segments-stays cs (has_dots-tail c cs h)))
]

has_dots-c_str : (cs : Bytes) → has_dots cs ≡ false → has_dots (c_str cs) ≡ false
unfolding has_dots c_str
has_dots-c_str [] h = refl
has_dots-c_str (c ∷ []) h = ground arith
has_dots-c_str (c ∷ d ∷ cs) h = ground (arith, has_dots-c_str (d ∷ cs))

c_str-append : (root cs : Bytes) → All (λ b. b ≢ 0) root → c_str (root ++ cs) ≡ root ++ c_str cs
unfolding c_str
c_str-append [] cs h = refl
c_str-append (r ∷ root) cs h = ground (arith, c_str-append root cs h.1)

has_dots-index :
    (cs : Bytes)
    → ends_in_slash cs ≡ true
    → has_dots cs ≡ false
    → has_dots (cs ++ codes "index.html") ≡ false
unfolding has_dots ends_in_slash
has_dots-index [] e h = absurd cc
has_dots-index (c ∷ []) e h = ground arith
has_dots-index (c ∷ d ∷ cs) e h = ground (arith, has_dots-index (d ∷ cs) e)

-- A path that passed the tests, with its index page: it is absolute and has no two dots in a row.
abbrev IsAbsolute : Bytes → Type 0
IsAbsolute p = (q : Bytes) × (p ≡ b'/' ∷ q) × (has_dots p ≡ false)

with_index-IsAbsolute : (p : Bytes) → is_refused p ≡ false → IsAbsolute (with_index p)
unfolding with_index is_refused
with_index-IsAbsolute [] h = absurd cc
with_index-IsAbsolute (c ∷ cs) h = elim (Bool-cases (ends_in_slash (c ∷ cs))) [
  | inl slash ↦
      rw (slash, with_index)
        (cs ++ codes "index.html", ground arith, has_dots-index (c ∷ cs) slash (ground arith))
  | inr page ↦ rw (page, with_index) (cs, ground arith, ground arith)
]

opened-IsUnder :
    (root p : Bytes) → All (λ b. b ≢ 0) root → IsAbsolute p → IsUnder root (c_str (root ++ p))
opened-IsUnder root p h (q, e, d) = record {
  path = c_str q;
  splits = c_str-append root p h ∙ ap (◌++◌ root) (ap c_str e ∙ unfold c_str in refl);
  stays = segments-stays (c_str q) (has_dots-c_str q (has_dots-tail b'/' q (rw e at d)));
}

-- Whatever the request is, the handler's answer depends only on the files below the document root: two
-- file systems that agree there give the same answer. The root itself has no NUL in it.
pub handle_request-IsUnder :
    (open_file open_other : Bytes → Option Bytes) (root : Bytes)
    → All (λ b. b ≢ 0) root
    → ((name : Bytes) → IsUnder root name → open_file name ≡ open_other name)
    → (d : Directory) (req : Request) (rep : Reply) (conn : ℕ)
    → handle_request open_file root d req rep conn ≡ handle_request open_other root d req rep conn
unfolding handle_request respond send_file
handle_request-IsUnder open_file open_other root h agree d req rep conn =
    elim (Option-cases (url_decode req.uri)) [
      | inl e ↦ rw (e, handle_request)
      | inr (p, e) ↦ elim (Bool-cases (is_refused p)) [
        | inl bad ↦ rw (e, handle_request) (rw (bad, ◌≡◌))
        | inr good ↦
            let same =
              agree _ (opened-IsUnder root (with_index p) h (with_index-IsAbsolute p good)) in
            rw (e, handle_request) (ground (arith, same))
      ]
    ]
