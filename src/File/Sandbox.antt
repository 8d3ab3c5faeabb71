-- ===== src/File/Sandbox.antt =====
-- A key never leads out of the root directory.
use gufo_blob.Base.{
  ℕ, ◌||◌, List, [], ◌∷◌, ◌++◌, Option, none, some, ◌==◌, Text, codes, text_eq, text_eq_iff, All,
  All-append, ◌≡◌, ◌≢◌, refl, sym, ◌∙◌, arith, Bool-cases, inl, inr,
}
use gufo_blob.Base.Result.{Result, Error, ok}
use gufo_blob.Ftp.Common.Methods.{split, join, but_last, onto}
use gufo_blob.Ftp.Common.Methods.Laws.{Lacks}
use gufo_blob.File.{walk, walk_all, relative_to, starts_bad, inside, bad_names, unless_bad, resolve}

-- A name of a file or a directory: not empty, no dots that stand for a directory, and no slash.
abbrev pub IsName : Text → Type 0
IsName c = (c ≢ []) × (c ≢ codes ".") × (c ≢ codes "..") × Lacks b'/' c

pub split-Lacks_all : (sep : ℕ) (s : Text) → All (Lacks sep) (split sep s)
unfolding split
split-Lacks_all sep [] = (tt, tt)
split-Lacks_all sep (c ∷ s) = elim (Bool-cases (c == sep)) [
  | inl e ↦ rw (e, split) (tt, split-Lacks_all sep s)
  | inr e ↦ rw (e, split) (onto-Lacks c (split sep s) (ground arith) (split-Lacks_all sep s))
]
  where
    onto-Lacks :
        (d : ℕ) (ps : List Text) → d ≢ sep → All (Lacks sep) ps → All (Lacks sep) (onto d ps)
    onto-Lacks d [] h k = ((h, tt), tt)
    onto-Lacks d (p ∷ ps) h (k, ks) = ((h, k), ks)

pub but_last-All : (P : Text → Type 0) (p : List Text) → All P p → All P (but_last p)
unfolding but_last
but_last-All P [] h = tt
but_last-All P (c ∷ []) h = tt
but_last-All P (c ∷ d ∷ p) (h, hs) = (h, but_last-All P (d ∷ p) hs)

walk-IsName :
    (p : List Text) (name : Text) → All IsName p → Lacks b'/' name → All IsName (walk p name)
unfolding walk
walk-IsName p name h k = elim (Bool-cases (text_eq name [] || text_eq name (codes "."))) [
  | inl e ↦ rw (e, walk) h
  | inr e ↦ elim (Bool-cases (text_eq name (codes ".."))) [
    | inl f ↦ rw (e, f, walk) (but_last-All IsName p h)
    | inr f ↦
        rw (e, f, walk)
          (All-append IsName p (name ∷ []) h (
            (
              ground (arith, text_eq_iff name [], text_eq_iff name (codes ".")),
              ground (arith, text_eq_iff name [], text_eq_iff name (codes ".")),
              ground (arith, text_eq_iff name (codes "..")),
              k,
            ),
            tt,
          ))
  ]
]

walk_all-IsName :
    (p names : List Text) → All IsName p → All (Lacks b'/') names → All IsName (walk_all p names)
unfolding walk_all
walk_all-IsName p [] h k = h
walk_all-IsName p (name ∷ names) h (k, ks) =
    walk_all-IsName (walk p name) names (walk-IsName p name h k) ks

relative_to-append : (root p rest : List Text) → relative_to root p ≡ some rest → p ≡ root ++ rest
unfolding relative_to
relative_to-append [] p rest h = cc
relative_to-append (r ∷ root) [] rest h = absurd (cc)
relative_to-append (r ∷ root) (c ∷ p) rest h =
    ground (arith, relative_to-append root p rest, text_eq_iff r c)

All-drop : (P : Text → Type 0) (p q : List Text) → All P (p ++ q) → All P q
All-drop P [] q h = h
All-drop P (c ∷ p) q (h, hs) = All-drop P p q hs

inside-ok :
    (o : Option (List Text)) {path : Text}
    → inside o ≡ ok path
    → (names : List Text) × (o ≡ some names) × (path ≡ join b'/' names)
inside-ok none h = absurd (cc)
inside-ok (some names) h = (names, refl, cc)

unless_bad-ok :
    (o : Option Error) (r : Result Text) {path : Text} → unless_bad o r ≡ ok path → r ≡ ok path
unless_bad-ok none r h = h
unless_bad-ok (some e) r h = absurd (cc)

-- Whatever the key, a path that is resolved lies below the root: the names on the way, of which none
-- is empty, a dot, two dots or has a slash, lead from the root to the place that the key names.
pub resolve_sound :
    (root : List Text) (key : Text) {path : Text}
    → All IsName root
    → resolve root key ≡ ok path
    → (names : List Text) × (path ≡ join b'/' names)
      × All IsName names
      × (walk_all root (split b'/' key) ≡ root ++ names)
unfolding resolve
resolve_sound root key {path} w h = elim (Bool-cases (starts_bad key)) [
  | inl e ↦ absurd (ground (arith, e))
  | inr e ↦
      let p = walk_all root (split b'/' key) in
      let (names, f, g) = inside-ok (relative_to root p) (
        unless_bad-ok (bad_names (split b'/' key)) (inside (relative_to root p))
          (sym (rw e refl) ∙ h)) in
      let k = relative_to-append root p names f in
      (
        names,
        g,
        All-drop IsName root names
            (rw (← k) (walk_all-IsName root (split b'/' key) w (split-Lacks_all b'/' key))),
        k,
      )
]
