-- ===== src/Ftp/Common/Methods/Laws.antt =====
-- Laws of `split` and `join`.
use gufo_blob.Base.{ℕ, List, [], ◌∷◌, ◌++◌, Text, ◌≡◌, ◌≢◌, refl, arith, All, append_assoc}
use gufo_blob.Ftp.Common.Methods.{split, join, onto, but_last}

abbrev pub Lacks : ℕ → Text → Type 0
Lacks sep = All (λ c. c ≢ sep)

pub split-ne-nil : (sep : ℕ) (s : Text) → split sep s ≢ []
unfolding split
split-ne-nil sep [] h = cc
split-ne-nil sep (c ∷ s) h = ground (arith, split-ne-nil sep s)

pub split-Lacks : (sep : ℕ) (p : Text) → Lacks sep p → split sep p ≡ p ∷ []
unfolding split
split-Lacks sep [] h = refl
split-Lacks sep (c ∷ p) (h, hs) = ground (arith, split-Lacks sep p hs)

pub split-append : (sep : ℕ) (p s : Text) → Lacks sep p → split sep (p ++ sep ∷ s) ≡ p ∷ split sep s
unfolding split
split-append sep [] s h = ground arith
split-append sep (c ∷ p) s (h, hs) = ground (arith, split-append sep p s hs)

-- Splitting a join gives the parts back, if there is a part and none holds the separator.
pub split-join :
    (sep : ℕ) (ps : List Text) → ps ≢ [] → All (Lacks sep) ps → split sep (join sep ps) ≡ ps
unfolding join
split-join sep [] n h = absurd (n refl)
split-join sep (p ∷ []) n (h, _) = split-Lacks sep p h
split-join sep (p ∷ q ∷ ps) n (h, hs) =
    ground (arith, split-append sep p (join sep (q ∷ ps)) h, split-join sep (q ∷ ps) (cc) hs)

join-onto : (sep c : ℕ) (ps : List Text) → ps ≢ [] → join sep (onto c ps) ≡ c ∷ join sep ps
unfolding join
join-onto sep c [] h = absurd (h refl)
join-onto sep c (p ∷ []) h = refl
join-onto sep c (p ∷ q ∷ ps) h = refl

join-cons-nil : (sep : ℕ) (ps : List Text) → ps ≢ [] → join sep ([] ∷ ps) ≡ sep ∷ join sep ps
unfolding join
join-cons-nil sep [] h = absurd (h refl)
join-cons-nil sep (p ∷ ps) h = refl

-- Joining the parts of a split gives the text back.
pub join-split : (sep : ℕ) (s : Text) → join sep (split sep s) ≡ s
unfolding split
join-split sep [] = unfold join in refl
join-split sep (c ∷ s) = ground (
  arith,
  join-split sep s,
  join-onto sep c (split sep s) (split-ne-nil sep s),
  join-cons-nil sep (split sep s) (split-ne-nil sep s),
)

-- A join of two rows of parts.
pub join-append :
    (sep : ℕ) (ps qs : List Text)
    → ps ≢ []
    → qs ≢ []
    → join sep (ps ++ qs) ≡ join sep ps ++ sep ∷ join sep qs
unfolding join
join-append sep [] qs h k = absurd (h refl)
join-append sep (p ∷ []) [] h k = absurd (k refl)
join-append sep (p ∷ []) (q ∷ qs) h k = refl
join-append sep (p ∷ p' ∷ ps) qs h k = ground (
  arith,
  join-append sep (p' ∷ ps) qs (cc) k,
  append_assoc p (sep ∷ join sep (p' ∷ ps)) (sep ∷ join sep qs),
)

-- Without its last name, a path that has been extended by one is the path.
pub but_last-append : (p : List Text) (a : Text) → but_last (p ++ a ∷ []) ≡ p
unfolding but_last
but_last-append [] a = refl
but_last-append (b ∷ []) a = refl
but_last-append (b ∷ c ∷ p) a = rw (but_last-append (c ∷ p) a) refl
