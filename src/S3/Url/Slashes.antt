-- ===== src/S3/Url/Slashes.antt =====
-- The loop of `parse_url` that replaces `//` in a prefix.
use gufo_blob.Base.{
  ℕ, zero, suc, ◌≤◌, ◌<◌, Bool, true, false, ◌&&◌, ◌||◌, [], ◌∷◌, ◌==◌, if◌then◌else◌, Text, ◌≡◌,
  refl, arith, length, Bool-cases, inl, inr, ap, sym, ◌∙◌,
}
use gufo_blob.S3.Url.{replace_slashes, has_slashes, collapse}

-- The text without each slash that stands behind a slash, one being in front of the text or not
unfoldable pub squeeze_behind : Bool → Text → Text
squeeze_behind b [] = []
squeeze_behind b (c ∷ s) =
    let slash = c == b'/' in
    let rest = squeeze_behind slash s in if b && slash then rest else c ∷ rest

unfoldable pub squeeze : Text → Text
unfolding squeeze_behind
squeeze = squeeze_behind false

both-cases : (c d : ℕ) → (c == b'/') && (d == b'/') ≡ true → (c ≡ b'/') × (d ≡ b'/')
both-cases c d e = (ground arith, ground arith)

replace-both : (s : Text) → replace_slashes (b'/' ∷ b'/' ∷ s) ≡ b'/' ∷ replace_slashes s
unfolding replace_slashes
replace-both s = refl

replace-other :
    (c d : ℕ) (s : Text)
    → (c == b'/') && (d == b'/') ≡ false
    → replace_slashes (c ∷ d ∷ s) ≡ c ∷ replace_slashes (d ∷ s)
unfolding replace_slashes
replace-other c d s e = rw (e, replace_slashes) refl

squeeze-slashes :
    (b : Bool) (s : Text) → squeeze_behind b (b'/' ∷ b'/' ∷ s) ≡ squeeze_behind b (b'/' ∷ s)
unfolding squeeze_behind
squeeze-slashes true s = refl
squeeze-slashes false s = refl

squeeze-cons :
    (b : Bool) (c : ℕ) (s t : Text)
    → squeeze_behind (c == b'/') s ≡ squeeze_behind (c == b'/') t
    → squeeze_behind b (c ∷ s) ≡ squeeze_behind b (c ∷ t)
squeeze-cons b c s t h = unfold squeeze_behind in ap (λ r. if b && (c == b'/') then r else c ∷ r) h

squeeze-replace : (b : Bool) (p : Text) → squeeze_behind b (replace_slashes p) ≡ squeeze_behind b p
squeeze-replace b [] = unfold replace_slashes in refl
squeeze-replace b (c ∷ []) = unfold replace_slashes in refl
squeeze-replace b (c ∷ d ∷ s) = elim (Bool-cases ((c == b'/') && (d == b'/'))) [
  | inl e ↦
      let (f, g) = both-cases c d e in
      rw (f, g, replace-both s)
        (squeeze-cons b b'/' (replace_slashes s) s (squeeze-replace true s)
          ∙ sym (squeeze-slashes b s))
  | inr e ↦
      rw (replace-other c d s e)
        (squeeze-cons b c (replace_slashes (d ∷ s)) (d ∷ s) (squeeze-replace (c == b'/') (d ∷ s)))
]

length-replace : (p : Text) → length (replace_slashes p) ≤ length p
length-replace [] = unfold replace_slashes in omega arith
length-replace (c ∷ []) = unfold replace_slashes in omega arith
length-replace (c ∷ d ∷ s) = elim (Bool-cases ((c == b'/') && (d == b'/'))) [
  | inl e ↦
      let (f, g) = both-cases c d e in
      rw (f, g, replace-both s) (let h = length-replace s in omega arith)
  | inr e ↦ rw (replace-other c d s e) (let h = length-replace (d ∷ s) in omega arith)
]

-- A round makes a prefix with two slashes in a row shorter.
length-replace_slashes : (p : Text) → has_slashes p ≡ true → length (replace_slashes p) < length p
unfolding has_slashes
length-replace_slashes [] h = ground arith
length-replace_slashes (c ∷ []) h = ground arith
length-replace_slashes (c ∷ d ∷ s) h = elim (Bool-cases ((c == b'/') && (d == b'/'))) [
  | inl e ↦
      let (f, g) = both-cases c d e in
      rw (f, g, replace-both s) (let k = length-replace s in omega arith)
  | inr e ↦
      rw (replace-other c d s e)
        (let k = length-replace_slashes (d ∷ s) (ground arith) in omega arith)
]

abbrev first_slash : Text → Bool
first_slash [] = false
first_slash (c ∷ s) = c == b'/'

has_slashes-cons :
    (c : ℕ) (s : Text) → has_slashes (c ∷ s) ≡ ((c == b'/') && first_slash s || has_slashes s)
unfolding has_slashes
has_slashes-cons c [] = ground arith
has_slashes-cons c (d ∷ s) = refl

squeeze-none :
    (b : Bool) (p : Text)
    → b && first_slash p ≡ false
    → has_slashes p ≡ false
    → squeeze_behind b p ≡ p
unfolding squeeze_behind
squeeze-none b [] k h = refl
squeeze-none b (c ∷ s) k h =
    let e = sym (has_slashes-cons c s) ∙ h in
    let rest = squeeze-none (c == b'/') s (ground (arith, e)) (ground (arith, e)) in
    ground (arith, rest)

collapse-squeeze : (fuel : ℕ) (p : Text) → length p ≤ fuel → collapse fuel p ≡ squeeze p
unfolding collapse
collapse-squeeze zero [] h = unfold collapse squeeze squeeze_behind in refl
collapse-squeeze zero (c ∷ p) h = absurd (omega arith)
collapse-squeeze (suc fuel) p h = elim (Bool-cases (has_slashes p)) [
  | inl e ↦
      rw (e, collapse)
        (collapse-squeeze fuel (replace_slashes p)
            (let k = length-replace_slashes p e in omega arith)
          ∙ unfold squeeze in squeeze-replace false p)
  | inr e ↦ rw (e, collapse) (sym (unfold squeeze in squeeze-none false p refl e))
]

has_slashes-squeeze :
    (b : Bool) (p : Text)
    → (has_slashes (squeeze_behind b p) ≡ false) × (b && first_slash (squeeze_behind b p) ≡ false)
unfolding squeeze_behind
has_slashes-squeeze b [] = unfold squeeze_behind has_slashes in (refl, ground arith)
has_slashes-squeeze b (c ∷ s) = elim (Bool-cases (b && (c == b'/'))) [
  | inl e ↦
      let (h, k) = has_slashes-squeeze (c == b'/') s in rw (e, squeeze_behind) (h, ground arith)
  | inr e ↦
      let (h, k) = has_slashes-squeeze (c == b'/') s in
      rw (e, squeeze_behind, has_slashes-cons c (squeeze_behind (c == b'/') s), h, k) (refl, e)
]

-- As many rounds as the prefix is long are enough for the loop that replaces `//` by `/`: after them
-- there is no `//` left, and the prefix has lost each slash that stands behind a slash and nothing else.
pub collapse-length :
    (p : Text) → (has_slashes (collapse (length p) p) ≡ false) × (collapse (length p) p ≡ squeeze p)
collapse-length p =
    let e = collapse-squeeze (length p) p (omega arith) in
    (rw e (unfold squeeze in (has_slashes-squeeze false p).0), e)
