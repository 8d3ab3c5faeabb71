-- ===== src/Ftp/Common/Methods.antt =====
-- The methods of `str` and `bytes` that the FTP code calls.
pub mod Laws
use mathlib.Core.List.{reverse}
use gufo_blob.Base.{
  ℕ, ◌-◌, Bool, true, false, ◌&&◌, List, [], ◌∷◌, ◌++◌, leb, ◌==◌, if◌then◌else◌, Text, Bytes, map,
}
use gufo_blob.Utils.{is_space}

-- `s.lstrip(c)`
unfoldable pub strip_left : ℕ → Text → Text
strip_left c [] = []
strip_left c (d ∷ s) = elim (d == c) [ true ↦ strip_left c s | false ↦ d ∷ s ]

-- `s.rstrip(c)`
unfoldable pub strip_right : ℕ → Text → Text
unfolding strip_left
strip_right c s = reverse (strip_left c (reverse s))

-- `s.strip(c)`
unfoldable pub strip : ℕ → Text → Text
unfolding strip_right
strip c s = strip_right c (strip_left c s)

-- the first part joined to the letter before it
abbrev pub onto : ℕ → List Text → List Text
onto c [] = (c ∷ []) ∷ []
onto c (p ∷ ps) = (c ∷ p) ∷ ps

-- `s.split(sep)`
unfoldable pub split : ℕ → Text → List Text
split sep [] = [] ∷ []
split sep (c ∷ s) = let rest = split sep s in if c == sep then [] ∷ rest else onto c rest

-- `sep.join(parts)`
unfoldable pub join : ℕ → List Text → Text
join sep [] = []
join sep (p ∷ []) = p
join sep (p ∷ q ∷ ps) = p ++ sep ∷ join sep (q ∷ ps)

-- the words behind `word`, which is read so far
unfoldable pub words : Bytes → Bytes → List Bytes
unfolding is_space
words [] [] = []
words [] (w ∷ word) = (w ∷ word) ∷ []
words (c ∷ s) [] = words s (if is_space c then [] else c ∷ [])
words (c ∷ s) (w ∷ word) = elim (is_space c) [
  | true ↦ (w ∷ word) ∷ words s []
  | false ↦ words s ((w ∷ word) ++ c ∷ [])
]

-- `s.split()`
unfoldable pub split_space : Bytes → List Bytes
unfolding words
split_space s = words s []

-- `s.upper()` of bytes
unfoldable pub upper : Bytes → Bytes
upper = map (λ c. if leb b'a' c && leb c b'z' then c - 32 else c)

-- `l[-1]`, with a default where the list is empty
unfoldable pub last_or {ℓ} : {A : Type ℓ} → A → List A → A
last_or a [] = a
last_or a (x ∷ xs) = last_or x xs

-- `l[:-1]`
unfoldable pub but_last {ℓ} : {A : Type ℓ} → List A → List A
but_last [] = []
but_last (x ∷ []) = []
but_last (x ∷ y ∷ xs) = x ∷ but_last (y ∷ xs)
