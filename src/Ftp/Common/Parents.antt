-- ===== src/Ftp/Common/Parents.antt =====
-- `iter_parent_dirs`: the directories above a key.
use gufo_blob.Base.{
  ℕ, suc, ◌+◌, ◌≡◌, ◌≢◌, ◌∙◌, refl, sym, ap, arith, List, [], ◌∷◌, ◌++◌, append_assoc, ◌==◌,
  if◌then◌else◌, Text, length, All,
}
use gufo_blob.Ftp.Common.{parents, iter_parent_dirs}
use gufo_blob.Ftp.Common.Methods.{split, join, strip, but_last, last_or}
use gufo_blob.Ftp.Common.Methods.Laws.{join-append, join-split, split-ne-nil}

-- `d` is a directory of the path `key`: the key goes on behind `d` with a slash.
abbrev pub IsParent : Text → Text → Type 0
IsParent key d = (rest : Text) × (key ≡ d ++ b'/' ∷ rest)

pub but_last-last_or : (ps : List Text) → ps ≢ [] → but_last ps ++ last_or [] ps ∷ [] ≡ ps
unfolding but_last last_or
but_last-last_or [] h = absurd (h refl)
but_last-last_or (p ∷ []) h = refl
but_last-last_or (p ∷ q ∷ ps) h = ground (arith, but_last-last_or (q ∷ ps) (cc))

-- Each directory of the row is above the next.
abbrev pub IsNested : List Text → Type 0
IsNested [] = Unit
IsNested (d ∷ []) = Unit
IsNested (d ∷ e ∷ ds) = IsParent e d × IsNested (e ∷ ds)

-- how many slashes a text has
unfoldable pub count_slashes : Text → ℕ
count_slashes [] = 0
count_slashes (c ∷ s) = (if c == b'/' then 1 else 0) + count_slashes s

append-ne-nil : (parts tail : List Text) → tail ≢ [] → parts ++ tail ≢ []
append-ne-nil [] tail h = h
append-ne-nil (p ∷ parts) tail h = cc

IsParent-join :
    (current : List Text) (part : Text) (more : List Text)
    → more ≢ []
    → IsParent (join b'/' (current ++ part ∷ more)) (join b'/' (current ++ part ∷ []))
IsParent-join current part more h = (
  join b'/' more,
  ap (join b'/') (sym (append_assoc current (part ∷ []) more))
      ∙ join-append b'/' (current ++ part ∷ []) more (concat-ne-nil current part) h,
)
  where
    concat-ne-nil : (ps : List Text) (p : Text) → ps ++ p ∷ [] ≢ []
    concat-ne-nil [] p = cc
    concat-ne-nil (q ∷ ps) p = cc

-- Behind the parts so far, each directory that the loop yields is above the whole path.
pub parents-IsParent :
    (parts current tail : List Text) (path : Text)
    → tail ≢ []
    → join b'/' (current ++ (parts ++ tail)) ≡ path
    → All (IsParent path) (parents parts current)
unfolding parents
parents-IsParent [] current tail path h e = tt
parents-IsParent (part ∷ parts) current tail path h e = (
  rw (← e) (IsParent-join current part (parts ++ tail) (append-ne-nil parts tail h)),
  parents-IsParent parts (current ++ part ∷ []) tail path h
      (ap (join b'/') (append_assoc current (part ∷ []) (parts ++ tail)) ∙ e),
)

parents-IsNested : (parts current : List Text) → IsNested (parents parts current)
unfolding parents
parents-IsNested [] current = tt
parents-IsNested (p ∷ []) current = tt
parents-IsNested (p ∷ q ∷ parts) current = (
  rw (append_assoc current (p ∷ []) (q ∷ [])) (IsParent-join current p (q ∷ []) (cc)),
  parents-IsNested (q ∷ parts) (current ++ p ∷ []),
)

length-parents : (parts current : List Text) → length (parents parts current) ≡ length parts
unfolding parents
length-parents [] current = refl
length-parents (p ∷ parts) current = ap suc (length-parents parts (current ++ p ∷ []))

length-split : (s : Text) → length (split b'/' s) ≡ suc (count_slashes s)
unfolding split count_slashes
length-split [] = refl
length-split (c ∷ s) = ground (arith, length-split s)

length-but_last : (ps : List Text) → ps ≢ [] → suc (length (but_last ps)) ≡ length ps
unfolding but_last
length-but_last [] h = absurd (h refl)
length-but_last (p ∷ []) h = refl
length-but_last (p ∷ q ∷ ps) h = ap suc (length-but_last (q ∷ ps) (cc))

-- For every key, the directories that are yielded are those above the key without its outer slashes:
-- each is followed in it by a slash, each is above the next, and there are as many as slashes.
pub iter_parent_dirs_lem :
    (key : Text)
    → let path = strip b'/' key in
      All (IsParent path) (iter_parent_dirs key)
      × IsNested (iter_parent_dirs key)
      × (length (iter_parent_dirs key) ≡ count_slashes path)
unfolding iter_parent_dirs
iter_parent_dirs_lem key =
    let path = strip b'/' key in
    let parts = split b'/' path in
    let ne = split-ne-nil b'/' path in
    (
      parents-IsParent (but_last parts) [] (last_or [] parts ∷ []) path (cc)
          (ap (join b'/') (but_last-last_or parts ne) ∙ join-split b'/' path),
      parents-IsNested (but_last parts) [],
      ground
          (arith, length-parents (but_last parts) [], length-split path, length-but_last parts ne),
    )
