-- ===== src/File/Directories.antt =====
-- The directories above every stored path are there, whatever is written and deleted.
use gufo_blob.Base.{
  false, List, [], ◌∷◌, ◌++◌, Option, none, some, Text, Bytes, text_eq, text_eq_iff, All,
  All-append, append-nil, append_assoc, ◌≡◌, ◌≢◌, refl, ◌∙◌, arith, Bool-cases, inl, inr,
}
use gufo_blob.Base.Dict.{
  Dict, lookup, insert, remove, NodupKeys, lookup-insert, lookup-remove, insert-NodupKeys,
  remove-NodupKeys,
}
use gufo_blob.Ftp.Common.{parents}
use gufo_blob.Ftp.Common.Methods.{split, join, but_last}
use gufo_blob.Ftp.Common.Methods.Laws.{Lacks, split-join, but_last-append}
use gufo_blob.File.Sandbox.{split-Lacks_all, but_last-All}
use gufo_blob.File.{Node, file, directory, blocked, ancestors, with_directory, add_directories}

abbrev pub IsDirectory : Dict Node → Text → Type 0
IsDirectory d a = lookup a d ≡ some directory

-- Every path has its directories, and no path stands twice.
pub record IsClosed (d : Dict Node) : Type 0 where
  pub nodup : NodupKeys d
  pub above : (t : Text) (n : Node) → lookup t d ≡ some n → All (IsDirectory d) (ancestors t)

pub All-map : (P Q : Text → Type 0) (l : List Text) → ((a : Text) → P a → Q a) → All P l → All Q l
All-map P Q [] f h = tt
All-map P Q (a ∷ l) f (h, hs) = (f a h, All-map P Q l f hs)

-- A directory that is added disturbs no other, and no file.
directory-insert :
    (a b : Text) (d : Dict Node) → IsDirectory d b → IsDirectory (insert a directory d) b
directory-insert a b d h = ground (arith, lookup-insert a b directory d)

blocked-insert :
    (a : Text) (d : Dict Node) (l : List Text)
    → lookup a d ≡ none
    → blocked d l ≡ false
    → blocked (insert a directory d) l ≡ false
unfolding blocked
blocked-insert a d [] h k = refl
blocked-insert a d (b ∷ l) h k =
    ground (arith, lookup-insert a b directory d, blocked-insert a d l h)

pub not_blocked : (d : Dict Node) (l : List Text) → All (IsDirectory d) l → blocked d l ≡ false
unfolding blocked
not_blocked d [] h = refl
not_blocked d (a ∷ l) (h, hs) = ground (arith, not_blocked d l hs)

insert-IsClosed :
    (a : Text) (d : Dict Node)
    → IsClosed d
    → All (IsDirectory d) (ancestors a)
    → IsClosed (insert a directory d)
insert-IsClosed a d w h = record {
  nodup = insert-NodupKeys a directory d w.nodup;
  above = λ t n e. elim (Bool-cases (text_eq a t)) [
    | inl same ↦
        All-map (IsDirectory d) (IsDirectory (insert a directory d)) (ancestors t)
          (λ b. directory-insert a b d) (rw (← (text_eq_iff a t).0 same) h)
    | inr other ↦
        All-map (IsDirectory d) (IsDirectory (insert a directory d)) (ancestors t)
          (λ b. directory-insert a b d)
          (w.above t n (ground (arith, lookup-insert a t directory d, other)))
  ];
}

parents-append : (p q c : List Text) → parents (p ++ q) c ≡ parents p c ++ parents q (c ++ p)
unfolding parents
parents-append [] q c = rw (append-nil c) refl
parents-append (a ∷ p) q c = rw (parents-append p q (c ++ a ∷ []), append_assoc c (a ∷ []) p) refl

snoc-ne-nil : (p : List Text) (a : Text) → p ++ a ∷ [] ≢ []
snoc-ne-nil [] a = cc
snoc-ne-nil (b ∷ p) a = cc

-- The directories above the directory of the first names are those of fewer names.
ancestors-join :
    (p : List Text) (a : Text)
    → All (Lacks b'/') (p ++ a ∷ [])
    → ancestors (join b'/' (p ++ a ∷ [])) ≡ parents p []
unfolding ancestors
ancestors-join p a h =
    rw (split-join b'/' (p ++ a ∷ []) (snoc-ne-nil p a) h, but_last-append p a) refl

abbrev pub file_at : Option Node → Option Bytes
file_at (some (file v)) = some v
file_at (some directory) = none
file_at none = none

-- What the loop over the directories above a path achieves.
pub record Added (d e : Dict Node) (dirs : List Text) : Type 0 where
  pub closed : IsClosed e
  pub there : All (IsDirectory e) dirs
  pub kept : (t : Text) → file_at (lookup t e) ≡ file_at (lookup t d)

one_more :
    (a : Text) (current : List Text) (d : Dict Node)
    → All (IsDirectory d) (parents current [])
    → IsDirectory d (join b'/' (current ++ a ∷ []))
    → All (IsDirectory d) (parents (current ++ a ∷ []) [])
unfolding parents
one_more a current d h k =
    rw (parents-append current (a ∷ []) []) (
      All-append (IsDirectory d) (parents current []) (join b'/' (current ++ a ∷ []) ∷ []) h
        (k, tt))

add_directories-Added :
    (names current : List Text) (d : Dict Node)
    → IsClosed d
    → All (Lacks b'/') (current ++ names)
    → All (IsDirectory d) (parents current [])
    → blocked d (parents names current) ≡ false
    → Added d (add_directories (parents names current) d) (parents (current ++ names) [])
unfolding add_directories parents blocked
add_directories-Added [] current d w l h k =
    rw (append-nil current) (record { closed = w; there = h; kept = λ t. refl })
add_directories-Added (a ∷ names) current d w l h k =
    let p = join b'/' (current ++ a ∷ []) in
    let assoc = append_assoc current (a ∷ []) names in
    let l' : All (Lacks b'/') ((current ++ a ∷ []) ++ names) = rw assoc l in
    let rest = parents names (current ++ a ∷ []) in
    rw (← assoc) (
      (elim (lookup p d)
          as (λ o.
            lookup p d ≡ o
            → Added d (add_directories rest (with_directory o p d))
                (parents ((current ++ a ∷ []) ++ names) [])) [
                  | none ↦ λ e.
                      let d' = insert p directory d in
                      let above : All (IsDirectory d) (ancestors p) =
                        rw (ancestors-join current a (first_part (current ++ a ∷ []) names l')) h in
                      let dirs =
                        All-map (IsDirectory d) (IsDirectory d') (parents current [])
                          (λ b. directory-insert p b d) h in
                      let more =
                        add_directories-Added names (current ++ a ∷ []) d'
                          (insert-IsClosed p d w above) l'
                          (one_more a current d' dirs
                            (ground (arith, lookup-insert p p directory d, text_eq_iff p p)))
                          (blocked-insert p d rest e (ground (arith, k, e))) in
                      record {
                        closed = more.closed;
                        there = more.there;
                        kept = λ t.
                            more.kept t
                            ∙ ground (arith, lookup-insert p t directory d, text_eq_iff p t, e);
                      }
                  | some n ↦
                      elim n
                        as (λ m.
                          lookup p d ≡ some m
                          → Added d (add_directories rest d)
                              (parents ((current ++ a ∷ []) ++ names) [])) [
                                | directory ↦ λ e.
                                    add_directories-Added names (current ++ a ∷ []) d w l'
                                      (one_more a current d h e) (ground (arith, k, e))
                                | file v ↦ λ e. absurd (ground (arith, k, e))
                              ]
                ])
        refl)
  where
    first_part : (p q : List Text) → All (Lacks b'/') (p ++ q) → All (Lacks b'/') p
    first_part [] q m = tt
    first_part (b ∷ p) q (m, ms) = (m, first_part p q ms)

-- What is no directory may be written and removed: the directories stay.
file-insert :
    (t b : Text) (v : Bytes) (d : Dict Node)
    → lookup t d ≢ some directory
    → IsDirectory d b
    → IsDirectory (insert t (file v) d) b
file-insert t b v d n h = ground (arith, lookup-insert t b (file v) d, text_eq_iff t b)

pub write-IsClosed :
    (t : Text) (v : Bytes) (d : Dict Node)
    → IsClosed d
    → All (IsDirectory d) (ancestors t)
    → lookup t d ≢ some directory
    → IsClosed (insert t (file v) d)
write-IsClosed t v d w h n = record {
  nodup = insert-NodupKeys t (file v) d w.nodup;
  above = λ q m e. elim (Bool-cases (text_eq t q)) [
    | inl same ↦
        All-map (IsDirectory d) (IsDirectory (insert t (file v) d)) (ancestors q)
          (λ b. file-insert t b v d n) (rw (← (text_eq_iff t q).0 same) h)
    | inr other ↦
        All-map (IsDirectory d) (IsDirectory (insert t (file v) d)) (ancestors q)
          (λ b. file-insert t b v d n)
          (w.above q m (ground (arith, lookup-insert t q (file v) d, other)))
  ];
}

pub remove-IsClosed :
    (t : Text) (d : Dict Node) → IsClosed d → lookup t d ≢ some directory → IsClosed (remove t d)
remove-IsClosed t d w n = record {
  nodup = remove-NodupKeys t d w.nodup;
  above = λ q m e.
      All-map (IsDirectory d) (IsDirectory (remove t d)) (ancestors q)
        (λ b h. ground (arith, lookup-remove t b d w.nodup, text_eq_iff t b))
        (w.above q m (ground (arith, lookup-remove t q d w.nodup)));
}

-- Making the directories above a path, in a tree where no file stands in the way.
pub make-Added :
    (path : Text) (d : Dict Node)
    → IsClosed d
    → blocked d (ancestors path) ≡ false
    → Added d (add_directories (ancestors path) d) (ancestors path)
unfolding ancestors parents
make-Added path d w h =
    let names = but_last (split b'/' path) in
    add_directories-Added names [] d w
      (but_last-All (Lacks b'/') (split b'/' path) (split-Lacks_all b'/' path)) tt h
