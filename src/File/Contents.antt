-- ===== src/File/Contents.antt =====
-- The files below the root are a map from paths to bytes, on which the methods act through the paths
-- that their keys stand for.
use gufo_blob.Base.{
  ℕ, false, List, [], ◌∷◌, Option, none, some, Text, Bytes, text_eq_iff, All, ◌⊎◌, ◌≡◌, ◌≢◌, refl,
  ap, ◌∙◌, arith, Bool-cases, Option-cases, inl, inr,
}
use gufo_blob.Base.Dict.{Dict, lookup, insert, lookup-insert}
use gufo_blob.Base.Result.{
  Result, ok, err, Error, os_exception, is_a_directory, not_a_directory, file_exists,
}
use gufo_blob.File.{
  FileBlob, Node, file, directory, is_file, blocked, ancestors, add_directories, kind, make_parents,
  write_bytes, after_write, after_parents, put_at, put, get_at, get, resolve, last_or,
}
use gufo_blob.File.Directories.{
  IsDirectory, IsClosed, file_at, not_blocked, write-IsClosed, make-Added,
}

abbrev pub view : FileBlob → Text → Option Bytes
view b [] = none
view b (c ∷ path) = file_at (lookup (c ∷ path) b.nodes)

-- What one write makes of the files.
abbrev pub Written : Text → Bytes → FileBlob → FileBlob → Type 0
Written path bytes b c = (view c path ≡ some bytes) × ((q : Text) → path ≢ q → view c q ≡ view b q)

view-same :
    (root : List Text) (d e : Dict Node)
    → ((t : Text) → file_at (lookup t e) ≡ file_at (lookup t d))
    → (q : Text)
    → view (record { root = root; nodes = e }) q ≡ view (record { root = root; nodes = d }) q
view-same root d e h [] = refl
view-same root d e h (c ∷ q) = h (c ∷ q)

view-insert :
    (root : List Text) (path q : Text) (v : Bytes) (d : Dict Node)
    → path ≢ q
    → view (record { root = root; nodes = insert path (file v) d }) q
      ≡ view (record { root = root; nodes = d }) q
view-insert root path [] v d n = refl
view-insert root path (c ∷ q) v d n =
    ground (arith, lookup-insert path (c ∷ q) (file v) d, text_eq_iff path (c ∷ q))

-- Writing where the parent is a directory.
write_free :
    (root : List Text) (c : ℕ) (path : Text) (v : Bytes) (d : Dict Node)
    → IsClosed d
    → All (IsDirectory d) (ancestors (c ∷ path))
    → lookup (c ∷ path) d ≢ some directory
    → let e = insert (c ∷ path) (file v) d in
      IsClosed e
      × Written (c ∷ path) v (record { root = root; nodes = d }) (record { root = root; nodes = e })
write_free root c path v d w h n =
    let p = c ∷ path in
    (
      write-IsClosed p v d w h n,
      (
        ground (arith, lookup-insert p p (file v) d, text_eq_iff p p),
        λ q. view-insert root p q v d,
      ),
    )

pub write-cases :
    (c : ℕ) (path : Text) (v : Bytes) (d : Dict Node)
    → blocked d (ancestors (c ∷ path)) ≡ false
    → ((write_bytes (c ∷ path) v d ≡ ok (insert (c ∷ path) (file v) d))
        × (lookup (c ∷ path) d ≢ some directory))
      ⊎ ((write_bytes (c ∷ path) v d ≡ err (os_exception is_a_directory))
          × (lookup (c ∷ path) d ≡ some directory))
unfolding write_bytes kind
write-cases c path v d h = elim (Option-cases (lookup (c ∷ path) d)) [
  | inl e ↦ inl (rw (write_bytes, kind, h, e) refl, cc)
  | inr (directory, e) ↦ inr (rw (write_bytes, kind, h, e) refl, e)
  | inr (file old, e) ↦ inl (rw (write_bytes, kind, h, e) refl, cc)
]

-- What a call of `put` may do to the files: it writes just the one, or it raises and changes none.
abbrev pub Effect : Text → Bytes → FileBlob → Result (Unit {0}) × FileBlob → Type 0
Effect path bytes b (ok u, c) = Written path bytes b c
Effect path bytes b (err e, c) = (q : Text) → view c q ≡ view b q

abbrev pub Outcome : Text → Bytes → FileBlob → Result (Unit {0}) × FileBlob → Type 0
Outcome path bytes b x = IsClosed x.1.nodes × (x.1.root ≡ b.root) × Effect path bytes b x

write-Outcome :
    (root : List Text) (path : Text) (v : Bytes) (d : Dict Node)
    → IsClosed d
    → All (IsDirectory d) (ancestors path)
    → Outcome path v (record { root = root; nodes = d }) (after_write root d (write_bytes path v d))
unfolding write_bytes kind
write-Outcome root [] v d w h = (w, refl, λ q. refl)
write-Outcome root (c ∷ path) v d w h =
    elim (write-cases c path v d (not_blocked d (ancestors (c ∷ path)) h)) [
      | inl (e, n) ↦ let (k, l) = write_free root c path v d w h n in rw e (k, refl, l)
      | inr (e, n) ↦ rw e (w, refl, λ q. refl)
    ]

Outcome-kept :
    (root : List Text) (path : Text) (v : Bytes) (d e : Dict Node)
    (x : Result (Unit {0}) × FileBlob)
    → ((t : Text) → file_at (lookup t e) ≡ file_at (lookup t d))
    → Outcome path v (record { root = root; nodes = e }) x
    → Outcome path v (record { root = root; nodes = d }) x
Outcome-kept root path v d e (ok u, c) h (w, r, (k, l)) =
    (w, r, (k, λ q n. l q n ∙ view-same root d e h q))
Outcome-kept root path v d e (err a, c) h (w, r, k) = (w, r, λ q. k q ∙ view-same root d e h q)

make-cases :
    (path : Text) (d : Dict Node)
    → ((blocked d (ancestors path) ≡ false)
        × (make_parents path d ≡ ok (add_directories (ancestors path) d)))
      ⊎ ((e : Error) × (make_parents path d ≡ err e))
unfolding make_parents
make-cases path d = elim (Bool-cases (blocked d (ancestors path))) [
  | inr e ↦ inl (e, rw e refl)
  | inl e ↦ elim (Bool-cases (is_file (lookup (last_or [] (ancestors path)) d))) [
    | inl f ↦ inr (os_exception file_exists, rw (e, f) refl)
    | inr f ↦ inr (os_exception not_a_directory, rw (e, f) refl)
  ]
]

-- `put` of a key that stands for a path keeps the directories above every file; it either writes the
-- bytes at that path and leaves all other files alone, or it raises and leaves all files alone.
pub put-Outcome :
    (b : FileBlob) (key : Text) (v : Bytes) {path : Text}
    → IsClosed b.nodes
    → resolve b.root key ≡ ok path
    → Outcome path v b (put key v b)
unfolding put
put-Outcome b key v {path} w h =
    rw (h, put_at)
      (elim (make-cases path b.nodes) [
        | inl (k, e) ↦
            let d = add_directories (ancestors path) b.nodes in
            let a = make-Added path b.nodes w k in
            rw (e, after_parents)
              (Outcome-kept b.root path v b.nodes d (after_write b.root d (write_bytes path v d))
                a.kept (write-Outcome b.root path v d a.closed a.there))
        | inr (x, e) ↦ rw (e, after_parents) (w, refl, λ q. refl)
      ])

-- `get` returns the bytes of the file at the path of the key.
pub get-view :
    (b : FileBlob) (key path : Text) {v : Bytes}
    → IsClosed b.nodes
    → resolve b.root key ≡ ok path
    → view b path ≡ some v
    → get key b ≡ (ok v, b)
unfolding get kind
get-view b key [] {v} w h k = absurd (cc)
get-view b key (c ∷ path) {v} w h k = elim (Option-cases (lookup (c ∷ path) b.nodes)) [
  | inl e ↦ absurd (ground (arith, k, e))
  | inr (directory, e) ↦ absurd (ground (arith, k, e))
  | inr (file old, e) ↦
      rw
        (h, get_at, not_blocked b.nodes (ancestors (c ∷ path)) (w.above (c ∷ path) (file old) e), e)
        (ap (λ x. (ok x, b)) (ground (arith, k, e)))
]
