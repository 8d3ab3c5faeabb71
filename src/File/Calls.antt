-- ===== src/File/Calls.antt =====
-- All methods of the file store as one interface, what its calls keep, what a scan lists, and what is
-- above a stored file.
use gufo_blob.Base.{
  ℕ, true, ◌&&◌, List, [], ◌∷◌, none, some, if◌then◌else◌, Text, Bytes, text_eq, text_eq_iff, All,
  contains, ◌≡◌, refl, ap, arith, Bool-cases, Option-cases, inl, inr,
}
use gufo_blob.Base.Dict.{Dict, lookup, remove, NodupKeys, lookup-remove}
use gufo_blob.Base.Result.{Result, ok, err, os_exception, is_a_directory, Result-cases}
use gufo_blob.Blob.{Blob, is_some}
use gufo_blob.Blob.Simulation.{
  Call, put_call, get_call, delete_call, exists_call, scan_call, respond, Answer, done, bytes_of,
  truth, keys_of, with_answer,
}
use gufo_blob.File.{
  FileBlob, Node, file, directory, ancestors, kind, Kind, a_file, a_directory, missing, below_file,
  put_at, put, get_at, read_bytes, get, unlink, delete_at, delete, exists, exists_at, is_there,
  scan, scan_at, scan_from, base_of, resolve, files_below, is_below,
}
use gufo_blob.File.Directories.{IsDirectory, IsClosed, file_at, not_blocked, remove-IsClosed}
use gufo_blob.File.Contents.{view, put-Outcome}

abbrev pub file_blob : Blob
file_blob = record {
  State = FileBlob;
  put = put;
  get = get;
  delete = delete;
  exists = exists;
  scan = scan;
}

kind-file :
    (d : Dict Node) (path : Text) {v : Bytes}
    → kind d path ≡ a_file v
    → lookup path d ≡ some (file v)
unfolding kind
kind-file d [] h = absurd (cc)
kind-file d (c ∷ path) {v} h = ground arith

file-kind :
    (b : FileBlob) (path : Text) {v : Bytes}
    → IsClosed b.nodes
    → view b path ≡ some v
    → kind b.nodes path ≡ a_file v
unfolding kind
file-kind b [] {v} w h = absurd (cc)
file-kind b (c ∷ path) {v} w h = elim (Option-cases (lookup (c ∷ path) b.nodes)) [
  | inl e ↦ absurd (ground (arith, h, e))
  | inr (directory, e) ↦ absurd (ground (arith, h, e))
  | inr (file old, e) ↦
      let free = not_blocked b.nodes (ancestors (c ∷ path)) (w.above (c ∷ path) (file old) e) in
      rw (free, e) (ap a_file (ground (arith, h, e)))
]

unlink-IsClosed :
    (key path : Text) (k : Kind) (b : FileBlob)
    → kind b.nodes path ≡ k
    → IsClosed b.nodes
    → IsClosed (unlink key path k b).1.nodes
unlink-IsClosed key path (a_file v) b h w =
    let e = kind-file b.nodes path h in remove-IsClosed path b.nodes w (cc)
unlink-IsClosed key path a_directory b h w = w
unlink-IsClosed key path missing b h w = w
unlink-IsClosed key path below_file b h w = w

delete-IsClosed : (key : Text) (b : FileBlob) → IsClosed b.nodes → IsClosed (delete key b).1.nodes
unfolding delete
delete-IsClosed key b w = elim (Result-cases (resolve b.root key)) [
  | inl (path, e) ↦ rw (e, delete_at) (unlink-IsClosed key path (kind b.nodes path) b refl w)
  | inr (x, e) ↦ rw (e, delete_at) w
]

put-IsClosed :
    (key : Text) (v : Bytes) (b : FileBlob) → IsClosed b.nodes → IsClosed (put key v b).1.nodes
unfolding put
put-IsClosed key v b w = elim (Result-cases (resolve b.root key)) [
  | inl (path, e) ↦ (put-Outcome b key v w e).0
  | inr (x, e) ↦ rw (e, put_at) w
]

with_answer-state :
    {S A : Type 0} (P : S → Type 0) (f : A → Answer) (x : Result A × S)
    → P x.1
    → P (with_answer f x).1
with_answer-state P f (ok a, s) h = h
with_answer-state P f (err e, s) h = h

abbrev pub Closed : FileBlob → Type 0
Closed b = IsClosed b.nodes

-- Every call, whether it returns or raises, leaves a tree in which no path stands twice and in which
-- everything above a file or a directory is a directory.
pub respond-IsClosed :
    (c : Call) (b : FileBlob) → IsClosed b.nodes → IsClosed (respond file_blob c b).1.nodes
unfolding get exists scan
respond-IsClosed (put_call k v) b w =
    with_answer-state Closed (λ _. done) (put k v b) (put-IsClosed k v b w)
respond-IsClosed (get_call k) b w = with_answer-state Closed bytes_of (get k b) w
respond-IsClosed (delete_call k) b w =
    with_answer-state Closed (λ _. done) (delete k b) (delete-IsClosed k b w)
respond-IsClosed (exists_call k) b w = with_answer-state Closed truth (exists k b) w
respond-IsClosed (scan_call k) b w = with_answer-state Closed keys_of (scan k b) w

-- `delete` of a stored key returns, removes that file and leaves all others alone.
pub delete-view :
    (b : FileBlob) (key path : Text) {v : Bytes}
    → IsClosed b.nodes
    → resolve b.root key ≡ ok path
    → view b path ≡ some v
    → let x = delete key b in
      (x.0 ≡ ok tt) × ((t : Text) → view x.1 t ≡ (if text_eq path t then none else view b t))
unfolding delete
delete-view b key path {v} w h k =
    let e = file-kind b path w k in rw (h, delete_at, e, unlink) (refl, removed)
  where
    removed :
        (t : Text)
        → view (record b { nodes = remove path b.nodes }) t
          ≡ (if text_eq path t then none else view b t)
    removed [] = ground arith
    removed (c ∷ t) = ground (arith, lookup-remove path (c ∷ t) b.nodes w.nodup)

contains-files_below :
    (base t : Text) (d : Dict Node)
    → NodupKeys d
    → contains (files_below base d) t ≡ (is_some (file_at (lookup t d)) && is_below base t)
unfolding contains files_below lookup
contains-files_below base t [] u = refl
contains-files_below base t ((path, directory) ∷ d) (fresh, u) =
    ground (arith, contains-files_below base t d u, text_eq_iff path t)
contains-files_below base t ((path, file v) ∷ d) (fresh, u) =
    ground (arith, contains-files_below base t d u, text_eq_iff path t)

-- A scan of a prefix that stands for a directory changes nothing and lists a path exactly when a file
-- is stored there and the path is below that directory.
pub scan-files_below :
    (b : FileBlob) (prefix base : Text)
    → IsClosed b.nodes
    → base_of b.root prefix ≡ ok base
    → kind b.nodes base ≡ a_directory
    → (l : List Text) × (scan prefix b ≡ (ok l, b))
      × ((c : ℕ) (t : Text)
          → contains l (c ∷ t) ≡ (is_some (view b (c ∷ t)) && is_below base (c ∷ t)))
unfolding scan
scan-files_below b prefix base w h k = (
  files_below base b.nodes,
  rw (h, scan_at, k, scan_from) refl,
  λ c t. contains-files_below base (c ∷ t) b.nodes w.nodup,
)

All-contains : (P : Text → Type 0) (l : List Text) (a : Text) → All P l → contains l a ≡ true → P a
unfolding contains
All-contains P [] a h k = absurd (cc)
All-contains P (c ∷ l) a (h, hs) k = elim (Bool-cases (text_eq c a)) [
  | inl e ↦ rw (← (text_eq_iff c a).0 e) h
  | inr e ↦ All-contains P l a hs (ground (arith, k, e))
]

directory-kind : (d : Dict Node) (a : Text) → IsClosed d → IsDirectory d a → kind d a ≡ a_directory
unfolding kind
directory-kind d [] w h = refl
directory-kind d (c ∷ a) w h =
    rw (not_blocked d (ancestors (c ∷ a)) (w.above (c ∷ a) directory h), h) refl

-- A key that stands for a directory above a stored file is there according to `exists`, but `get`
-- raises the IsADirectoryError of the system for it, and so does `delete`.
pub exists-above :
    (b : FileBlob) (key a t : Text) {v : Bytes}
    → IsClosed b.nodes
    → lookup t b.nodes ≡ some (file v)
    → contains (ancestors t) a ≡ true
    → resolve b.root key ≡ ok a
    → (exists key b ≡ (ok true, b))
      × (get key b ≡ (err (os_exception is_a_directory), b))
      × (delete key b ≡ (err (os_exception is_a_directory), b))
unfolding exists get delete
exists-above b key a t {v} w h k e =
    let above = All-contains (IsDirectory b.nodes) (ancestors t) a (w.above t (file v) h) k in
    let found = directory-kind b.nodes a w above in
    rw (e, exists_at, get_at, delete_at, found, is_there, read_bytes, unlink) (refl, refl, refl)
