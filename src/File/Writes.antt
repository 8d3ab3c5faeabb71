-- ===== src/File/Writes.antt =====
-- When a `put` of the file store goes through, and that what it has written can be read back.
use gufo_blob.Base.{
  ℕ, ◌+◌, ◌≤◌, ◌<◌, false, List, [], ◌∷◌, ◌++◌, Option, none, some, Text, Bytes, text_eq,
  text_eq_iff, All, ◌≡◌, ◌≢◌, refl, sym, ap, ◌∙◌, arith, Bool-cases, inl, inr, length,
  length-append, append_assoc,
}
use gufo_blob.Base.Dict.{Dict, lookup, lookup-insert}
use gufo_blob.Base.Result.{Result, ok, err}
use gufo_blob.Ftp.Common.{parents}
use gufo_blob.Ftp.Common.Methods.{split, but_last}
use gufo_blob.Ftp.Common.Methods.Laws.{Lacks, split-join, split-ne-nil}
use gufo_blob.File.Sandbox.{split-Lacks_all, but_last-All}
use gufo_blob.File.{
  FileBlob, Node, directory, blocked, ancestors, with_directory, add_directories, make_parents,
  after_write, after_parents, put_at, put, get, resolve,
}
use gufo_blob.File.Directories.{IsClosed, make-Added, not_blocked}
use gufo_blob.File.Contents.{put-Outcome, get-view, write-cases, Outcome}

Short : ℕ → Text → Type 0
Short n t = length (split b'/' t) ≤ n

All-prefix : (p q : List Text) → All (Lacks b'/') (p ++ q) → All (Lacks b'/') p
All-prefix [] q m = tt
All-prefix (b ∷ p) q (m, ms) = (m, All-prefix p q ms)

snoc-ne-nil : (p : List Text) (a : Text) → p ++ a ∷ [] ≢ []
snoc-ne-nil [] a = cc
snoc-ne-nil (b ∷ p) a = cc

parents-Short :
    (names current : List Text) (n : ℕ)
    → All (Lacks b'/') (current ++ names)
    → length current + length names ≤ n
    → All (Short n) (parents names current)
unfolding parents Short
parents-Short [] current n l h = tt
parents-Short (a ∷ names) current n l h =
    let p = current ++ a ∷ [] in
    let l' : All (Lacks b'/') (p ++ names) = rw (append_assoc current (a ∷ []) names) l in
    let e = split-join b'/' p (snoc-ne-nil current a) (All-prefix p names l') in
    let m = length-append current (a ∷ []) in
    (rw e (omega arith), parents-Short names p n l' (omega arith))

length-but_last : (p : List Text) → p ≢ [] → length (but_last p) + 1 ≡ length p
unfolding but_last
length-but_last [] h = absurd (h refl)
length-but_last (a ∷ []) h = refl
length-but_last (a ∷ b ∷ p) h = ground (arith, length-but_last (b ∷ p) (cc))

-- No directory above a path is that path.
ancestors-Short :
    (path : Text) (n : ℕ) → length (split b'/' path) ≡ n + 1 → All (Short n) (ancestors path)
unfolding ancestors
ancestors-Short path n h =
    let names = but_last (split b'/' path) in
    let m = length-but_last (split b'/' path) (split-ne-nil b'/' path) in
    parents-Short names [] n
      (but_last-All (Lacks b'/') (split b'/' path) (split-Lacks_all b'/' path)) (omega arith)

lookup-add :
    (t : Text) (n : ℕ) (l : List Text) (d : Dict Node)
    → n < length (split b'/' t)
    → All (Short n) l
    → lookup t (add_directories l d) ≡ lookup t d
unfolding add_directories Short
lookup-add t n [] d h k = refl
lookup-add t n (a ∷ l) d h (k, ks) =
    lookup-add t n l (with_directory (lookup a d) a d) h ks ∙ one (lookup a d)
  where
    one : (o : Option Node) → lookup t (with_directory o a d) ≡ lookup t d
    one none = elim (Bool-cases (text_eq a t)) [
      | inl e ↦
          let same = (text_eq_iff a t).0 e in
          absurd (omega (arith, ap (λ x. length (split b'/' x)) same))
      | inr e ↦ rw (lookup-insert a t directory d, e) refl
    ]
    one (some n) = refl

put-returns :
    (b : FileBlob) (key : Text) (v : Bytes) (c : ℕ) (path : Text)
    → IsClosed b.nodes
    → resolve b.root key ≡ ok (c ∷ path)
    → blocked b.nodes (ancestors (c ∷ path)) ≡ false
    → lookup (c ∷ path) b.nodes ≢ some directory
    → (put key v b).0 ≡ ok tt
unfolding put make_parents
put-returns b key v c path w h k n =
    let dirs = ancestors (c ∷ path) in
    let d = add_directories dirs b.nodes in
    let a = make-Added (c ∷ path) b.nodes w k in
    let m = length-but_last (split b'/' (c ∷ path)) (split-ne-nil b'/' (c ∷ path)) in
    let size = length (but_last (split b'/' (c ∷ path))) in
    let same =
      lookup-add (c ∷ path) size dirs b.nodes (omega arith)
        (ancestors-Short (c ∷ path) size (omega arith)) in
    rw (h, put_at, k, after_parents)
      (elim (write-cases c path v d (not_blocked d dirs a.there)) [
        | inl (e, f) ↦ rw (e, after_write) refl
        | inr (e, f) ↦ absurd (n (sym same ∙ f))
      ])

get-written :
    (b : FileBlob) (key : Text) (v : Bytes) (path : Text) (x : Result (Unit {0}) × FileBlob)
    → resolve b.root key ≡ ok path
    → x.0 ≡ ok tt
    → Outcome path v b x
    → (get key x.1).0 ≡ ok v
get-written b key v path (err e, y) h k o = absurd (cc)
get-written b key v path (ok u, y) h k (w, r, (s, others)) =
    ap (λ z. z.0) (get-view y key path w (ap (λ z. resolve z key) r ∙ h) s)

-- Where no file stands above the path of a key and no directory at it, on a system that takes names of
-- that length and grants access, `put` returns, and `get` of the key then returns the bytes that were put.
pub put-get :
    (b : FileBlob) (key : Text) (v : Bytes) (c : ℕ) (path : Text)
    → IsClosed b.nodes
    → resolve b.root key ≡ ok (c ∷ path)
    → blocked b.nodes (ancestors (c ∷ path)) ≡ false
    → lookup (c ∷ path) b.nodes ≢ some directory
    → ((put key v b).0 ≡ ok tt) × ((get key (put key v b).1).0 ≡ ok v)
put-get b key v c path w h k n =
    let done = put-returns b key v c path w h k n in
    (done, get-written b key v (c ∷ path) (put key v b) h done (put-Outcome b key v w h))
