-- ===== src/File/Tests.antt =====
-- The file store on a small tree.
use gufo_blob.Base.{
  [], ◌∷◌, List, some, true, false, ◌++◌, arith, Text, codes, ◌≡◌, ◌≢◌, refl, text_eq, contains,
  All,
}
use gufo_blob.Base.Dict.{lookup, insert}
use gufo_blob.Base.Result.{ok, err, os_exception, is_a_directory}
use mathlib.Core.Path.{subst}
use gufo_blob.Ftp.Common.Methods.{split, join, but_last}
use gufo_blob.Blob.Simulation.{put_call, respond}
use gufo_blob.File.{
  FileBlob, file, directory, a_directory, resolve, put, get, delete, exists, walk_all, kind,
  ancestors, blocked, bad_names, has_surrogate, has_nul,
}
use gufo_blob.File.Sandbox.{IsName, resolve_sound}
use gufo_blob.File.Directories.{IsClosed}
use gufo_blob.File.Contents.{view, Outcome, put-Outcome}
use gufo_blob.File.Calls.{file_blob, respond-IsClosed, exists-above}
use gufo_blob.File.Writes.{put-get}

abbrev root : List Text
root = codes "srv" ∷ []

abbrev empty : FileBlob
empty = record { root = root; nodes = [] }

abbrev tree : FileBlob
tree = record { root = root; nodes = (codes "a", directory) ∷ (codes "a/x", file (7 ∷ [])) ∷ [] }

empty-IsClosed : IsClosed empty.nodes
unfolding lookup
empty-IsClosed = record { nodup = tt; above = λ t n h. absurd (cc) }

resolve_key : resolve root (codes "a/x") ≡ ok (codes "a/x")
unfolding resolve split text_eq join bad_names has_surrogate has_nul
resolve_key = refl

put_tree : (put (codes "a/x") (7 ∷ []) empty).1 ≡ tree
unfolding put bad_names has_surrogate has_nul split text_eq but_last join lookup insert
put_tree = refl

tree-IsClosed : IsClosed tree.nodes
tree-IsClosed =
    subst (λ b. IsClosed b.nodes) put_tree
      (put-Outcome empty (codes "a/x") (7 ∷ []) empty-IsClosed resolve_key).0

resolve_above : resolve root (codes "a") ≡ ok (codes "a")
unfolding resolve split text_eq join bad_names has_surrogate has_nul
resolve_above = refl

names-IsName : All IsName root
names-IsName = (
  (
    cc,
    cc,
    cc,
    (
      λ h. absurd (omega (arith, h)),
      (λ h. absurd (omega (arith, h)), (λ h. absurd (omega (arith, h)), tt)),
    ),
  ),
  tt,
)

resolve_sound_example :
    (names : List Text) × (codes "a/x" ≡ join b'/' names)
    × All IsName names
    × (walk_all root (split b'/' (codes "a/x")) ≡ root ++ names)
resolve_sound_example = resolve_sound root (codes "a/x") names-IsName resolve_key

put-Outcome_example : Outcome (codes "a/x") (7 ∷ []) empty (put (codes "a/x") (7 ∷ []) empty)
put-Outcome_example = put-Outcome empty (codes "a/x") (7 ∷ []) empty-IsClosed resolve_key

respond-IsClosed_example : IsClosed (respond file_blob (put_call (codes "a") []) tree).1.nodes
respond-IsClosed_example = respond-IsClosed (put_call (codes "a") []) tree tree-IsClosed

tree_holds : view tree (codes "a/x") ≡ some (7 ∷ [])
unfolding lookup text_eq
tree_holds = refl

kind_above : kind tree.nodes (codes "a") ≡ a_directory
unfolding kind split but_last lookup text_eq
kind_above = refl

stored_file : lookup (codes "a/x") tree.nodes ≡ some (file (7 ∷ []))
unfolding lookup text_eq
stored_file = refl

above_file : contains (ancestors (codes "a/x")) (codes "a") ≡ true
unfolding contains ancestors split but_last text_eq join
above_file = refl

exists-above_example :
    (exists (codes "a") tree ≡ (ok true, tree))
    × (get (codes "a") tree ≡ (err (os_exception is_a_directory), tree))
    × (delete (codes "a") tree ≡ (err (os_exception is_a_directory), tree))
exists-above_example =
    exists-above tree (codes "a") (codes "a") (codes "a/x") tree-IsClosed stored_file above_file
      resolve_above

free : blocked empty.nodes (ancestors (codes "a/x")) ≡ false
unfolding blocked ancestors split but_last join lookup
free = refl

no_directory : lookup (codes "a/x") empty.nodes ≢ some directory
unfolding lookup
no_directory = cc

put-get_example :
    ((put (codes "a/x") (7 ∷ []) empty).0 ≡ ok tt)
    × ((get (codes "a/x") (put (codes "a/x") (7 ∷ []) empty).1).0 ≡ ok (7 ∷ []))
put-get_example =
    put-get empty (codes "a/x") (7 ∷ []) b'a' (codes "/x") empty-IsClosed resolve_key free
      no_directory
