-- ===== src/File.antt =====
-- src/gufo/blob/sync/file.py: a store in a directory of a file system. What pathlib does is modelled on
-- the contents of the root directory: each path below it is a file, a directory or not there. There are
-- no symbolic links and no other writers, the system grants every access, and no name of a key is longer
-- than the system takes.
pub mod Sandbox
pub mod Url
pub mod Calls
pub mod Contents
pub mod Directories
pub mod Writes
mod Tests
use gufo_blob.Base.{
  ℕ, leb, Bool, true, false, ◌&&◌, ◌||◌, not, List, [], ◌∷◌, ◌++◌, Option, none, some,
  if◌then◌else◌, ◌==◌, Text, Bytes, codes, text_eq, starts_with, ◌≡◌,
}
use gufo_blob.Base.Dict.{Dict, lookup, insert, remove, keys}
use gufo_blob.Base.Result.{
  Result, ok, err, bind, Error, Exec, unicode_error, value_error, blob_error, key_error,
  os_exception, invalid_root, invalid_key, key_escapes, is_a_directory, not_a_directory,
  file_exists,
}
use gufo_blob.Blob.{Blob}
use gufo_blob.Ftp.Common.{parents}
use gufo_blob.Ftp.Common.Methods.{split, join, but_last, last_or}

pub data Node : Type 0 where
  file : Bytes → Node
  directory : Node

-- `_root` as the names on the way to it, and what is below it, under relative paths.
pub record FileBlob : Type 0 where
  pub root : List Text
  pub nodes : Dict Node

-- `__init__`; what `resolve` makes of the root, and whether a directory is there, is what the system says,
-- which may raise at either.
unfoldable pub init : Result (List Text) → Result Bool → Dict Node → Result FileBlob
init resolved is_dir nodes = bind resolved λ root. bind is_dir λ found.
    if found then ok record { root = root; nodes = nodes } else err (blob_error invalid_root)

-- `(p / name).resolve()` for one name of a key
unfoldable pub walk : List Text → Text → List Text
walk p name =
    if text_eq name [] || text_eq name (codes ".")
    then p
    else if text_eq name (codes "..")
    then but_last p
    else p ++ name ∷ []

unfoldable pub walk_all : List Text → List Text → List Text
unfolding walk
walk_all p [] = p
walk_all p (name ∷ names) = walk_all (walk p name) names

-- `path.relative_to(root)`, with `none` for the ValueError
unfoldable pub relative_to : List Text → List Text → Option (List Text)
relative_to [] p = some p
relative_to (r ∷ root) [] = none
relative_to (r ∷ root) (c ∷ p) = if text_eq r c then relative_to root p else none

abbrev pub starts_bad : Text → Bool
starts_bad [] = true
starts_bad (c ∷ key) = c == b'/'

abbrev pub inside : Option (List Text) → Result Text
inside none = err (blob_error key_escapes)
inside (some p) = ok (join b'/' p)

-- What the system refuses in a name: a lone surrogate outside of U+DC80 to U+DCFF, which `os.fsencode`
-- does not encode, and a NUL.
unfoldable pub has_surrogate : Text → Bool
has_surrogate [] = false
has_surrogate (c ∷ name) =
    leb 55296 c && leb c 57343 && not (leb 56448 c && leb c 56575) || has_surrogate name

unfoldable pub has_nul : Text → Bool
has_nul [] = false
has_nul (c ∷ name) = (c == 0) || has_nul name

unfoldable pub bad_names : List Text → Option Error
unfolding has_surrogate has_nul
bad_names [] = none
bad_names (name ∷ names) =
    let rest = bad_names names in
    if has_surrogate name
    then some unicode_error
    else if has_nul name
    then some value_error
    else rest

-- `path.resolve()` raises for such a name before `relative_to` is called.
abbrev pub unless_bad : Option Error → Result Text → Result Text
unless_bad none r = r
unless_bad (some e) r = err e

-- `_resolve`, to the path relative to the root; this is empty for the root itself.
unfoldable pub resolve : List Text → Text → Result Text
unfolding walk_all relative_to bad_names
resolve root key =
    if starts_bad key
    then err (blob_error invalid_key)
    else unless_bad (bad_names (split b'/' key))
        (inside (relative_to root (walk_all root (split b'/' key))))

-- the directories on the way to a path, the root left out
unfoldable pub ancestors : Text → List Text
unfolding parents
ancestors path = parents (but_last (split b'/' path)) []

abbrev pub is_file : Option Node → Bool
is_file (some (file v)) = true
is_file _ = false

-- Whether a file stands in the way.
unfoldable pub blocked : Dict Node → List Text → Bool
blocked d [] = false
blocked d (a ∷ rest) = is_file (lookup a d) || blocked d rest

-- What the system finds at a path.
pub data Kind : Type 0 where
  a_file : Bytes → Kind
  a_directory missing below_file : Kind

abbrev pub kind_of : Option Node → Kind
kind_of (some (file v)) = a_file v
kind_of (some directory) = a_directory
kind_of none = missing

unfoldable pub kind : Dict Node → Text → Kind
unfolding blocked ancestors
kind d [] = a_directory
kind d (c ∷ path) =
    if blocked d (ancestors (c ∷ path)) then below_file else kind_of (lookup (c ∷ path) d)

abbrev pub with_directory : Option Node → Text → Dict Node → Dict Node
with_directory none a d = insert a directory d
with_directory (some n) a d = d

unfoldable pub add_directories : List Text → Dict Node → Dict Node
add_directories [] d = d
add_directories (a ∷ rest) d = add_directories rest (with_directory (lookup a d) a d)

-- `path.parent.mkdir(parents=True, exist_ok=True)`
unfoldable pub make_parents : Text → Dict Node → Result (Dict Node)
unfolding add_directories blocked ancestors
make_parents path d =
    let dirs = ancestors path in
    if blocked d dirs
    then (if is_file (lookup (last_or [] dirs) d)
        then err (os_exception file_exists)
        else err (os_exception not_a_directory))
    else ok (add_directories dirs d)

-- `path.write_bytes(data)` where the parent is a directory
unfoldable pub write_bytes : Text → Bytes → Dict Node → Result (Dict Node)
unfolding kind
write_bytes path bytes d = elim (kind d path) [
  | a_file old ↦ ok (insert path (file bytes) d)
  | missing ↦ ok (insert path (file bytes) d)
  | a_directory ↦ err (os_exception is_a_directory)
  | below_file ↦ err (os_exception not_a_directory)
]

abbrev pub after_write : List Text → Dict Node → Result (Dict Node) → Result (Unit {0}) × FileBlob
after_write root d (ok e) = (ok tt, record { root = root; nodes = e })
after_write root d (err x) = (err x, record { root = root; nodes = d })

abbrev pub after_parents :
    List Text → Dict Node → Text → Bytes → Result (Dict Node) → Result (Unit {0}) × FileBlob
after_parents root d path bytes (ok e) = after_write root e (write_bytes path bytes e)
after_parents root d path bytes (err x) = (err x, record { root = root; nodes = d })

abbrev pub put_at : Result Text → Bytes → Exec FileBlob (Unit {0})
put_at (ok path) bytes b = after_parents b.root b.nodes path bytes (make_parents path b.nodes)
put_at (err e) bytes b = (err e, b)

unfoldable pub put : Text → Bytes → Exec FileBlob (Unit {0})
unfolding resolve make_parents write_bytes
put key bytes b = put_at (resolve b.root key) bytes b

-- `path.read_bytes()`, with the KeyError for FileNotFoundError
abbrev pub read_bytes : Text → Kind → Result Bytes
read_bytes key (a_file v) = ok v
read_bytes key a_directory = err (os_exception is_a_directory)
read_bytes key missing = err (key_error key)
read_bytes key below_file = err (os_exception not_a_directory)

abbrev pub get_at : Text → Dict Node → Result Text → Result Bytes
get_at key d (ok path) = read_bytes key (kind d path)
get_at key d (err e) = err e

unfoldable pub get : Text → Exec FileBlob Bytes
unfolding resolve kind
get key b = (get_at key b.nodes (resolve b.root key), b)

-- `path.unlink()`
abbrev pub unlink : Text → Text → Kind → Exec FileBlob (Unit {0})
unlink key path (a_file v) b = (ok tt, record b { nodes = remove path b.nodes })
unlink key path a_directory b = (err (os_exception is_a_directory), b)
unlink key path missing b = (err (key_error key), b)
unlink key path below_file b = (err (os_exception not_a_directory), b)

abbrev pub delete_at : Text → Result Text → Exec FileBlob (Unit {0})
delete_at key (ok path) b = unlink key path (kind b.nodes path) b
delete_at key (err e) b = (err e, b)

unfoldable pub delete : Text → Exec FileBlob (Unit {0})
unfolding resolve kind
delete key b = delete_at key (resolve b.root key) b

-- `path.exists()`: also true of a directory
abbrev pub is_there : Kind → Bool
is_there (a_file v) = true
is_there a_directory = true
is_there missing = false
is_there below_file = false

abbrev pub exists_at : Dict Node → Result Text → Result Bool
exists_at d (ok path) = ok (is_there (kind d path))
exists_at d (err e) = err e

unfoldable pub exists : Text → Exec FileBlob Bool
unfolding resolve kind
exists key b = (exists_at b.nodes (resolve b.root key), b)

-- Whether a path is below a directory.
abbrev pub is_below : Text → Text → Bool
is_below [] path = true
is_below (c ∷ base) path = starts_with path ((c ∷ base) ++ b'/' ∷ [])

-- `base.rglob("*")`, the files of it
unfoldable pub files_below : Text → Dict Node → List Text
files_below base [] = []
files_below base ((path, directory) ∷ d) = files_below base d
files_below base ((path, file v) ∷ d) =
    let rest = files_below base d in if is_below base path then path ∷ rest else rest

abbrev pub scan_from : Text → Dict Node → Kind → List Text
scan_from base d (a_file v) = base ∷ []
scan_from base d a_directory = files_below base d
scan_from base d missing = []
scan_from base d below_file = []

abbrev pub scan_at : Dict Node → Result Text → Result (List Text)
scan_at d (ok base) = ok (scan_from base d (kind d base))
scan_at d (err e) = err e

abbrev pub base_of : List Text → Text → Result Text
base_of root [] = ok []
base_of root (c ∷ prefix) = resolve root (c ∷ prefix)

-- `scan`, run to its end
unfoldable pub scan : Text → Exec FileBlob (List Text)
unfolding resolve kind files_below
scan prefix b = (scan_at b.nodes (base_of b.root prefix), b)
