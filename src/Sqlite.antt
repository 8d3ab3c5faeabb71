-- ===== src/Sqlite.antt =====
-- src/gufo/blob/sync/sqlite.py: a store in a table of a SQLite database. The database engine is a
-- parameter: `Engine` has the statements of SQL, with their conditions and their ON CONFLICT, and `IsEngine`
-- says what SQLite documents of them. `connection` runs under `_conn_lock`, so it is one step.
-- A key has no lone surrogate, which sqlite3 does not encode.
pub mod Identifiers
pub mod Url
pub mod Contents
pub mod Scan
mod Tests
use gufo_blob.Base.{
  ℕ, ◌+◌, Bool, true, false, ◌&&◌, ◌||◌, not, List, [], ◌∷◌, ◌++◌, Option, none, some, ltb, leb,
  ◌==◌, if◌then◌else◌, ◌≡◌, Text, Bytes, codes, text_eq, length,
}
use gufo_blob.Base.Dict.{Dict, lookup, insert, keys, NodupKeys}
use gufo_blob.Base.Int.{ℤ, pos}
use gufo_blob.Base.Result.{Result, ok, err, bind, Exec, blob_error, key_error, invalid_identifier}
use gufo_blob.Blob.{Blob, is_some, found}

abbrev pub is_letter : ℕ → Bool
is_letter c = leb b'A' c && leb c b'Z' || (leb b'a' c && leb c b'z') || (c == b'_')

abbrev pub is_word : ℕ → Bool
is_word c = is_letter c || (leb b'0' c && leb c b'9')

unfoldable pub all_word : Text → Bool
all_word [] = true
all_word (c ∷ cs) = is_word c && all_word cs

-- `rx_db_item.fullmatch`, the expression being `^[A-Za-z_][A-Za-z0-9_]*$`
unfoldable pub fullmatch_db_item : Text → Bool
unfolding all_word
fullmatch_db_item [] = false
fullmatch_db_item (c ∷ cs) = is_letter c && all_word cs

unfoldable pub clean_db_item : Text → Result Text
unfolding fullmatch_db_item
clean_db_item name = if fullmatch_db_item name then ok name else err (blob_error invalid_identifier)

-- The table and the columns that a statement names.
pub record Names : Type 0 where
  pub table : Text
  pub key_col : Text
  pub value_col : Text

pub data Pragma : Type 0 where
  journal_mode_wal synchronous_normal : Pragma
  busy_timeout : ℤ → Pragma

-- What stands behind `ON CONFLICT` of the key
pub data Conflict : Type 0 where
  do_nothing do_update : Conflict

-- A comparison of a key column with a parameter
pub data Condition : Type 0 where
  key_is key_from key_below : Text → Condition

-- A database, and the statements of SQL that the source is made of. A DELETE tells how many
-- rows it has deleted.
pub record Engine : Type 1 where
  pub Db : Type 0
  pub pragma : Pragma → Db → Db
  pub create_table : Names → Db → Db
  pub insert_row : Names → Conflict → Text → Bytes → Db → Db
  pub select_rows : Names → List Condition → Db → Dict Bytes
  pub delete_rows : Names → List Condition → Db → ℕ × Db

-- SQLite's BINARY collation: the order of the UTF-8 bytes, which is that of the code points.
abbrev pub text_leb : Text → Text → Bool
text_leb [] k = true
text_leb (a ∷ p) [] = false
text_leb (a ∷ p) (c ∷ k) = if ltb a c then true else (a == c) && text_leb p k

abbrev pub holds : Condition → Text → Bool
holds (key_is k) key = text_eq key k
holds (key_from k) key = text_leb k key
holds (key_below k) key = not (text_leb k key)

unfoldable pub all_hold : List Condition → Text → Bool
all_hold [] key = true
all_hold (c ∷ cs) key = holds c key && all_hold cs key

-- The rows for which the conditions of a WHERE hold, and the others
unfoldable pub where_rows : List Condition → Dict Bytes → Dict Bytes
unfolding all_hold
where_rows cs [] = []
where_rows cs ((k, v) ∷ rows) =
    let rest = where_rows cs rows in if all_hold cs k then (k, v) ∷ rest else rest

unfoldable pub other_rows : List Condition → Dict Bytes → Dict Bytes
unfolding all_hold
other_rows cs [] = []
other_rows cs ((k, v) ∷ rows) =
    let rest = other_rows cs rows in if all_hold cs k then rest else (k, v) ∷ rest

-- What a row that is inserted makes of the rows, with the key as the primary key
abbrev pub with_row : Conflict → Text → Bytes → Option Bytes → Dict Bytes → Dict Bytes
with_row c k v none rows = insert k v rows
with_row do_update k v (some w) rows = insert k v rows
with_row do_nothing k v (some w) rows = rows

-- What SQLite documents of the statements, on the rows of a table that has been created. What a PRAGMA
-- or `CREATE TABLE IF NOT EXISTS` does to a table that is there is nothing.
pub record IsEngine (E : Engine) : Type 1 where
  pub HasTable : Names → E.Db → Type 0
  pub rows : Names → E.Db → Dict Bytes
  pub primary_key : (n : Names) (d : E.Db) → HasTable n d → NodupKeys (rows n d)
  pub pragma_has : (p : Pragma) (n : Names) (d : E.Db) → HasTable n d → HasTable n (E.pragma p d)
  pub pragma_rows :
      (p : Pragma) (n : Names) (d : E.Db) → HasTable n d → rows n (E.pragma p d) ≡ rows n d
  pub create_has : (n : Names) (d : E.Db) → HasTable n d → HasTable n (E.create_table n d)
  pub create_rows : (n : Names) (d : E.Db) → HasTable n d → rows n (E.create_table n d) ≡ rows n d
  pub insert_has :
      (n : Names) (c : Conflict) (k : Text) (v : Bytes) (d : E.Db)
      → HasTable n d
      → HasTable n (E.insert_row n c k v d)
  pub insert_rows :
      (n : Names) (c : Conflict) (k : Text) (v : Bytes) (d : E.Db)
      → HasTable n d
      → rows n (E.insert_row n c k v d) ≡ with_row c k v (lookup k (rows n d)) (rows n d)
  pub select_rows_lem :
      (n : Names) (cs : List Condition) (d : E.Db)
      → HasTable n d
      → E.select_rows n cs d ≡ where_rows cs (rows n d)
  pub delete_has :
      (n : Names) (cs : List Condition) (d : E.Db)
      → HasTable n d
      → HasTable n (E.delete_rows n cs d).1
  pub delete_count :
      (n : Names) (cs : List Condition) (d : E.Db)
      → HasTable n d
      → (E.delete_rows n cs d).0 ≡ length (where_rows cs (rows n d))
  pub delete_rows_lem :
      (n : Names) (cs : List Condition) (d : E.Db)
      → HasTable n d
      → rows n (E.delete_rows n cs d).1 ≡ other_rows cs (rows n d)
  pub delete_no_rows :
      (n : Names) (cs : List Condition) (d : E.Db)
      → HasTable n d
      → where_rows cs (rows n d) ≡ []
      → (E.delete_rows n cs d).1 ≡ d

-- `cursor.fetchone()`
abbrev pub first_row : Dict Bytes → Option Bytes
first_row [] = none
first_row ((k, v) ∷ rows) = some v

module _ (E : Engine) where
  -- `_conn` is kept as whether there is one, and the database file beside it.
  pub record SqliteBlob : Type 0 where
    pub names : Names
    pub timeout : ℤ
    pub conn : Bool
    pub db : E.Db

  -- `__init__`: the three names are checked in this order.
  unfoldable pub init : Text → Text → Text → ℤ → E.Db → Result SqliteBlob
  unfolding clean_db_item
  init table key_col value_col timeout db = bind (clean_db_item table) λ t.
      bind (clean_db_item key_col) λ k. bind (clean_db_item value_col) λ v. ok record {
        names = record { table = t; key_col = k; value_col = v };
        timeout = timeout;
        conn = false;
        db = db;
      }

  -- what a new connection executes before its first use
  unfoldable pub prepare : Names → ℤ → E.Db → E.Db
  prepare n timeout d =
      let wal = E.pragma journal_mode_wal d in
      let normal = E.pragma synchronous_normal wal in
      let busy = E.pragma (busy_timeout timeout) normal in E.create_table n busy

  unfoldable pub connection : SqliteBlob → SqliteBlob
  unfolding prepare
  connection b = if b.conn then b else record b { conn = true; db = prepare b.names b.timeout b.db }

  unfoldable pub open_blob : Exec SqliteBlob (Unit {0})
  unfolding connection
  open_blob b = (ok tt, connection b)

  unfoldable pub close : Exec SqliteBlob (Unit {0})
  close b = (ok tt, if b.conn then record b { conn = false } else b)

  unfoldable pub put : Text → Bytes → Exec SqliteBlob (Unit {0})
  unfolding connection
  put key bytes b =
      let c = connection b in
      (ok tt, record c { db = E.insert_row c.names do_update key bytes c.db })

  unfoldable pub get : Text → Exec SqliteBlob Bytes
  unfolding connection
  get key b =
      let c = connection b in
      (found key (first_row (E.select_rows c.names (key_is key ∷ []) c.db)), c)

  unfoldable pub delete : Text → Exec SqliteBlob (Unit {0})
  unfolding connection
  delete key b =
      let c = connection b in
      let (rowcount, d) = E.delete_rows c.names (key_is key ∷ []) c.db in
      (if rowcount == 0 then err (key_error key) else ok tt, record c { db = d })

  unfoldable pub exists : Text → Exec SqliteBlob Bool
  unfolding connection
  exists key b =
      let c = connection b in
      (ok (is_some (first_row (E.select_rows c.names (key_is key ∷ []) c.db))), c)

  -- `prefix + chr(0x10FFFF)`
  abbrev pub upper : Text → Text
  upper prefix = prefix ++ 1114111 ∷ []

  -- `scan`, run to the end
  unfoldable pub scan : Text → Exec SqliteBlob (List Text)
  unfolding connection
  scan prefix b =
      let c = connection b in
      (ok (keys (E.select_rows c.names (key_from prefix ∷ key_below (upper prefix) ∷ []) c.db)), c)

  -- The methods, as an implementation of the interface.
  abbrev pub sqlite_blob : Blob
  sqlite_blob = record {
    State = SqliteBlob;
    put = put;
    get = get;
    delete = delete;
    exists = exists;
    scan = scan;
  }
