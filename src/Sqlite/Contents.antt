-- ===== src/Sqlite/Contents.antt =====
-- The SQLite store implements the map of its table, and connects by itself.
use gufo_blob.Base.{
  true, ◌&&◌, List, [], ◌∷◌, Option, Text, Bytes, contains, text_eq_iff, ◌≡◌, refl, ap, ◌∙◌, arith,
  Bool-cases, inl, inr,
}
use gufo_blob.Base.Dict.{Dict, lookup, keys}
use gufo_blob.Blob.{is_some}
use gufo_blob.Sqlite.{
  Engine, IsEngine, Condition, key_is, first_row, where_rows, all_hold, SqliteBlob, prepare,
  connection, open_blob, close, put, get, delete, exists, scan,
}

-- Rows as a map
pub first_row-where :
    (k : Text) (rows : Dict Bytes) → first_row (where_rows (key_is k ∷ []) rows) ≡ lookup k rows
unfolding where_rows all_hold lookup
first_row-where k [] = refl
first_row-where k ((j, v) ∷ rows) = ground (arith, first_row-where k rows)

pub contains-where :
    (cs : List Condition) (k : Text) (rows : Dict Bytes)
    → contains (keys (where_rows cs rows)) k ≡ (is_some (lookup k rows) && all_hold cs k)
unfolding where_rows contains keys lookup
contains-where cs k [] = refl
contains-where cs k ((j, v) ∷ rows) = ground (arith, contains-where cs k rows, text_eq_iff j k)

module _ (E : Engine) (I : IsEngine E) where
  -- The connection is open and has created the table.
  abbrev pub IsOpen : SqliteBlob E → Type 0
  IsOpen b = (b.conn ≡ true) × I.HasTable b.names b.db

  abbrev pub view : SqliteBlob E → Text → Option Bytes
  view b k = lookup k (I.rows b.names b.db)

  connection_twice : (b : SqliteBlob E) → connection E (connection E b) ≡ connection E b
  unfolding connection
  connection_twice b = elim (Bool-cases b.conn) [
    | inl e ↦ ground (arith, e)
    | inr e ↦ ground (arith, e)
  ]

  -- A method that is called on a closed object connects first: it does just what it would do after
  -- an explicit `open`.
  pub open_blob-first :
      (b : SqliteBlob E) (k : Text) (v : Bytes)
      → let c = (open_blob E b).1 in
        (put E k v c ≡ put E k v b)
        × (get E k c ≡ get E k b)
        × (delete E k c ≡ delete E k b)
        × (exists E k c ≡ exists E k b)
        × (scan E k c ≡ scan E k b)
  unfolding open_blob put get delete exists scan
  open_blob-first b k v = rw (connection_twice b) (refl, refl, refl, refl, refl)

  -- `open` gives an open object that keeps every stored value, whatever was done before; closing an
  -- open object and opening it again changes no value either.
  pub open_blob_keeps :
      (b : SqliteBlob E) (k : Text)
      → IsOpen b
      → let c = (open_blob E (close E b).1).1 in IsOpen c × (view c k ≡ view b k)
  unfolding open_blob close connection prepare
  open_blob_keeps b k (e, w) =
      let n = b.names in
      let wal = I.pragma_has _ n _ w in
      let normal = I.pragma_has _ n _ wal in
      let busy = I.pragma_has _ n _ normal in
      rw (e) (
        (refl, I.create_has n _ busy),
        ap (lookup k) (
            I.create_rows n _ busy
            ∙ I.pragma_rows _ n _ normal
            ∙ I.pragma_rows _ n _ wal
            ∙ I.pragma_rows _ n _ w),
      )
