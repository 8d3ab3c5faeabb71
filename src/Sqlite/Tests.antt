-- ===== src/Sqlite/Tests.antt =====
-- The store of src/gufo/blob/sync/sqlite.py over a concrete engine: a dictionary for each row of names,
-- with a table there from the start.
use gufo_blob.Base.{
  true, List, [], ◌∷◌, Option, none, some, length, Bool-cases, inl, inr, ◌≡◌, ◌↔◌, refl, arith,
  Text, Bytes, codes,
}
use gufo_blob.Base.Int.{pos}
use gufo_blob.Base.Dict.{Dict, lookup, NodupKeys, insert-NodupKeys}
use gufo_blob.Base.Result.{ok, err, blob_error, invalid_identifier}
use gufo_blob.Sqlite.{
  Engine, IsEngine, SqliteBlob, Condition, Conflict, do_nothing, do_update, with_row, where_rows,
  other_rows, all_hold, clean_db_item,
}
use gufo_blob.Sqlite.Identifiers.{IsIdentifier, clean_db_item_iff}

abbrev one_table : Engine
one_table = record {
  Db = Dict Bytes;
  pragma = λ p d. d;
  create_table = λ n d. d;
  insert_row = λ n c k v d. with_row c k v (lookup k d) d;
  select_rows = λ n cs d. where_rows cs d;
  delete_rows = λ n cs d. (length (where_rows cs d), other_rows cs d);
}

with_row-NodupKeys :
    (c : Conflict) (k : Text) (v : Bytes) (o : Option Bytes) (d : Dict Bytes)
    → NodupKeys d
    → NodupKeys (with_row c k v o d)
with_row-NodupKeys c k v none d h = insert-NodupKeys k v d h
with_row-NodupKeys do_update k v (some w) d h = insert-NodupKeys k v d h
with_row-NodupKeys do_nothing k v (some w) d h = h

lookup-other_none :
    (cs : List Condition) (k : Text) (d : Dict Bytes)
    → lookup k d ≡ none
    → lookup k (other_rows cs d) ≡ none
unfolding other_rows lookup
lookup-other_none cs k [] h = refl
lookup-other_none cs k ((j, v) ∷ d) h = ground (arith, lookup-other_none cs k d)

other_rows-NodupKeys :
    (cs : List Condition) (d : Dict Bytes) → NodupKeys d → NodupKeys (other_rows cs d)
unfolding other_rows
other_rows-NodupKeys cs [] h = tt
other_rows-NodupKeys cs ((k, v) ∷ d) (fresh, h) = elim (Bool-cases (all_hold cs k)) [
  | inl e ↦ rw (e, other_rows) (other_rows-NodupKeys cs d h)
  | inr e ↦ rw (e, other_rows) (lookup-other_none cs k d fresh, other_rows-NodupKeys cs d h)
]

other_rows_all : (cs : List Condition) (d : Dict Bytes) → where_rows cs d ≡ [] → other_rows cs d ≡ d
unfolding where_rows other_rows
other_rows_all cs [] h = refl
other_rows_all cs ((k, v) ∷ d) h = ground (arith, other_rows_all cs d)

abbrev lawful : IsEngine one_table
lawful = record {
  HasTable = λ n d. NodupKeys d;
  rows = λ n d. d;
  primary_key = λ n d h. h;
  pragma_has = λ p n d h. h;
  pragma_rows = λ p n d h. refl;
  create_has = λ n d h. h;
  create_rows = λ n d h. refl;
  insert_has = λ n c k v d h. with_row-NodupKeys c k v (lookup k d) d h;
  insert_rows = λ n c k v d h. refl;
  select_rows_lem = λ n cs d h. refl;
  delete_has = λ n cs d h. other_rows-NodupKeys cs d h;
  delete_count = λ n cs d h. refl;
  delete_rows_lem = λ n cs d h. refl;
  delete_no_rows = λ n cs d h e. other_rows_all cs d e;
}

abbrev rows : SqliteBlob one_table
rows = record {
  names = record { table = codes "blobs"; key_col = codes "k"; value_col = codes "v" };
  timeout = pos 5000;
  conn = true;
  db = (codes "a", 1 ∷ []) ∷ (codes "ab", 2 ∷ []) ∷ [];
}

clean_db_item_iff_example :
    ((clean_db_item (codes "a-b") ≡ ok (codes "a-b")) ↔ IsIdentifier (codes "a-b"))
    × ((clean_db_item (codes "a-b") ≡ err (blob_error invalid_identifier))
        ↔ (¬ IsIdentifier (codes "a-b")))
clean_db_item_iff_example = clean_db_item_iff (codes "a-b")
