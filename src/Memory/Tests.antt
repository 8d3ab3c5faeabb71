-- ===== src/Memory/Tests.antt =====
-- The store of src/gufo/blob/sync/memory.py on concrete contents.
use gufo_blob.Base.{
  List, text_eq, [], ◌∷◌, none, some, ◌≡◌, ◌↔◌, refl, arith, Text, codes, contains, starts_with,
  ◌&&◌,
}
use gufo_blob.Base.Int.{pos}
use gufo_blob.Base.Dict.{lookup}
use gufo_blob.Base.Result.{ok, err, blob_error, max_size_exceeded}
use gufo_blob.Blob.{is_some}
use gufo_blob.Memory.{MemoryBlob, init, put, scan}
use gufo_blob.Memory.Invariant.{
  IsValid, Call, run, total, put_call, get_call, delete_call, exists_call, scan_call, init-IsValid,
  run-IsValid,
}
use gufo_blob.Memory.Contents.{view, scan_lem}
use gufo_blob.Memory.Limits.{FitsObjects, FitsSize, put_fits, put_empty_key}

abbrev store : MemoryBlob
store = record {
  items = (codes "a", 1 ∷ 2 ∷ []) ∷ [];
  max_objects = some (pos 2);
  max_size = some (pos 5);
  size = pos 2;
}

store-IsValid : IsValid store
unfolding total lookup
store-IsValid = record {
  nodup = (refl, tt);
  counted = refl;
  few = λ _. omega arith;
  small = λ _. omega arith;
}

abbrev store_at_empty_key : MemoryBlob
store_at_empty_key = record {
  items = ([], 1 ∷ 2 ∷ 3 ∷ []) ∷ [];
  max_objects = none;
  max_size = some (pos 4);
  size = pos 3;
}

store_at_empty_key-IsValid : IsValid store_at_empty_key
unfolding total lookup
store_at_empty_key-IsValid = record {
  nodup = (refl, tt);
  counted = refl;
  few = tt;
  small = λ _. omega arith;
}

abbrev calls : List Call
calls =
    put_call (codes "a") (1 ∷ 2 ∷ [])
    ∷ put_call (codes "b") (1 ∷ [])
    ∷ get_call (codes "a")
    ∷ put_call (codes "a") (1 ∷ 2 ∷ 3 ∷ 4 ∷ [])
    ∷ delete_call (codes "b")
    ∷ exists_call (codes "a")
    ∷ scan_call []
    ∷ []

run-IsValid_example : IsValid (run calls (init (some (pos 2)) (some (pos 3))))
run-IsValid_example = run-IsValid calls (init (some (pos 2)) (some (pos 3))) (init-IsValid _ _)

put_fits_example : ((put (codes "b") (3 ∷ []) store).0 ≡ ok tt) ↔ (
    FitsObjects (some (pos 2)) store.items (codes "b") (3 ∷ [])
    × FitsSize (some (pos 5)) store.items (codes "b") (3 ∷ []))
put_fits_example = put_fits store (codes "b") (3 ∷ []) store-IsValid (cc)

put_empty_key_example :
    put [] (4 ∷ 5 ∷ []) store_at_empty_key
    ≡ (err (blob_error max_size_exceeded), store_at_empty_key)
unfolding total lookup text_eq
put_empty_key_example =
    put_empty_key store_at_empty_key (1 ∷ 2 ∷ 3 ∷ []) (4 ∷ 5 ∷ []) 4 store_at_empty_key-IsValid
      (ground arith) refl (omega arith)

scan_lem_example :
    (ks : List Text) × (scan (codes "a") store ≡ (ok ks, store))
    × ((k : Text) → contains ks k ≡ (is_some (view store k) && starts_with k (codes "a")))
scan_lem_example = scan_lem (codes "a") store
