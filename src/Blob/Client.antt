-- ===== src/Blob/Client.antt =====
-- What a client of any lawful store may rely on, through the dict-like methods.
use gufo_blob.Base.{true, false, Option, ◌≡◌, ◌≢◌, arith, Text, Bytes, text_eq_iff, text_eq_refl}
use gufo_blob.Base.Result.{ok, err, key_error}
use gufo_blob.Blob.{Blob, IsLawful, get_item, set_item, delete_item, contains_item}

module _ (B : Blob) {valid : B.State → Type 0} {view : B.State → Text → Option Bytes}
    (L : IsLawful B valid view) where
  -- After a successful `blob[k] = v` on a valid state of a lawful store, `blob[k]` is `v` and `k in
  -- blob` holds.
  pub get_item-set_item :
      (k : Text) (v : Bytes) (s : B.State)
      → valid s
      → (set_item B k v s).0 ≡ ok tt
      → ((get_item B k (set_item B k v s).1).0 ≡ ok v)
        × ((contains_item B k (set_item B k v s).1).0 ≡ ok true)
  unfolding get_item set_item contains_item
  get_item-set_item k v s w h = ground (
    arith,
    L.get_lem k (B.put k v s).1 (L.put_valid k v s w),
    L.exists_lem k (B.put k v s).1 (L.put_valid k v s w),
    L.put_ok k k v s w h,
    text_eq_refl k,
  )

  -- A successful `blob[k] = v` on a valid state of a lawful store leaves `blob[j]` as it was, for
  -- every other key j.
  pub get_item-set_item_ne :
      (k j : Text) (v : Bytes) (s : B.State)
      → valid s
      → k ≢ j
      → (set_item B k v s).0 ≡ ok tt
      → (get_item B j (set_item B k v s).1).0 ≡ (get_item B j s).0
  unfolding get_item set_item
  get_item-set_item_ne k j v s w n h = ground (
    arith,
    L.get_lem j (B.put k v s).1 (L.put_valid k v s w),
    L.get_lem j s w,
    L.put_ok k j v s w h,
    text_eq_iff k j,
  )

  -- After `del blob[k]` on a valid state of a lawful store the key is absent, a second `del` raises
  -- `KeyError(k)`, and every other key reads as before; whether or not the key was there.
  pub delete_item_lem :
      (k : Text) (s : B.State)
      → valid s
      → let s' = (delete_item B k s).1 in
        ((contains_item B k s').0 ≡ ok false)
        × ((delete_item B k s').0 ≡ err (key_error k))
        × ((j : Text) → k ≢ j → (get_item B j s').0 ≡ (get_item B j s).0)
  unfolding get_item delete_item contains_item
  delete_item_lem k s w =
      let w' = L.delete_valid k s w in
      let s' = (B.delete k s).1 in
      (
        ground (arith, L.exists_lem k s' w', L.delete_view k k s w, text_eq_refl k),
        ground (arith, L.delete_missing k s' w', L.delete_view k k s w, text_eq_refl k),
        λ j n.
            ground
              (arith, L.get_lem j s' w', L.get_lem j s w, L.delete_view k j s w, text_eq_iff k j),
      )
