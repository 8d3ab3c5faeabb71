-- ===== src/S3/Keys.antt =====
-- Keys in the bucket: behind the prefix, and without it again.
use gufo_blob.Base.{
  [], ◌∷◌, ◌++◌, ◌≡◌, ◌≢◌, refl, arith, Text, starts_with, starts_with-append, drop-append,
}
use gufo_blob.S3.{prefix_raw, full_key, full_prefix, strip_prefix}

starts_with-behind : (p s t : Text) → starts_with (p ++ s) (p ++ t) ≡ starts_with s t
unfolding starts_with
starts_with-behind [] s t = refl
starts_with-behind (c ∷ p) s t = ground (arith, starts_with-behind p s t)

-- A key that is not empty, put behind the prefix, is given back without it, whatever the prefix; and
-- it is matched by a wanted prefix, put behind it the same way, exactly when it starts with that.
pub strip_prefix-full_key :
    (prefix key wanted : Text)
    → key ≢ []
    → (strip_prefix prefix (full_key prefix key) ≡ key)
      × (starts_with (full_key prefix key) (full_prefix prefix wanted) ≡ starts_with key wanted)
unfolding strip_prefix full_key full_prefix
strip_prefix-full_key prefix [] wanted h = absurd (h refl)
strip_prefix-full_key prefix (c ∷ key) wanted h =
    let raw = prefix_raw prefix in
    (
      rw (starts_with-append raw (c ∷ key), drop-append raw (c ∷ key)) refl,
      starts_with-behind raw (c ∷ key) wanted,
    )
