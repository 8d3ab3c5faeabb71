-- ===== src/Sqlite/Scan.antt =====
-- Which keys a scan lists.
use gufo_blob.Base.{true, [], ◌∷◌, ◌≡◌, refl, arith, Text}
use gufo_blob.Sqlite.{text_leb}

text_leb_refl : (k : Text) → text_leb k k ≡ true
text_leb_refl [] = refl
text_leb_refl (c ∷ k) = ground (arith, text_leb_refl k)
