-- ===== src/Utils/Tests.antt =====
-- The integer readers of src/gufo/blob/utils.py on concrete bytes.
use gufo_blob.Base.{some, ◌≡◌, ◌↔◌, codes}
use gufo_blob.Base.Int.{pos}
use gufo_blob.Base.Result.{ok}
use gufo_blob.Utils.{int_of, bytes_to_int_range}
use gufo_blob.Utils.Bounds.{AtLeast, AtMost, bytes_to_int_range_iff}

bytes_to_int_range_iff_example :
    (bytes_to_int_range (codes " 2_5\n") (some (pos 1)) (some (pos 30)) ≡ ok (pos 25)) ↔ (
      (int_of (codes " 2_5\n") ≡ some (pos 25))
      × AtLeast (some (pos 1)) (pos 25)
      × AtMost (some (pos 30)) (pos 25))
bytes_to_int_range_iff_example =
    bytes_to_int_range_iff (codes " 2_5\n") (some (pos 1)) (some (pos 30)) (pos 25)
