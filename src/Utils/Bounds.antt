-- ===== src/Utils/Bounds.antt =====
-- Which byte strings the checked readers of utils.py accept.
use gufo_blob.Base.{ℕ, ◌≤◌, Bytes, ◌≡◌, ◌↔◌, Option, none, some, arith, length}
use gufo_blob.Base.Int.{ℤ, pos, ◌≤ℤ◌}
use gufo_blob.Base.Result.{ok}
use gufo_blob.Utils.{int_of, bytes_to_int_range, bytes_to_octet, max_digits}
use gufo_blob.Utils.Decimal.{decimal, bytes_to_int-decimal}

abbrev pub AtLeast : Option ℤ → ℤ → Type 0
AtLeast none n = Unit
AtLeast (some low) n = low ≤ℤ n

abbrev pub AtMost : Option ℤ → ℤ → Type 0
AtMost none n = Unit
AtMost (some high) n = n ≤ℤ high

-- A reader with optional bounds returns n exactly when the bytes are an integer literal of value n
-- that meets each bound that is set.
pub bytes_to_int_range_iff :
    (x : Bytes) (min_value max_value : Option ℤ) (n : ℤ)
    → (bytes_to_int_range x min_value max_value ≡ ok n)
      ↔ ((int_of x ≡ some n) × AtLeast min_value n × AtMost max_value n)
unfolding bytes_to_int_range
bytes_to_int_range_iff x none none n = (λ h. ground arith, λ h. ground arith)
bytes_to_int_range_iff x none (some high) n = (λ h. ground arith, λ h. ground arith)
bytes_to_int_range_iff x (some low) none n = (λ h. ground arith, λ h. ground arith)
bytes_to_int_range_iff x (some low) (some high) n = (λ h. ground arith, λ h. ground arith)

-- The octet reader returns n exactly when the bytes are an integer literal of value n and n is one
-- of 0, ..., 255.
pub bytes_to_octet_iff :
    (x : Bytes) (n : ℤ)
    → (bytes_to_octet x ≡ ok n) ↔ ((int_of x ≡ some n) × (pos 0 ≤ℤ n) × (n ≤ℤ pos 255))
unfolding bytes_to_octet
bytes_to_octet_iff x n = (λ h. ground arith, λ h. ground arith)

-- Every octet, printed in decimal, is read back by the octet reader.
pub bytes_to_octet-decimal :
    (n : ℕ) → n ≤ 255 → length (decimal n) ≤ max_digits → bytes_to_octet (decimal n) ≡ ok (pos n)
unfolding bytes_to_octet
bytes_to_octet-decimal n h k = ground (arith, bytes_to_int-decimal n k)
