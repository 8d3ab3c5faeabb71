-- ===== src/Utils/Decimal.antt =====
-- Printing a number in decimal (an `int` in an f-string), and reading it back.
use gufo_blob.Base.{
  ℕ, zero, suc, ◌+◌, ◌*◌, ◌/◌, ◌%◌, ◌≤◌, ◌<◌, Bool, true, false, [], ◌∷◌, some, ◌==◌, if◌then◌else◌,
  Bytes, length, ◌≡◌, ◌≢◌, refl, arith, All,
}
use gufo_blob.Base.Int.{pos}
use gufo_blob.Base.Result.{ok}
use gufo_blob.Utils.{scan_digits, count_digits, signed, int_of, max_digits, bytes_to_int}

abbrev pub IsDigit : ℕ → Type 0
IsDigit c = (b'0' ≤ c) × (c ≤ b'9')

-- the digits of `n` in front of `out`; `n` rounds are enough
unfoldable pub emit : ℕ → ℕ → Bytes → Bytes
emit zero n out = out
emit (suc f) n out =
    let rest = emit f (n / 10) ((b'0' + n % 10) ∷ out) in if n == 0 then out else rest

-- `str(n)`
unfoldable pub decimal : ℕ → Bytes
unfolding emit
decimal n = if n == 0 then b'0' ∷ [] else emit n n []

scan_digit :
    (d : ℕ) (s : Bytes) (n : ℕ) (b : Bool)
    → d < 10
    → scan_digits ((b'0' + d) ∷ s) n b ≡ scan_digits s (n * 10 + d) true
unfolding scan_digits
scan_digit d s n b h = ground arith

emit-zero : (f : ℕ) (out : Bytes) → emit f 0 out ≡ out
unfolding emit
emit-zero zero out = refl
emit-zero (suc f) out = refl

scan_digits-emit :
    (f n : ℕ) (out : Bytes) (b : Bool)
    → 0 < n
    → n ≤ f
    → scan_digits (emit f n out) 0 b ≡ scan_digits out n true
unfolding emit
scan_digits-emit zero n out b pos_n h = absurd (omega arith)
scan_digits-emit (suc f) n out b pos_n h = ground (
  arith,
  scan_digits-emit f (n / 10) ((b'0' + n % 10) ∷ out) b,
  scan_digit (n % 10) out (n / 10) true,
  scan_digit (n % 10) out 0 b,
  emit-zero f ((b'0' + n % 10) ∷ out),
)

-- Every printed number is a row of digits.
emit-digits : (f n : ℕ) (out : Bytes) → All IsDigit out → All IsDigit (emit f n out)
unfolding emit
emit-digits zero n out h = h
emit-digits (suc f) n out h = ground (arith, emit-digits f (n / 10) ((b'0' + n % 10) ∷ out))

pub decimal-digits : (n : ℕ) → All IsDigit (decimal n)
unfolding decimal
decimal-digits n = ground (arith, emit-digits n n [])

pub scan_digits-decimal : (n : ℕ) → scan_digits (decimal n) 0 false ≡ some n
unfolding decimal scan_digits
scan_digits-decimal n = ground (arith, scan_digits-emit n n [] false)

signed-digits :
    (x : Bytes) (n : ℕ) → All IsDigit x → scan_digits x 0 false ≡ some n → signed x ≡ some (pos n)
unfolding signed
signed-digits [] n h e = cc
signed-digits (c ∷ s) n (h, hs) e = ground arith

count_digits-length : (x : Bytes) → All IsDigit x → count_digits x ≡ length x
unfolding count_digits
count_digits-length [] h = refl
count_digits-length (c ∷ s) (h, hs) = ground (arith, count_digits-length s hs)

-- A printed number of at most `max_digits` digits is read back.
pub bytes_to_int-decimal :
    (n : ℕ) → length (decimal n) ≤ max_digits → bytes_to_int (decimal n) ≡ ok (pos n)
unfolding bytes_to_int int_of
bytes_to_int-decimal n h = ground (
  arith,
  count_digits-length (decimal n) (decimal-digits n),
  signed-digits (decimal n) n (decimal-digits n) (scan_digits-decimal n),
)

emit-ne-nil : (f n : ℕ) (out : Bytes) → out ≢ [] → emit f n out ≢ []
unfolding emit
emit-ne-nil zero n out h = h
emit-ne-nil (suc f) n out h = ground (arith, emit-ne-nil f (n / 10) ((b'0' + n % 10) ∷ out))

pub decimal-ne-nil : (n : ℕ) → decimal n ≢ []
unfolding decimal emit
decimal-ne-nil zero = cc
decimal-ne-nil (suc n) = ground (arith, emit-ne-nil n (suc n / 10) ((b'0' + suc n % 10) ∷ []))
