-- ===== src/Utils.antt =====
-- src/gufo/blob/utils.py: numbers read from protocol replies. `int_of` is Python's `int(x)` on a byte
-- string: white space around, a sign, digits with single underscores between them, and at most
-- `max_digits` digits.
mod Tests
pub mod Bounds
pub mod Decimal
use gufo_blob.Base.{
  ℕ, ◌+◌, ◌-◌, ◌*◌, Bool, true, false, ◌&&◌, ◌||◌, List, [], ◌∷◌, Option, none, some, ltb, leb,
  ◌==◌, if◌then◌else◌, Bytes, length,
}
use gufo_blob.Base.Int.{ℤ, pos, negsuc, ◌-ℤ◌, ltb_ℤ}
use gufo_blob.Base.Result.{
  Result, ok, err, bind, blob_error, expecting_integer, too_low, too_large, octet_out_of_bounds,
}

-- `sys.get_int_max_str_digits()`, by default
abbrev pub max_digits : ℕ
max_digits = 4300

-- The bytes that `bytes.split()` and `int` take for white space.
unfoldable pub is_space : ℕ → Bool
is_space c = c == 32 || (leb 9 c && leb c 13)

unfoldable pub is_digit : ℕ → Bool
is_digit c = leb b'0' c && leb c b'9'

pub data DigitKind : Type 0 where
  digit underscore space other : DigitKind

unfoldable pub digit_kind : ℕ → DigitKind
unfolding is_digit is_space
digit_kind c =
    if is_digit c
    then digit
    else if c == b'_'
    then underscore
    else if is_space c
    then space
    else other

unfoldable pub all_space : Bytes → Bool
unfolding is_space
all_space [] = true
all_space (c ∷ s) = is_space c && all_space s

-- The digits behind `n`; the flag says that the last byte was a digit.
unfoldable pub scan_digits : Bytes → ℕ → Bool → Option ℕ
unfolding digit_kind all_space
scan_digits [] n after_digit = if after_digit then some n else none
scan_digits (c ∷ s) n after_digit = elim (digit_kind c) [
  | digit ↦ scan_digits s (n * 10 + (c - b'0')) true
  | underscore ↦ let rest = scan_digits s n false in if after_digit then rest else none
  | space ↦ if after_digit && all_space s then some n else none
  | other ↦ none
]

unfoldable pub count_digits : Bytes → ℕ
unfolding is_digit
count_digits [] = 0
count_digits (c ∷ s) = (if is_digit c then 1 else 0) + count_digits s

abbrev negate : ℕ → ℤ
negate n = pos 0 -ℤ pos n

unfoldable pub signed : Bytes → Option ℤ
unfolding scan_digits ◌-ℤ◌ is_space
signed [] = none
signed (c ∷ s) = elim (is_space c) [
  | true ↦ signed s
  | false ↦
      if c == b'-'
      then (elim (scan_digits s 0 false) [ none ↦ none | some n ↦ some (negate n) ])
      else if c == b'+'
      then (elim (scan_digits s 0 false) [ none ↦ none | some n ↦ some (pos n) ])
      else (elim (scan_digits (c ∷ s) 0 false) [ none ↦ none | some n ↦ some (pos n) ])
]

-- `int(x)`, with `none` for a `ValueError`
unfoldable pub int_of : Bytes → Option ℤ
unfolding signed count_digits
int_of x = if ltb max_digits (count_digits x) then none else signed x

unfoldable pub bytes_to_int : Bytes → Result ℤ
bytes_to_int x = elim (int_of x) [ none ↦ err (blob_error expecting_integer) | some n ↦ ok n ]

abbrev below : ℤ → Option ℤ → Bool
below n none = false
below n (some low) = ltb_ℤ n low

abbrev above : ℤ → Option ℤ → Bool
above n none = false
above n (some high) = ltb_ℤ high n

unfoldable pub bytes_to_int_range : Bytes → Option ℤ → Option ℤ → Result ℤ
unfolding bytes_to_int
bytes_to_int_range x min_value max_value = bind (bytes_to_int x) λ n.
    if below n min_value
    then err (blob_error too_low)
    else if above n max_value
    then err (blob_error too_large)
    else ok n

abbrev pub max_octet : ℤ
max_octet = pos 255

unfoldable pub bytes_to_octet : Bytes → Result ℤ
unfolding bytes_to_int
bytes_to_octet x =
    bind (bytes_to_int x) λ n.
      if ltb_ℤ n (pos 0) || ltb_ℤ max_octet n then err (blob_error octet_out_of_bounds) else ok n
