-- ===== src/Ftp/Common/Pasv.antt =====
-- `parse_pasv`: the first `(h1,h2,h3,h4,p1,p2)` of the reply, as host and port.
pub mod Laws
use gufo_blob.Base.{
  ℕ, zero, suc, ◌+◌, ◌*◌, List, [], ◌∷◌, ◌++◌, Option, none, some, ◌==◌, if◌then◌else◌, Text, Bytes,
  map,
}
use gufo_blob.Base.Int.{ℤ, pos, negsuc, ◌+ℤ◌}
use gufo_blob.Base.Result.{Result, ok, err, bind, blob_error, invalid_pasv, index_error}
use gufo_blob.Utils.{is_digit, bytes_to_octet}
use gufo_blob.Utils.Decimal.{decimal}
use gufo_blob.Ftp.Common.Methods.{split, join}

-- `\d+` takes all digits that there are; what follows it in the pattern is no digit.
unfoldable pub span_digits : Bytes → Bytes × Bytes
unfolding is_digit
span_digits [] = ([], [])
span_digits (c ∷ s) =
    let (ds, rest) = span_digits s in if is_digit c then (c ∷ ds, rest) else ([], c ∷ s)

-- `\d+\)` after the span
unfoldable pub close_field : Bytes → Bytes → Option Bytes
close_field (d ∷ ds) (c ∷ rest) = if c == b')' then some (d ∷ ds) else none
close_field _ _ = none

abbrev pub with_field : Bytes → Option Bytes → Option Bytes
with_field ds none = none
with_field ds (some group) = some (ds ++ b',' ∷ group)

-- `\d+,` after the span, and the fields behind it
unfoldable pub next_field : Bytes → Bytes → (Bytes → Option Bytes) → Option Bytes
next_field (d ∷ ds) (c ∷ rest) more = if c == b',' then with_field (d ∷ ds) (more rest) else none
next_field _ _ more = none

-- The text of group 1, where `n` more fields must follow the first.
unfoldable pub match_group : ℕ → Bytes → Option Bytes
unfolding span_digits close_field next_field
match_group zero s = let (ds, rest) = span_digits s in close_field ds rest
match_group (suc n) s = let (ds, rest) = span_digits s in next_field ds rest (match_group n)

abbrev or_else : Option Bytes → Option Bytes → Option Bytes
or_else none o = o
or_else (some g) o = some g

-- `rx_pasv.search(line)`: the group of the leftmost match
unfoldable pub search_pasv : Bytes → Option Bytes
unfolding match_group
search_pasv [] = none
search_pasv (c ∷ s) =
    let rest = search_pasv s in if c == b'(' then or_else (match_group 5 s) rest else rest

unfoldable pub octets : List Bytes → Result (List ℤ)
unfolding bytes_to_octet
octets [] = ok []
octets (x ∷ xs) = bind (bytes_to_octet x) λ n. bind (octets xs) λ ns. ok (n ∷ ns)

-- `{n}` in an f-string
unfoldable pub show_int : ℤ → Text
unfolding decimal
show_int (pos n) = decimal n
show_int (negsuc n) = b'-' ∷ decimal (suc n)

-- `n << 8`
abbrev shift_8 : ℤ → ℤ
shift_8 (pos n) = pos (n * 256)
shift_8 (negsuc n) = negsuc (n * 256 + 255)

-- The unpacking into six numbers; the pattern gives six, so Python's ValueError cannot arise.
unfoldable pub address : List ℤ → Result (Text × ℤ)
unfolding show_int ◌+ℤ◌
address (h1 ∷ h2 ∷ h3 ∷ h4 ∷ p1 ∷ p2 ∷ []) =
    ok (join b'.' (show_int h1 ∷ show_int h2 ∷ show_int h3 ∷ show_int h4 ∷ []), shift_8 p1 +ℤ p2)
address _ = err index_error

unfoldable pub parse_pasv : Bytes → Result (Text × ℤ)
unfolding search_pasv octets address
parse_pasv line = elim (search_pasv line) [
  | none ↦ err (blob_error invalid_pasv)
  | some group ↦ bind (octets (split b',' group)) address
]
