-- ===== src/Ftp/Common/Pasv/Laws.antt =====
-- What `parse_pasv` accepts and returns.
use gufo_blob.Base.{
  ap, ℕ, zero, suc, ◌+◌, ◌*◌, ◌≤◌, ◌<◌, ◌≡◌, ◌≢◌, refl, ◌∙◌, arith, Bool, true, false, ◌&&◌, List,
  [], ◌∷◌, ◌++◌, append_assoc, Option, some, leb, Text, Bytes, map, length, All, Option-cases, inl,
  inr,
}
use gufo_blob.Base.Int.{ℤ, pos, negsuc, ◌+ℤ◌, ◌≤ℤ◌}
use gufo_blob.Base.Result.{ok, Result-cases}
use gufo_blob.Utils.{is_digit, bytes_to_octet, max_digits}
use gufo_blob.Utils.Bounds.{bytes_to_octet_iff, bytes_to_octet-decimal}
use gufo_blob.Utils.Decimal.{decimal, decimal-digits, decimal-ne-nil, IsDigit}
use gufo_blob.Ftp.Common.Methods.{split, join}
use gufo_blob.Ftp.Common.Methods.Laws.{Lacks, split-join}
use gufo_blob.Ftp.Common.Pasv.{
  span_digits, close_field, next_field, with_field, match_group, search_pasv, octets, show_int,
  address, parse_pasv,
}

-- Whether each number under a bound prints in three digits at most.
prints_short : ℕ → Bool
prints_short zero = true
prints_short (suc bound) = let rest = prints_short bound in leb (length (decimal bound)) 3 && rest

prints_short_lem : (bound n : ℕ) → prints_short bound ≡ true → n < bound → length (decimal n) ≤ 3
unfolding prints_short
prints_short_lem zero n h k = absurd (omega (arith, k))
prints_short_lem (suc bound) n h k =
    ground (arith, prints_short_lem bound n, ap (λ m. length (decimal m)))

octets_short : prints_short 256 ≡ true
unfolding prints_short decimal
octets_short = refl

-- An octet has at most three digits.
length-decimal : (n : ℕ) → n ≤ 255 → length (decimal n) ≤ max_digits
length-decimal n h = omega (arith, prints_short_lem 256 n octets_short (omega (arith, h)))

span_digits-append :
    (ds : Bytes) (c : ℕ) (rest : Bytes)
    → All IsDigit ds
    → is_digit c ≡ false
    → span_digits (ds ++ c ∷ rest) ≡ (ds, c ∷ rest)
unfolding span_digits
span_digits-append [] c rest h e = ground arith
span_digits-append (d ∷ ds) c rest (h, hs) e = ground (arith, span_digits-append ds c rest hs e)

close_field-ne : (ds rest : Bytes) → ds ≢ [] → close_field ds (b')' ∷ rest) ≡ some ds
unfolding close_field
close_field-ne [] rest h = absurd (h refl)
close_field-ne (d ∷ ds) rest h = refl

next_field-ne :
    (ds rest : Bytes) (more : Bytes → Option Bytes)
    → ds ≢ []
    → next_field ds (b',' ∷ rest) more ≡ with_field ds (more rest)
unfolding next_field
next_field-ne [] rest more h = absurd (h refl)
next_field-ne (d ∷ ds) rest more h = refl

-- The pattern matches numbers with commas between them and a closing bracket behind them.
match_group-join :
    (n : ℕ) (ns : List ℕ) (rest : Bytes)
    → match_group (length ns) (join b',' (map decimal (n ∷ ns)) ++ b')' ∷ rest)
      ≡ some (join b',' (map decimal (n ∷ ns)))
unfolding match_group join
match_group-join n [] rest =
    rw (span_digits-append (decimal n) b')' rest (decimal-digits n) (unfold is_digit in refl))
      (close_field-ne (decimal n) rest (decimal-ne-nil n))
match_group-join n (m ∷ ns) rest = rw (
  append_assoc (decimal n) _ (b')' ∷ rest),
  span_digits-append (decimal n) b',' _ (decimal-digits n) (unfold is_digit in refl),
  next_field-ne (decimal n) _ (match_group (length ns)) (decimal-ne-nil n),
  match_group-join m ns rest,
)

search_pasv-append :
    (before s group : Bytes)
    → Lacks b'(' before
    → match_group 5 s ≡ some group
    → search_pasv (before ++ b'(' ∷ s) ≡ some group
unfolding search_pasv
search_pasv-append [] s group h e = ground (arith, e)
search_pasv-append (c ∷ before) s group (h, hs) e =
    ground (arith, search_pasv-append before s group hs e)

octets-map : (ns : List ℕ) → All (λ n. n ≤ 255) ns → octets (map decimal ns) ≡ ok (map pos ns)
unfolding octets
octets-map [] h = refl
octets-map (n ∷ ns) (h, hs) =
    ground (arith, octets-map ns hs, bytes_to_octet-decimal n h (length-decimal n h))

digit-ne-comma : (c : ℕ) → IsDigit c → c ≢ b','
digit-ne-comma c h = omega arith

digits-Lacks : (ds : Bytes) → All IsDigit ds → Lacks b',' ds
digits-Lacks [] h = tt
digits-Lacks (d ∷ ds) (h, hs) = (digit-ne-comma d h, digits-Lacks ds hs)

map-Lacks : (ns : List ℕ) → All (Lacks b',') (map decimal ns)
map-Lacks [] = tt
map-Lacks (n ∷ ns) = (digits-Lacks (decimal n) (decimal-digits n), map-Lacks ns)

abbrev pub dotted : List ℕ → Text
dotted ns = join b'.' (map decimal ns)

parse_pasv-search :
    (line group : Bytes) (parts : List Bytes) (zs : List ℤ)
    → search_pasv line ≡ some group
    → split b',' group ≡ parts
    → octets parts ≡ ok zs
    → parse_pasv line ≡ address zs
unfolding parse_pasv
parse_pasv-search line group parts zs e f g = ground arith

address-pos :
    (h1 h2 h3 h4 p1 p2 : ℕ)
    → address (map pos (h1 ∷ h2 ∷ h3 ∷ h4 ∷ p1 ∷ p2 ∷ []))
      ≡ ok (dotted (h1 ∷ h2 ∷ h3 ∷ h4 ∷ []), pos (p1 * 256 + p2))
unfolding address show_int ◌+ℤ◌
address-pos h1 h2 h3 h4 p1 p2 = ground arith

-- A reply that shows six octets in the form of the protocol behind a text with no opening bracket
-- gives the host of the first four and the port p1 * 256 + p2, whatever follows.
pub parse_pasv-octets :
    (before after : Bytes) (h1 h2 h3 h4 p1 p2 : ℕ)
    → Lacks b'(' before
    → All (λ n. n ≤ 255) (h1 ∷ h2 ∷ h3 ∷ h4 ∷ p1 ∷ p2 ∷ [])
    → parse_pasv (
        before
        ++ b'(' ∷ (join b',' (map decimal (h1 ∷ h2 ∷ h3 ∷ h4 ∷ p1 ∷ p2 ∷ [])) ++ b')' ∷ after))
      ≡ ok (dotted (h1 ∷ h2 ∷ h3 ∷ h4 ∷ []), pos (p1 * 256 + p2))
parse_pasv-octets before after h1 h2 h3 h4 p1 p2 h o =
    let ns : List ℕ = h1 ∷ h2 ∷ h3 ∷ h4 ∷ p1 ∷ p2 ∷ [] in
    let found =
      search_pasv-append before _ _ h (match_group-join h1 (h2 ∷ h3 ∷ h4 ∷ p1 ∷ p2 ∷ []) after) in
    parse_pasv-search _ _ _ _ found (split-join b',' (map decimal ns) (cc) (map-Lacks ns))
      (octets-map ns o)
    ∙ address-pos h1 h2 h3 h4 p1 p2

abbrev IsOctet : ℤ → Type 0
IsOctet z = (pos 0 ≤ℤ z) × (z ≤ℤ pos 255)

octets-IsOctet : (xs : List Bytes) (zs : List ℤ) → octets xs ≡ ok zs → All IsOctet zs
unfolding octets
octets-IsOctet [] [] h = tt
octets-IsOctet [] (z ∷ zs) h = absurd (ground arith)
octets-IsOctet (x ∷ xs) [] h = absurd (ground arith)
octets-IsOctet (x ∷ xs) (z ∷ zs) h = elim (Result-cases (bytes_to_octet x)) [
  | inl (n, e) ↦ elim (Result-cases (octets xs)) [
    | inl (ns, f) ↦
        (ground (arith, bytes_to_octet_iff x n, e, f), octets-IsOctet xs zs (ground (arith, e, f)))
    | inr (y, f) ↦ absurd (ground (arith, e, f))
  ]
  | inr (y, e) ↦ absurd (ground (arith, e))
]

abbrev Shows : Text → ℤ → Type 0
Shows host port =
    (h1 : ℕ) × (h2 : ℕ) × (h3 : ℕ) × (h4 : ℕ) × (p1 : ℕ) × (p2 : ℕ) × All (λ n. n ≤ 255)
      (h1 ∷ h2 ∷ h3 ∷ h4 ∷ p1 ∷ p2 ∷ [])
    × (host ≡ dotted (h1 ∷ h2 ∷ h3 ∷ h4 ∷ []))
    × (port ≡ pos (p1 * 256 + p2))
    × (port ≤ℤ pos 65535)

IsOctet-pos : (z : ℤ) → IsOctet z → (n : ℕ) × (z ≡ pos n) × (n ≤ 255)
IsOctet-pos (pos n) h = (n, refl, omega arith)
IsOctet-pos (negsuc n) h = absurd (omega arith)

All-IsOctet-pos :
    (zs : List ℤ) → All IsOctet zs → (ns : List ℕ) × (zs ≡ map pos ns) × All (λ n. n ≤ 255) ns
All-IsOctet-pos [] h = ([], refl, tt)
All-IsOctet-pos (z ∷ zs) (h, hs) =
    let (n, e, k) = IsOctet-pos z h in
    let (ns, es, ks) = All-IsOctet-pos zs hs in (n ∷ ns, cc (e, es), (k, ks))

port_bound : (p1 p2 : ℕ) → p1 ≤ 255 → p2 ≤ 255 → p1 * 256 + p2 ≤ 65535
port_bound p1 p2 h k = omega arith

address_sound :
    (ns : List ℕ) (host : Text) (port : ℤ)
    → All (λ n. n ≤ 255) ns
    → address (map pos ns) ≡ ok (host, port)
    → Shows host port
address_sound (h1 ∷ h2 ∷ h3 ∷ h4 ∷ p1 ∷ p2 ∷ []) host port o e =
    let f = address-pos h1 h2 h3 h4 p1 p2 in
    (
      h1,
      h2,
      h3,
      h4,
      p1,
      p2,
      o,
      cc (e, f),
      cc (e, f),
      ground (arith, port_bound p1 p2 o.1.1.1.1.0 o.1.1.1.1.1.0, e, f),
    )
address_sound _ host port o e = absurd (unfold address in ground arith)

-- Whatever the reply, a returned address is made of six octets: the host is the first four in
-- dotted decimal, and the port is p1 * 256 + p2, so it is at most 65535.
pub parse_pasv_sound :
    (line : Bytes) {host : Text} {port : ℤ}
    → parse_pasv line ≡ ok (host, port)
    → (h1 : ℕ) × (h2 : ℕ) × (h3 : ℕ) × (h4 : ℕ) × (p1 : ℕ) × (p2 : ℕ) × All
        (λ n. n ≤ 255)
        (h1 ∷ h2 ∷ h3 ∷ h4 ∷ p1 ∷ p2 ∷ [])
      × (host ≡ dotted (h1 ∷ h2 ∷ h3 ∷ h4 ∷ []))
      × (port ≡ pos (p1 * 256 + p2))
      × (port ≤ℤ pos 65535)
unfolding parse_pasv
parse_pasv_sound line {host} {port} h = elim (Option-cases (search_pasv line)) [
  | inl e ↦ absurd (ground (arith, e))
  | inr (group, e) ↦ elim (Result-cases (octets (split b',' group))) [
    | inl (zs, f) ↦
        let (ns, g, k) = All-IsOctet-pos zs (octets-IsOctet _ zs f) in
        address_sound ns host port k (ground (arith, e, f, g))
    | inr (y, f) ↦ absurd (ground (arith, e, f))
  ]
]
