-- ===== src/Ftp/Common/Utf8.antt =====
-- UTF-8, as `str.encode()` and `bytes.decode()` treat it: shortest forms only, no surrogates, nothing
-- above U+10FFFF.
use gufo_blob.Base.{
  ℕ, zero, suc, ◌+◌, ◌-◌, ◌*◌, ◌/◌, ◌%◌, ◌≤◌, ◌<◌, Bool, true, ◌&&◌, ◌||◌, [], ◌∷◌, ◌++◌, Option,
  none, some, ltb, leb, if◌then◌else◌, Text, Bytes, ◌≡◌, refl, arith, All,
}

-- `none` for the UnicodeEncodeError that a surrogate raises
unfoldable pub encode_char : ℕ → Option Bytes
encode_char c =
    if ltb c 0x80
    then some (c ∷ [])
    else if ltb c 0x800
    then some ((0xc0 + c / 64) ∷ (0x80 + c % 64) ∷ [])
    else if leb 0xd800 c && ltb c 0xe000
    then none
    else if ltb c 0x10000
    then some ((0xe0 + c / 4096) ∷ (0x80 + c / 64 % 64) ∷ (0x80 + c % 64) ∷ [])
    else some
        ((0xf0 + c / 262144) ∷ (0x80 + c / 4096 % 64) ∷ (0x80 + c / 64 % 64) ∷ (0x80 + c % 64) ∷ [])

abbrev cat : Option Bytes → Option Bytes → Option Bytes
cat none b = none
cat (some a) none = none
cat (some a) (some b) = some (a ++ b)

unfoldable pub encode : Text → Option Bytes
unfolding encode_char
encode [] = some []
encode (c ∷ s) = cat (encode_char c) (encode s)

abbrev is_tail : ℕ → Bool
is_tail b = leb 0x80 b && ltb b 0xc0

abbrev is_scalar : ℕ → Bool
is_scalar c = (ltb c 0xd800 || leb 0xe000 c) && ltb c 0x110000

-- What the first byte of a sequence announces.
pub data Form : Type 0 where
  one two three four bad : Form

unfoldable pub form : ℕ → Form
form b =
    if ltb b 0x80
    then one
    else if ltb b 0xc2
    then bad
    else if ltb b 0xe0
    then two
    else if ltb b 0xf0
    then three
    else if ltb b 0xf5
    then four
    else bad

abbrev after : ℕ → Option Text → Option Text
after c none = none
after c (some s) = some (c ∷ s)

-- The loop over the bytes: `n` tail bytes are missing of a sequence that holds `v` so far and must
-- come to at least `low`.
unfoldable pub decode_loop : Bytes → ℕ → ℕ → ℕ → Option Text
unfolding form
decode_loop [] zero v low = some []
decode_loop [] (suc n) v low = none
decode_loop (b ∷ s) zero v low = elim (form b) [
  | one ↦ after b (decode_loop s 0 0 0)
  | two ↦ decode_loop s 1 (b - 0xc0) 0x80
  | three ↦ decode_loop s 2 (b - 0xe0) 0x800
  | four ↦ decode_loop s 3 (b - 0xf0) 0x10000
  | bad ↦ none
]
decode_loop (b ∷ s) (suc zero) v low =
    let c = v * 64 + (b - 0x80) in
    let rest = after c (decode_loop s 0 0 0) in
    if is_tail b && leb low c && is_scalar c then rest else none
decode_loop (b ∷ s) (suc (suc n)) v low =
    let rest = decode_loop s (suc n) (v * 64 + (b - 0x80)) low in if is_tail b then rest else none

-- `s.decode()`, with `none` for a UnicodeDecodeError
unfoldable pub decode : Bytes → Option Text
unfolding decode_loop
decode s = decode_loop s 0 0 0

-- A code point of Python: one of 0, ..., 0x10ffff.
abbrev pub IsCodePoint : ℕ → Type 0
IsCodePoint c = c < 0x110000

tail_last :
    (v t low : ℕ) (s : Bytes)
    → t < 64
    → low ≤ v * 64 + t
    → is_scalar (v * 64 + t) ≡ true
    → decode_loop ((0x80 + t) ∷ s) 1 v low ≡ after (v * 64 + t) (decode_loop s 0 0 0)
unfolding decode_loop
tail_last v t low s h k e = ground arith

tail_more :
    (n v t low : ℕ) (s : Bytes)
    → t < 64
    → decode_loop ((0x80 + t) ∷ s) (suc (suc n)) v low ≡ decode_loop s (suc n) (v * 64 + t) low
unfolding decode_loop
tail_more n v t low s h = ground arith

decode_loop-one :
    (c : ℕ) (s : Bytes) → c < 0x80 → decode_loop (c ∷ s) 0 0 0 ≡ after c (decode_loop s 0 0 0)
unfolding decode_loop
decode_loop-one c s h = ground arith

decode_loop-two :
    (c : ℕ) (s : Bytes)
    → 0x80 ≤ c
    → c < 0x800
    → decode_loop ((0xc0 + c / 64) ∷ (0x80 + c % 64) ∷ s) 0 0 0 ≡ after c (decode_loop s 0 0 0)
unfolding decode_loop
decode_loop-two c s h k = ground arith

decode_loop-three :
    (c : ℕ) (s : Bytes)
    → 0x800 ≤ c
    → c < 0x10000
    → is_scalar c ≡ true
    → decode_loop ((0xe0 + c / 4096) ∷ (0x80 + c / 64 % 64) ∷ (0x80 + c % 64) ∷ s) 0 0 0
      ≡ after c (decode_loop s 0 0 0)
unfolding decode_loop
decode_loop-three c s h k e = ground arith

lead_four :
    (t : ℕ) (s : Bytes) → t < 5 → decode_loop ((0xf0 + t) ∷ s) 0 0 0 ≡ decode_loop s 3 t 0x10000
unfolding decode_loop
lead_four t s h = ground arith

regroup_four : (c : ℕ) → ((c / 262144 * 64 + c / 4096 % 64) * 64 + c / 64 % 64) * 64 + c % 64 ≡ c
regroup_four c = omega arith

decode_loop-four :
    (c : ℕ) (s : Bytes)
    → 0x10000 ≤ c
    → c < 0x110000
    → decode_loop
        ((0xf0 + c / 262144) ∷ (0x80 + c / 4096 % 64) ∷ (0x80 + c / 64 % 64) ∷ (0x80 + c % 64) ∷ s)
        0
        0
        0
      ≡ after c (decode_loop s 0 0 0)
decode_loop-four c s h k = rw (
  lead_four (c / 262144) _ (omega arith),
  tail_more 1 (c / 262144) (c / 4096 % 64) 0x10000 _ (omega arith),
  tail_more 0 (c / 262144 * 64 + c / 4096 % 64) (c / 64 % 64) 0x10000 _ (omega arith),
  tail_last ((c / 262144 * 64 + c / 4096 % 64) * 64 + c / 64 % 64) (c % 64) 0x10000 s (omega arith)
      (omega arith) (rw (regroup_four c) (ground arith)),
  regroup_four c,
)

cat-eq-some :
    (a b : Option Bytes) (bs : Bytes)
    → cat a b ≡ some bs
    → (x : Bytes) × (y : Bytes) × (a ≡ some x) × (b ≡ some y) × (bs ≡ x ++ y)
cat-eq-some none b bs e = absurd (ground arith)
cat-eq-some (some x) none bs e = absurd (ground arith)
cat-eq-some (some x) (some y) bs e = (x, y, refl, refl, ground arith)

-- What a character is encoded to is read as that character, whatever follows.
decode_loop-encode_char :
    (c : ℕ) (bs s : Bytes)
    → IsCodePoint c
    → encode_char c ≡ some bs
    → decode_loop (bs ++ s) 0 0 0 ≡ after c (decode_loop s 0 0 0)
unfolding encode_char
decode_loop-encode_char c bs s h e =
    ground
      (arith, decode_loop-one c s, decode_loop-two c s, decode_loop-three c s, decode_loop-four c s)

decode_loop-encode :
    (s bs : Bytes) → All IsCodePoint s → encode s ≡ some bs → decode_loop bs 0 0 0 ≡ some s
unfolding encode decode_loop
decode_loop-encode [] bs h e = ground arith
decode_loop-encode (c ∷ s) bs (h, hs) e =
    let (x, y, ex, ey, eq) = cat-eq-some (encode_char c) (encode s) bs e in
    ground (arith, decode_loop-encode_char c x y h ex, decode_loop-encode s y hs ey, eq)

-- A text of code points that can be encoded is decoded to itself.
pub decode-encode :
    (s : Text) {bs : Bytes} → All IsCodePoint s → encode s ≡ some bs → decode bs ≡ some s
unfolding decode
decode-encode s h e = decode_loop-encode s _ h e
