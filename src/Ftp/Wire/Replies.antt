-- ===== src/Ftp/Wire/Replies.antt =====
-- A whole reply is read from the stream, in whatever pieces it arrives.
use gufo_blob.Base.{
  ℕ, zero, suc, ◌≤◌, ◌<◌, ◌≡◌, refl, arith, true, false, ◌⊎◌, List, [], ◌∷◌, ◌++◌, append_assoc,
  none, some, Bytes, length, length-append, take, Option-cases, inl, inr, All,
}
use gufo_blob.Base.Int.{ℤ, pos}
use gufo_blob.Base.Result.{ok}
use gufo_blob.Utils.{bytes_to_int_range}
use gufo_blob.Ftp.Wire.{
  Recv, Stream, partition, supply, rounds, read_more, is_last_line, is_multi, other_lines,
  read_response,
}
use gufo_blob.Ftp.Wire.Lines.{read_line-pieces, Holds, pieces, flat}

abbrev pub crlf : Bytes
crlf = 13 ∷ 10 ∷ []

-- No CRLF within.
abbrev pub IsLine : Bytes → Type 0
IsLine l = partition l ≡ none

-- The lines as the server sends them.
unfoldable pub render : List Bytes → Bytes
render [] = []
render (l ∷ ls) = l ++ (crlf ++ render ls)

partition-IsLine : (l s : Bytes) → IsLine l → partition (l ++ (crlf ++ s)) ≡ some (l, s)
unfolding partition
partition-IsLine [] s h = refl
partition-IsLine (c ∷ []) s h = ground arith
partition-IsLine (c ∷ d ∷ l) s h = elim (Option-cases (partition (d ∷ l))) [
  | inl e ↦ ground (arith, e, partition-IsLine (d ∷ l) s e)
  | inr ((x, y), e) ↦ absurd (ground (arith, e))
]

partition-render :
    (l : Bytes) (ls : List Bytes) (rest : Bytes)
    → IsLine l
    → partition (render (l ∷ ls) ++ rest) ≡ some (l, render ls ++ rest)
unfolding render
partition-render l ls rest h =
    rw (append_assoc l (crlf ++ render ls) rest) (partition-IsLine l (render ls ++ rest) h)

-- Where the reply that begins with `first` ends: at the first line that closes it.
abbrev pub Closes : Bytes → List Bytes → Type 0
Closes first [] = ⊥
Closes first (l ∷ []) = is_last_line first l ≡ true
Closes first (l ∷ m ∷ ls) = (is_last_line first l ≡ false) × Closes first (m ∷ ls)

-- Reading the lines behind the first one, with fuel for each.
read_more-render :
    (ls : List Bytes) (fuel : ℕ) (first rest : Bytes) (more : List Recv) (t : Stream)
    → length ls ≤ fuel
    → All IsLine ls
    → Closes first ls
    → Holds t (render ls ++ rest) more
    → (t' : Stream) × (read_more fuel first t ≡ (ok ls, t')) × Holds t' rest more
unfolding read_more
read_more-render [] fuel first rest more t h i c k = absurd c
read_more-render (l ∷ ls) zero first rest more t h i c k = absurd (omega arith)
read_more-render (l ∷ []) (suc fuel) first rest more t h (i, is) c k =
    let (t', e, w) =
      read_line-pieces t (render (l ∷ []) ++ rest) l (render [] ++ rest) more k
        (partition-render l [] rest i) in
    (t', ground (arith, e, c), unfold render in w)
read_more-render (l ∷ m ∷ ls) (suc fuel) first rest more t h (i, is) (c, cs) k =
    let (t', e, w) =
      read_line-pieces t _ l (render (m ∷ ls) ++ rest) more k
        (partition-render l (m ∷ ls) rest i) in
    let (t'', f, w') = read_more-render (m ∷ ls) fuel first rest more t' (omega arith) is cs w in
    (t'', ground (arith, e, c, f), w')

length-render : (ls : List Bytes) → length ls ≤ length (render ls)
unfolding render
length-render [] = omega arith
length-render (l ∷ ls) = omega (arith, length-append l (crlf ++ render ls), length-render ls)

supply-pieces : (ps : List Bytes) (more : List Recv) → length (flat ps) ≤ supply (pieces ps more)
unfolding supply
supply-pieces [] more = omega arith
supply-pieces (p ∷ ps) more = omega (arith, length-append p (flat ps), supply-pieces ps more)

length-rounds : (t : Stream) (s : Bytes) (more : List Recv) → Holds t s more → length s < rounds t
length-rounds t s more (ps, e, f, h) =
    rw (← f, e) (omega (arith, length-append t.buffer (flat ps), supply-pieces ps more))

-- The lines behind `first` in a reply: none, or up to the line that closes it.
abbrev pub IsReply : Bytes → List Bytes → Type 0
IsReply first ls =
    ((is_multi first ≡ false) × (ls ≡ [])) ⊎ ((is_multi first ≡ true) × Closes first ls)

other_lines-render :
    (first rest : Bytes) (ls : List Bytes) (more : List Recv) (t : Stream)
    → All IsLine ls
    → IsReply first ls
    → Holds t (render ls ++ rest) more
    → (t' : Stream) × (other_lines first t ≡ (ok ls, t')) × Holds t' rest more
unfolding other_lines
other_lines-render first rest ls more t i (inl (single, e)) k =
    (t, ground (arith, single, e), unfold render in rw e at k)
other_lines-render first rest ls more t i (inr (multi, c)) k =
    let enough = length-rounds t (render ls ++ rest) more k in
    let (t', e, w) =
      read_more-render ls (rounds t) first rest more t
        (omega (arith, enough, length-append (render ls) rest, length-render ls)) i c k in
    (t', ground (arith, multi, e), w)

-- A reply whose lines hold no CRLF, whose first line has four bytes at least and begins with a code
-- in range, and which ends at its closing line,
-- is read whole from any stream that holds it in any pieces: the result is its code and its lines,
-- and what follows the reply stays to be read.
pub read_response-render :
    (first rest : Bytes) (ls : List Bytes) (code : ℤ) (more : List Recv) (t : Stream)
    → 4 ≤ length first
    → bytes_to_int_range (take 3 first) (some (pos 0)) (some (pos 999)) ≡ ok code
    → All IsLine (first ∷ ls)
    → IsReply first ls
    → Holds t (render (first ∷ ls) ++ rest) more
    → (t' : Stream) × (read_response t ≡ (ok (code, first ∷ ls), t')) × Holds t' rest more
unfolding read_response
read_response-render first rest ls code more t long c (i, is) r k =
    let (t', e, w) =
      read_line-pieces t (render (first ∷ ls) ++ rest) first (render ls ++ rest) more k
        (partition-render first ls rest i) in
    let (t'', f, w') = other_lines-render first rest ls more t' is r w in
    (t'', ground (arith, e, f, c, long), w')
