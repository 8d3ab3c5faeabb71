-- ===== src/Ftp/Wire/Lines.antt =====
-- A line does not depend on the pieces in which the stream arrives.
use gufo_blob.Base.{
  ℕ, ◌+◌, ◌≡◌, ◌∙◌, ◌≢◌, refl, arith, List, [], ◌∷◌, ◌++◌, append_assoc, append-nil, none, some,
  Bytes, length, All, Option-cases, inl, inr,
}
use gufo_blob.Base.Result.{ok}
use gufo_blob.Ftp.Wire.{Recv, chunk, Stream, partition, read_line_loop, read_line}

-- A line ends at the first CRLF: the bytes behind it do not matter.
pub partition-append :
    (s x line rest : Bytes)
    → partition s ≡ some (line, rest)
    → partition (s ++ x) ≡ some (line, rest ++ x)
unfolding partition
partition-append [] x line rest h = absurd (ground arith)
partition-append (c ∷ []) x line rest h = absurd (ground arith)
partition-append (c ∷ d ∷ s) x line rest h = elim (Option-cases (partition (d ∷ s))) [
  | inl e ↦ ground (arith, e)
  | inr ((l, r), e) ↦ ground (arith, e, partition-append (d ∷ s) x l r e)
]

-- The bytes of a row of pieces.
abbrev pub flat : List Bytes → Bytes
flat [] = []
flat (p ∷ ps) = p ++ flat ps

-- The script that gives these pieces, and then goes on.
abbrev pub pieces : List Bytes → List Recv → List Recv
pieces [] more = more
pieces (p ∷ ps) more = chunk p ∷ pieces ps more

abbrev pub AllFull : List Bytes → Type 0
AllFull = All (λ p. p ≢ [])

pub partition-length :
    (s line rest : Bytes)
    → partition s ≡ some (line, rest)
    → length s ≡ length line + 2 + length rest
unfolding partition
partition-length [] line rest h = absurd (ground arith)
partition-length (c ∷ []) line rest h = absurd (ground arith)
partition-length (c ∷ d ∷ s) line rest h = elim (Option-cases (partition (d ∷ s))) [
  | inl e ↦ ground (arith, e)
  | inr ((l, r), e) ↦ ground (arith, e, partition-length (d ∷ s) l r e)
]

pub read_line_loop-ready :
    (script : List Recv) (buffer line rest : Bytes)
    → partition buffer ≡ some (line, rest)
    → read_line_loop script buffer ≡ (ok line, record { buffer = rest; script = script })
unfolding read_line_loop
read_line_loop-ready [] buffer line rest e = ground (arith, e)
read_line_loop-ready (x ∷ script) buffer line rest e = ground (arith, e)

pub read_line_loop-more :
    (script : List Recv) (buffer : Bytes) (b : ℕ) (bs : Bytes)
    → partition buffer ≡ none
    → read_line_loop (chunk (b ∷ bs) ∷ script) buffer ≡ read_line_loop script (buffer ++ b ∷ bs)
unfolding read_line_loop
read_line_loop-more script buffer b bs e = ground (arith, e)

-- The stream whose buffered bytes and pieces to come are `s`.
abbrev pub Holds : Stream → Bytes → List Recv → Type 0
Holds t s more =
    (ps : List Bytes) × (t.script ≡ pieces ps more) × (t.buffer ++ flat ps ≡ s) × AllFull ps

read_line_loop-pieces :
    (ps : List Bytes) (buffer line rest : Bytes) (more : List Recv)
    → AllFull ps
    → partition (buffer ++ flat ps) ≡ some (line, rest)
    → (t : Stream) × (read_line_loop (pieces ps more) buffer ≡ (ok line, t)) × Holds t rest more
read_line_loop-pieces [] buffer line rest more h e = (
  record { buffer = rest; script = more },
  read_line_loop-ready more buffer line rest (rw (append-nil buffer) at e),
  ([], refl, append-nil rest, tt),
)
read_line_loop-pieces ([] ∷ ps) buffer line rest more (h, hs) e = absurd (h refl)
read_line_loop-pieces ((b ∷ bs) ∷ ps) buffer line rest more (h, hs) e =
    elim (Option-cases (partition buffer)) [
      | inl f ↦
          let (t, g, k) =
            read_line_loop-pieces ps (buffer ++ b ∷ bs) line rest more hs
              (rw (append_assoc buffer (b ∷ bs) (flat ps)) e) in
          (t, read_line_loop-more (pieces ps more) buffer b bs f ∙ g, k)
      | inr ((l, r), f) ↦
          let g = partition-append buffer (flat ((b ∷ bs) ∷ ps)) l r f in
          (
            record { buffer = r; script = pieces ((b ∷ bs) ∷ ps) more },
            rw (read_line_loop-ready (pieces ((b ∷ bs) ∷ ps) more) buffer l r f)
                (ground (arith, e, g)),
            ((b ∷ bs) ∷ ps, refl, ground (arith, e, g), (h, hs)),
          )
    ]

-- Whatever the pieces in which a stream arrives, reading a line gives the bytes up to its first CRLF
-- and leaves exactly the bytes behind it to be read.
pub read_line-pieces :
    (t : Stream) (s line rest : Bytes) (more : List Recv)
    → Holds t s more
    → partition s ≡ some (line, rest)
    → (t' : Stream) × (read_line t ≡ (ok line, t')) × Holds t' rest more
unfolding read_line
read_line-pieces t s line rest more (ps, e, f, h) g =
    let (t', k, w) = read_line_loop-pieces ps t.buffer line rest more h (rw f g) in (t', rw e k, w)
