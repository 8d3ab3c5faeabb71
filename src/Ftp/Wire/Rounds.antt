-- ===== src/Ftp/Wire/Rounds.antt =====
-- The fuel of `read_more` is enough: every line that is read uses up bytes of the stream.
use gufo_blob.Base.{
  ℕ, zero, suc, ◌+◌, ◌≤◌, ◌<◌, ◌≡◌, arith, List, [], ◌∷◌, ◌++◌, some, Bytes, length, length-append,
  Option-cases, inl, inr,
}
use gufo_blob.Base.Result.{Result, ok, Result-cases}
use gufo_blob.Ftp.Wire.{
  Recv, chunk, recv_timeout, recv_os_error, Stream, partition, read_line_loop, read_line, supply,
  rounds, read_more,
}
use gufo_blob.Ftp.Wire.Lines.{partition-length, read_line_loop-ready, read_line_loop-more}

abbrev left : Stream → ℕ
left t = length t.buffer + supply t.script

ready_less :
    (script : List Recv) (buffer line l r : Bytes) (t : Stream)
    → partition buffer ≡ some (l, r)
    → read_line_loop script buffer ≡ (ok line, t)
    → left t < length buffer + supply script
ready_less script buffer line l r t e h =
    ground (arith, partition-length buffer l r e, read_line_loop-ready script buffer l r e)

read_line_loop_less :
    (script : List Recv) (buffer line : Bytes) (t : Stream)
    → read_line_loop script buffer ≡ (ok line, t)
    → left t < length buffer + supply script
unfolding read_line_loop supply
read_line_loop_less [] buffer line t h = elim (Option-cases (partition buffer)) [
  | inl e ↦ absurd (ground (arith, e))
  | inr ((l, r), e) ↦ ready_less [] buffer line l r t e h
]
read_line_loop_less (chunk [] ∷ script) buffer line t h = elim (Option-cases (partition buffer)) [
  | inl e ↦ absurd (ground (arith, e))
  | inr ((l, r), e) ↦ ready_less (chunk [] ∷ script) buffer line l r t e h
]
read_line_loop_less (chunk (b ∷ bs) ∷ script) buffer line t h =
    elim (Option-cases (partition buffer)) [
      | inl e ↦ ground (
        arith,
        read_line_loop-more script buffer b bs e,
        read_line_loop_less script (buffer ++ b ∷ bs) line t,
        length-append buffer (b ∷ bs),
      )
      | inr ((l, r), e) ↦ ready_less (chunk (b ∷ bs) ∷ script) buffer line l r t e h
    ]
read_line_loop_less (recv_timeout ∷ script) buffer line t h =
    elim (Option-cases (partition buffer)) [
      | inl e ↦ absurd (ground (arith, e))
      | inr ((l, r), e) ↦ ready_less (recv_timeout ∷ script) buffer line l r t e h
    ]
read_line_loop_less (recv_os_error ∷ script) buffer line t h =
    elim (Option-cases (partition buffer)) [
      | inl e ↦ absurd (ground (arith, e))
      | inr ((l, r), e) ↦ ready_less (recv_os_error ∷ script) buffer line l r t e h
    ]

-- Every line that is read leaves fewer bytes.
pub rounds-read_line :
    (s t : Stream) (line : Bytes) → read_line s ≡ (ok line, t) → rounds t < rounds s
unfolding read_line
rounds-read_line s t line h = omega (arith, read_line_loop_less s.script s.buffer line t h)

pair-eta : {A : Type 0} (m : Result A × Stream) (a : A) → m.0 ≡ ok a → m ≡ (ok a, m.1)
pair-eta m a e = ground arith

-- Fuel beyond the rounds of the stream changes nothing, so the loop is never cut short.
pub read_more_enough :
    (f g : ℕ) (first : Bytes) (s : Stream)
    → rounds s ≤ f
    → rounds s ≤ g
    → read_more f first s ≡ read_more g first s
unfolding read_more
read_more_enough zero g first s h k = absurd (omega arith)
read_more_enough (suc f) zero first s h k = absurd (omega arith)
read_more_enough (suc f) (suc g) first s h k = elim (Result-cases (read_line s).0) [
  | inl (line, e) ↦
      let less = rounds-read_line s (read_line s).1 line (pair-eta (read_line s) line e) in
      ground (
        arith,
        e,
        read_more_enough f g first (read_line s).1 (omega (arith, less)) (omega (arith, less)),
      )
  | inr (x, e) ↦ ground (arith, e)
]
