-- ===== src/Aio/Ftp/Wire.antt =====
-- src/gufo/blob/aio/ftp.py, `_read_line` and `_read_response`, on the stream that the reader and the
-- response buffer make. `reader.read` gives no bytes only at the end of the stream. A timeout is the
-- built-in TimeoutError, as on Python 3.11 and later.
use mathlib.Core.Path.{fun_ext}
use gufo_blob.Base.{
  ap, ℕ, zero, suc, Bool, ◌&&◌, List, [], ◌∷◌, ◌++◌, none, some, ltb, if◌then◌else◌, length, take,
  drop, text_eq, Bytes, ◌≡◌, refl, arith,
}
use gufo_blob.Base.Int.{ℤ, pos}
use gufo_blob.Base.Result.{
  Result, ok, err, Exec, pure, raise, lift, ◌>>=◌, blob_error, timed_out, os_error, server_closed,
  response_too_short,
}
use gufo_blob.Utils.{bytes_to_int_range}
use gufo_blob.Ftp.Wire.{Recv, Stream, chunk, recv_timeout, recv_os_error, partition, rounds}
use gufo_blob.Ftp.Wire

unfoldable pub read_line_loop : List Recv → Bytes → Result Bytes × Stream
unfolding partition
read_line_loop [] buffer = elim (partition buffer) [
  | some (line, rest) ↦ (ok line, record { buffer = rest; script = [] })
  | none ↦ (err (blob_error timed_out), record { buffer = buffer; script = [] })
]
read_line_loop (e ∷ script) buffer = elim (partition buffer) [
  | some (line, rest) ↦ (ok line, record { buffer = rest; script = e ∷ script })
  | none ↦ elim e [
    | chunk bytes ↦ elim bytes [
      | [] ↦ (err (blob_error server_closed), record { buffer = buffer; script = script })
      | b ∷ bs ↦ read_line_loop script (buffer ++ b ∷ bs)
    ]
    | recv_timeout ↦ (err (blob_error timed_out), record { buffer = buffer; script = script })
    | recv_os_error ↦ (err (blob_error os_error), record { buffer = buffer; script = script })
  ]
]

unfoldable pub read_line : Exec Stream Bytes
unfolding read_line_loop
read_line s = read_line_loop s.script s.buffer

-- `len(line) >= MIN_FTP_RESPONSE and line[:3] == first[:3] and line[3:4] == b" "`
unfoldable pub is_last_line : Bytes → Bytes → Bool
is_last_line first line =
    ltb 3 (length line)
    && text_eq (take 3 line) (take 3 first)
    && text_eq (take 1 (drop 3 line)) (32 ∷ [])

unfoldable pub read_more : ℕ → Bytes → Exec Stream (List Bytes)
unfolding read_line is_last_line
read_more zero first = raise (blob_error timed_out)
read_more (suc fuel) first = do
  line ← read_line
  let rest = read_more fuel first >>= λ lines. pure (line ∷ lines)
  if is_last_line first line then pure (line ∷ []) else rest

-- `if first[3:4] == b"-":`
unfoldable pub other_lines : Bytes → Exec Stream (List Bytes)
unfolding read_more
other_lines first s =
    if text_eq (take 1 (drop 3 first)) (b'-' ∷ []) then read_more (rounds s) first s else (ok [], s)

unfoldable pub read_response : Exec Stream (ℤ × List Bytes)
unfolding read_line other_lines
read_response = do
  first ← read_line
  if ltb (length first) 4 then raise (blob_error response_too_short) else do
    code ← lift (bytes_to_int_range (take 3 first) (some (pos 0)) (some (pos 999)))
    lines ← other_lines first
    pure (code, first ∷ lines)

read_line_loop-eq :
    (script : List Recv) (buffer : Bytes)
    → read_line_loop script buffer ≡ Wire.read_line_loop script buffer
unfolding read_line_loop Wire.read_line_loop
read_line_loop-eq [] buffer = refl
read_line_loop-eq (chunk [] ∷ script) buffer = refl
read_line_loop-eq (chunk (b ∷ bs) ∷ script) buffer =
    ground (arith, read_line_loop-eq script (buffer ++ b ∷ bs))
read_line_loop-eq (recv_timeout ∷ script) buffer = refl
read_line_loop-eq (recv_os_error ∷ script) buffer = refl

read_line-eq : read_line ≡ Wire.read_line
unfolding read_line Wire.read_line
read_line-eq = fun_ext (λ s. read_line_loop-eq s.script s.buffer)

read_more-eq : (fuel : ℕ) (first : Bytes) → read_more fuel first ≡ Wire.read_more fuel first
unfolding read_more Wire.read_more is_last_line Wire.is_last_line
read_more-eq zero first = refl
read_more-eq (suc fuel) first = rw (read_line-eq, read_more-eq fuel first) refl

other_lines-eq : (first : Bytes) → other_lines first ≡ Wire.other_lines first
unfolding other_lines Wire.other_lines Wire.is_multi
other_lines-eq first = fun_ext (λ s.
    ap
      (λ (m : Exec Stream (List Bytes)).
        if text_eq (take 1 (drop 3 first)) (b'-' ∷ []) then m s else (ok [], s))
      (read_more-eq (rounds s) first))

-- A reply is read as by the synchronous client.
pub read_response-eq : read_response ≡ Wire.read_response
unfolding read_response Wire.read_response
read_response-eq = rw (read_line-eq, fun_ext other_lines-eq) refl
