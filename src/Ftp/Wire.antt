-- ===== src/Ftp/Wire.antt =====
-- src/gufo/blob/sync/ftp.py, `_read_line` and `_read_response`: replies are read off a stream that
-- arrives in pieces. What the socket answers to the calls of `recv` is a script; a socket with a
-- timeout answers every call, so a script that has ended answers with a timeout.
pub mod Lines
pub mod Rounds
pub mod Replies
use gufo_blob.Base.{
  ℕ, zero, suc, ◌+◌, Bool, true, false, ◌&&◌, List, [], ◌∷◌, ◌++◌, Option, none, some, ◌==◌,
  if◌then◌else◌, Bytes, text_eq, length, take, drop, ltb,
}
use gufo_blob.Base.Int.{ℤ, pos}
use gufo_blob.Base.Result.{
  Result, ok, err, Exec, pure, raise, lift, ◌>>=◌, blob_error, timed_out, os_error, server_closed,
  response_too_short,
}
use gufo_blob.Utils.{bytes_to_int_range}

-- What one call of `recv` gives; no bytes means that the server has closed the connection.
pub data Recv : Type 0 where
  chunk : Bytes → Recv
  recv_timeout recv_os_error : Recv

-- `buffer.partition(CRLF)`, with `none` where there is no CRLF
unfoldable pub partition : Bytes → Option (Bytes × Bytes)
partition [] = none
partition (c ∷ []) = none
partition (c ∷ d ∷ s) =
    let rest = partition (d ∷ s) in
    if c == 13 && d == 10
    then some ([], s)
    else (elim rest [ none ↦ none | some (line, after) ↦ some (c ∷ line, after) ])

-- The unread stream: the response buffer, and the script of `recv`.
pub record Stream : Type 0 where
  pub buffer : Bytes
  pub script : List Recv

unfoldable pub read_line_loop : List Recv → Bytes → Result Bytes × Stream
unfolding partition
read_line_loop [] buffer = elim (partition buffer) [
  | some (line, rest) ↦ (ok line, record { buffer = rest; script = [] })
  | none ↦ (err (blob_error timed_out), record { buffer = buffer; script = [] })
]
read_line_loop (e ∷ script) buffer = elim (partition buffer) [
  | some (line, rest) ↦ (ok line, record { buffer = rest; script = e ∷ script })
  | none ↦ elim e [
    | chunk bytes ↦ elim bytes [
      | [] ↦ (err (blob_error server_closed), record { buffer = buffer; script = script })
      | b ∷ bs ↦ read_line_loop script (buffer ++ b ∷ bs)
    ]
    | recv_timeout ↦ (err (blob_error timed_out), record { buffer = buffer; script = script })
    | recv_os_error ↦ (err (blob_error os_error), record { buffer = buffer; script = script })
  ]
]

unfoldable pub read_line : Stream → Result Bytes × Stream
unfolding read_line_loop
read_line s = read_line_loop s.script s.buffer

-- The test that ends a reply of several lines.
unfoldable pub is_last_line : Bytes → Bytes → Bool
is_last_line first line =
    ltb 3 (length line)
    && text_eq (take 3 line) (take 3 first)
    && text_eq (take 1 (drop 3 line)) (32 ∷ [])

-- The bytes that can still be read. Each line takes two of them at least.
unfoldable pub supply : List Recv → ℕ
supply [] = 0
supply (chunk bytes ∷ script) = length bytes + supply script
supply (recv_timeout ∷ script) = supply script
supply (recv_os_error ∷ script) = supply script

-- The `while True` over the lines that follow the first, on fuel.
unfoldable pub read_more : ℕ → Bytes → Exec Stream (List Bytes)
unfolding read_line is_last_line
read_more zero first = raise (blob_error timed_out)
read_more (suc fuel) first = do
  line ← read_line
  let rest = read_more fuel first >>= λ lines. pure (line ∷ lines)
  if is_last_line first line then pure (line ∷ []) else rest

-- Enough rounds for what a stream holds.
abbrev pub rounds : Stream → ℕ
rounds s = suc (length s.buffer + supply s.script)

-- `first[3:4] == b"-"`
unfoldable pub is_multi : Bytes → Bool
is_multi first = text_eq (take 1 (drop 3 first)) (b'-' ∷ [])

-- The lines of the reply behind the first.
unfoldable pub other_lines : Bytes → Exec Stream (List Bytes)
unfolding read_more supply is_multi
other_lines first s = if is_multi first then read_more (rounds s) first s else (ok [], s)

unfoldable pub read_response : Exec Stream (ℤ × List Bytes)
unfolding read_line other_lines
read_response = do
  first ← read_line
  if ltb (length first) 4 then raise (blob_error response_too_short) else do
    code ← lift (bytes_to_int_range (take 3 first) (some (pos 0)) (some (pos 999)))
    lines ← other_lines first
    pure (code, first ∷ lines)
