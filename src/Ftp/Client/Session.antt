-- ===== src/Ftp/Client/Session.antt =====
-- Commands and their replies on an open control connection.
use gufo_blob.Base.{
  ℕ, ◌≤◌, ◌≡◌, arith, true, List, ◌∷◌, ◌++◌, some, Text, Bytes, length, take, All, if◌then◌else◌,
  codes,
}
use gufo_blob.Base.Int.{ℤ, pos}
use gufo_blob.Base.Result.{Result, ok, err, blob_error, key_error, dele_failed}
use gufo_blob.Utils.{bytes_to_int_range}
use gufo_blob.Ftp.Common.{not_found, action_ok}
use gufo_blob.Ftp.Common.Utf8.{encode}
use gufo_blob.Ftp.Wire.{Recv, Stream, read_response}
use gufo_blob.Ftp.Wire.Lines.{Holds}
use gufo_blob.Ftp.Wire.Replies.{IsLine, IsReply, render, read_response-render}
use gufo_blob.Ftp.Client.{
  next_send, sent, FtpBlob, command, note, later, on_stream, send_command, raw_cmd, connection, cmd,
  is_code, expect,
}
use gufo_blob.Ftp.Client.Methods.{delete}

-- A complete reply: its code is the number of its first three bytes.
pub record Reply : Type 0 where
  pub first : Bytes
  pub others : List Bytes
  pub code : ℤ
  pub long : 4 ≤ length first
  pub coded : bytes_to_int_range (take 3 first) (some (pos 0)) (some (pos 999)) ≡ ok code
  pub lines : All IsLine (first ∷ others)
  pub closed : IsReply first others

-- The bytes of a reply.
abbrev pub wire : Reply → Bytes
wire r = render (r.first ∷ r.others)

-- The control stream of the object.
abbrev pub stream : FtpBlob → Stream
stream b = record { buffer = b.response_buffer; script = b.net.script }

abbrev pub with_stream : Stream → FtpBlob → FtpBlob
with_stream t b = record b { response_buffer = t.buffer; net = record b.net { script = t.script } }

-- The object after a command has been sent.
abbrev pub after_send : Text → FtpBlob → FtpBlob
after_send text b =
    note (command text) (record b { net = record b.net { sends = later b.net.sends } })

on_stream-reply :
    (r : Reply) (b : FtpBlob) (rest : Bytes) (more : List Recv)
    → Holds (stream b) (wire r ++ rest) more
    → (t : Stream) × (on_stream read_response b
        ≡ (ok (r.code, r.first ∷ r.others), with_stream t b))
      × Holds t rest more
unfolding on_stream
on_stream-reply r b rest more k =
    let (t, e, w) =
      read_response-render r.first rest r.others r.code more (stream b) r.long r.coded r.lines
        r.closed k in
    (t, ground (arith, e), w)

-- On an open connection a command is sent and its reply read, in whatever pieces it arrives.
pub cmd-reply :
    (text : Text) (bytes : Bytes) (r : Reply) (b : FtpBlob) (rest : Bytes) (more : List Recv)
    → b.sock ≡ true
    → encode text ≡ some bytes
    → next_send b.net.sends ≡ sent
    → Holds (stream b) (wire r ++ rest) more
    → (t : Stream) × (cmd text b
        ≡ (ok (r.code, r.first ∷ r.others), with_stream t (after_send text b)))
      × Holds t rest more
unfolding cmd connection raw_cmd send_command
cmd-reply text bytes r b rest more up e s k =
    let (t, f, w) = on_stream-reply r (after_send text b) rest more k in
    (t, ground (arith, up, e, s, f), w)

pub expect-reply :
    (code : ℕ) (r : Reply) (b : FtpBlob) (rest : Bytes) (more : List Recv)
    → r.code ≡ pos code
    → Holds (stream b) (wire r ++ rest) more
    → (t : Stream) × (expect code b ≡ (ok tt, with_stream t b)) × Holds t rest more
unfolding expect is_code
expect-reply code r b rest more c k =
    let (t, f, w) = on_stream-reply r b rest more k in (t, ground (arith, f, c), w)

-- What `delete` makes of a reply code.
abbrev pub delete_outcome : Text → ℤ → Result (Unit {0})
delete_outcome key code =
    if is_code code not_found
    then err (key_error key)
    else if is_code code action_ok
    then ok tt
    else err (blob_error dele_failed)

delete-cmd :
    (key : Text) (b c : FtpBlob) (code : ℤ) (lines : List Bytes)
    → cmd (codes "DELE " ++ key) b ≡ (ok (code, lines), c)
    → delete key b ≡ (delete_outcome key code, c)
unfolding delete
delete-cmd key b c code lines e = ground (arith, e)

-- On an open connection that takes the command, with a key that can be encoded, `delete` returns for a reply 250, raises
-- `KeyError(key)` for a reply 550 and `BlobError` for any other code, in whatever pieces the reply
-- arrives; the command sent is DELE with the key, and what follows the reply stays to be read.
pub delete-reply :
    (key : Text) (bytes : Bytes) (r : Reply) (b : FtpBlob) (rest : Bytes) (more : List Recv)
    → b.sock ≡ true
    → encode (codes "DELE " ++ key) ≡ some bytes
    → next_send b.net.sends ≡ sent
    → Holds (stream b) (wire r ++ rest) more
    → ((delete key b).0 ≡ delete_outcome key r.code)
      × ((delete key b).1.net.log ≡ command (codes "DELE " ++ key) ∷ b.net.log)
      × Holds (stream (delete key b).1) rest more
delete-reply key bytes r b rest more up e s k =
    let (t, f, w) = cmd-reply (codes "DELE " ++ key) bytes r b rest more up e s k in
    let g = delete-cmd key b _ r.code _ f in (rw g, rw g, rw g w)
