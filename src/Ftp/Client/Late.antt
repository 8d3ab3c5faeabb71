-- ===== src/Ftp/Client/Late.antt =====
-- A reply that comes after its command has timed out.
use gufo_blob.Base.{◌≡◌, ap, arith, true, List, ◌∷◌, ◌++◌, none, some, Text, Bytes, codes}
use gufo_blob.Base.Result.{err, blob_error, timed_out}
use gufo_blob.Ftp.Common.Utf8.{encode}
use gufo_blob.Ftp.Wire.{Recv, recv_timeout, partition, read_line_loop, read_line, read_response}
use gufo_blob.Ftp.Wire.Lines.{Holds}
use gufo_blob.Ftp.Client.{
  next_send, sent, Send, FtpBlob, later, on_stream, send_command, raw_cmd, connection, cmd,
}
use gufo_blob.Ftp.Client.Methods.{delete}
use gufo_blob.Ftp.Client.Session.{
  Reply, wire, with_stream, after_send, delete-reply, delete_outcome,
}

timeout_line :
    (buffer : Bytes) (script : List Recv)
    → partition buffer ≡ none
    → read_line_loop (recv_timeout ∷ script) buffer
      ≡ (err (blob_error timed_out), record { buffer = buffer; script = script })
unfolding read_line_loop
timeout_line buffer script e = ground (arith, e)

cmd-timeout :
    (text : Text) (bytes : Bytes) (b : FtpBlob) (script : List Recv)
    → b.sock ≡ true
    → encode text ≡ some bytes
    → next_send b.net.sends ≡ sent
    → partition b.response_buffer ≡ none
    → b.net.script ≡ recv_timeout ∷ script
    → cmd text b ≡ (
      err (blob_error timed_out),
      with_stream (record { buffer = b.response_buffer; script = script }) (after_send text b),
    )
unfolding cmd connection raw_cmd send_command on_stream read_response read_line
cmd-timeout text bytes b script up e s p q =
    ground (arith, up, e, s, q, timeout_line b.response_buffer script p)

delete-timeout :
    (key : Text) (b c : FtpBlob)
    → cmd (codes "DELE " ++ key) b ≡ (err (blob_error timed_out), c)
    → delete key b ≡ (err (blob_error timed_out), c)
unfolding delete
delete-timeout key b c e = ground (arith, e)

-- A command that times out leaves the connection open: on one that takes both commands and has no
-- whole line buffered, with two keys that can be encoded, if the reply then arrives, a `delete` of
-- another key takes that reply for its own: it returns, or raises, as the reply to the first key
-- says.
pub delete_late_reply :
    (key other : Text) (bytes bytes' : Bytes) (r : Reply) (b : FtpBlob) (rest : Bytes)
    (script more : List Recv) (sends : List Send)
    → b.sock ≡ true
    → b.net.sends ≡ sent ∷ sent ∷ sends
    → encode (codes "DELE " ++ key) ≡ some bytes
    → encode (codes "DELE " ++ other) ≡ some bytes'
    → partition b.response_buffer ≡ none
    → b.net.script ≡ recv_timeout ∷ script
    → Holds (record { buffer = b.response_buffer; script = script }) (wire r ++ rest) more
    → ((delete key b).0 ≡ err (blob_error timed_out))
      × ((delete other (delete key b).1).0 ≡ delete_outcome other r.code)
delete_late_reply key other bytes bytes' r b rest script more sends up s e f p q k =
    let g =
      delete-timeout key b _
        (cmd-timeout (codes "DELE " ++ key) bytes b script up e (ap next_send s) p q) in
    let c =
      with_stream (record { buffer = b.response_buffer; script = script })
        (after_send (codes "DELE " ++ key) b) in
    let d =
      delete-reply other bytes' r c rest more up f (ap (λ (l : List Send). next_send (later l)) s)
        k in
    (rw g, rw g (d.0))
