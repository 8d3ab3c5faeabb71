-- ===== src/Ftp/Client/Download.antt =====
-- `get` against a server that follows the protocol, and against one whose reply comes late.
use gufo_blob.Base.{
  ◌≡◌, ◌∙◌, refl, ap, arith, true, false, List, [], ◌∷◌, ◌++◌, append_assoc, append-nil, some, Text,
  Bytes, codes,
}
use gufo_blob.Base.Int.{ℤ, pos}
use gufo_blob.Base.Result.{ok}
use gufo_blob.Ftp.Common.{not_found, transfer_done, pasv}
use gufo_blob.Ftp.Common.Methods.{last_or}
use gufo_blob.Ftp.Common.Pasv.{parse_pasv}
use gufo_blob.Ftp.Common.Utf8.{encode}
use gufo_blob.Ftp.Wire.{Recv, chunk, Stream}
use gufo_blob.Ftp.Wire.Lines.{Holds, pieces, flat, AllFull}
use gufo_blob.Ftp.Client.{
  next_send, sent, Send, FtpBlob, command, opened, released, note, next, later, cmd, is_code,
  expect,
}
use gufo_blob.Ftp.Client.Transfer.{
  data_connect, get_passive_socket, recv_all, receive, is_open, retrieve, pasv_cmd, get,
}
use gufo_blob.Ftp.Client.Session.{
  Reply, wire, stream, with_stream, after_send, cmd-reply, expect-reply,
}

-- The loop over the data socket joins what it receives before the server closes the connection.
recv_all-pieces :
    (ps : List Bytes) (acc : Bytes) (more : List Recv)
    → AllFull ps
    → recv_all (pieces ps (chunk [] ∷ more)) acc ≡ (ok (acc ++ flat ps), more)
unfolding recv_all
recv_all-pieces [] acc more h = rw append-nil
recv_all-pieces ([] ∷ ps) acc more (h, hs) = absurd (h refl)
recv_all-pieces ((c ∷ p) ∷ ps) acc more (h, hs) =
    recv_all-pieces ps (acc ++ c ∷ p) more hs
    ∙ ap (λ (x : Bytes). (ok x, more)) (append_assoc acc (c ∷ p) (flat ps))

-- The object once the data connection is open.
abbrev after_open : Text → ℤ → FtpBlob → FtpBlob
after_open host port b =
    note (opened host port)
      (record b { net = record b.net { data_connects = later b.net.data_connects } })

abbrev pub pasv_text : Text
pasv_text = codes "PASV"

passive :
    (r : Reply) (b : FtpBlob) (host : Text) (port : ℤ) (rest : Bytes) (more : List Recv)
    → b.sock ≡ true
    → next_send b.net.sends ≡ sent
    → r.code ≡ pos pasv
    → parse_pasv (last_or [] (r.first ∷ r.others)) ≡ ok (host, port)
    → next b.net.data_connects ≡ true
    → Holds (stream b) (wire r ++ rest) more
    → (t : Stream) × (get_passive_socket b
        ≡ (ok tt, after_open host port (with_stream t (after_send pasv_text b))))
      × Holds t rest more
unfolding get_passive_socket data_connect is_code
passive r b host port rest more up s c p d k =
    let (t, f, w) = cmd-reply pasv_text pasv_text r b rest more up (unfold encode in refl) s k in
    (t, ground (arith, f, c, p, d), w)

abbrev with_data : List Recv → FtpBlob → FtpBlob
with_data script b = record b { net = record b.net { data_script = script } }

receive-pieces :
    (b : FtpBlob) (ps : List Bytes) (more : List Recv)
    → b.net.data_script ≡ pieces ps (chunk [] ∷ more)
    → AllFull ps
    → receive b ≡ (ok (flat ps), with_data more b)
unfolding receive
receive-pieces b ps more e h = ground (arith, e, recv_all-pieces ps [] more h)

is_open-not_found : (code : ℤ) → is_open code ≡ true → is_code code not_found ≡ false
unfolding is_open is_code
is_open-not_found code h = ground arith

retrieve-steps :
    (text : Text) (b c d e : FtpBlob) (code : ℤ) (lines : List Bytes) (bytes : Bytes)
    → cmd text b ≡ (ok (code, lines), c)
    → is_open code ≡ true
    → receive c ≡ (ok bytes, d)
    → expect transfer_done d ≡ (ok tt, e)
    → retrieve text b ≡ (ok bytes, e)
unfolding retrieve
retrieve-steps text b c d e code lines bytes f o g h =
    ground (arith, f, o, is_open-not_found code o, g, h)

retrieve-replies :
    (text : Text) (bytes : Bytes) (r done : Reply) (b : FtpBlob) (ps : List Bytes) (rest : Bytes)
    (more data_more : List Recv)
    → b.sock ≡ true
    → next_send b.net.sends ≡ sent
    → encode text ≡ some bytes
    → is_open r.code ≡ true
    → done.code ≡ pos transfer_done
    → b.net.data_script ≡ pieces ps (chunk [] ∷ data_more)
    → AllFull ps
    → Holds (stream b) (wire r ++ (wire done ++ rest)) more
    → (t : Stream) × (retrieve text b ≡ (
      ok (flat ps),
      with_stream t (record (after_send text b) {
        net = record (after_send text b).net { data_script = data_more };
      }),
    ))
      × Holds t rest more
retrieve-replies text bytes r done b ps rest more data_more up s e o d a h k =
    let (t, f, w) = cmd-reply text bytes r b (wire done ++ rest) more up e s k in
    let b1 = with_stream t (after_send text b) in
    let (t', g, w') = expect-reply transfer_done done (with_data data_more b1) rest more d w in
    (
      t',
      retrieve-steps text b b1 (with_data data_more b1) _ r.code _ (flat ps) f o
          (receive-pieces b1 ps data_more a h) g,
      w',
    )

pasv_cmd-steps :
    (text : Text) (b c d : FtpBlob) (bytes : Bytes)
    → get_passive_socket b ≡ (ok tt, c)
    → retrieve text c ≡ (ok bytes, d)
    → pasv_cmd text b ≡ (ok bytes, note released d)
unfolding pasv_cmd
pasv_cmd-steps text b c d bytes e f = ground (arith, e, f)

abbrev pub retr : Text → Text
retr key = codes "RETR " ++ key

-- Against a server that follows the protocol `get` returns the object: on an open connection that
-- takes two commands, with a key that can be encoded, a reply 227 that shows an address, a data connection that opens, a reply 125 or 150, any pieces that
-- are not empty up to the end of the data, and a reply 226, it returns the pieces joined. It has sent PASV and RETR, has
-- opened the address and released it, and has read exactly the three replies, in whatever pieces
-- these arrive.
pub get-replies :
    (key : Text) (bytes : Bytes) (address opening done : Reply) (b : FtpBlob) (host : Text)
    (port : ℤ) (ps : List Bytes) (rest : Bytes) (more data_more : List Recv) (sends : List Send)
    → b.sock ≡ true
    → b.net.sends ≡ sent ∷ sent ∷ sends
    → encode (retr key) ≡ some bytes
    → address.code ≡ pos pasv
    → parse_pasv (last_or [] (address.first ∷ address.others)) ≡ ok (host, port)
    → next b.net.data_connects ≡ true
    → is_open opening.code ≡ true
    → done.code ≡ pos transfer_done
    → b.net.data_script ≡ pieces ps (chunk [] ∷ data_more)
    → AllFull ps
    → Holds (stream b) (wire address ++ (wire opening ++ (wire done ++ rest))) more
    → ((get key b).0 ≡ ok (flat ps))
      × ((get key b).1.net.log
          ≡ released ∷ command (retr key) ∷ opened host port ∷ command pasv_text ∷ b.net.log)
      × Holds (stream (get key b).1) rest more
unfolding get
get-replies key bytes address opening done b host port ps rest more data_more sends up s e ac p dc o
      d a h k =
    let (t, f, w) =
      passive address b host port (wire opening ++ (wire done ++ rest)) more up (ap next_send s) ac
        p dc k in
    let b1 = after_open host port (with_stream t (after_send pasv_text b)) in
    let (t', g, w') =
      retrieve-replies (retr key) bytes opening done b1 ps rest more data_more up
        (ap (λ (l : List Send). next_send (later l)) s) e o d a h w in
    let run = pasv_cmd-steps (retr key) b b1 _ (flat ps) f g in (rw run, rw run, rw run w')
