-- ===== src/Ftp/Client/Transfer.antt =====
-- Transfers over a passive data connection: `_get_passive_socket`, `_pasv_cmd`, `get`, `put`.
use gufo_blob.Base.{Bool, ◌||◌, ◌==◌, List, [], ◌∷◌, ◌++◌, if◌then◌else◌, Text, Bytes, codes}
use gufo_blob.Base.Int.{ℤ}
use gufo_blob.Base.Result.{
  Result, ok, err, Error, pure, raise, lift, ◌>>=◌, ◌>>◌, blob_error, key_error, timed_out,
  os_error, pasv_failed, data_connection_failed, unexpected_response, mkdir_failed,
}
use gufo_blob.Ftp.Common.{
  pasv, not_found, transfer_already_open, transfer_ready, transfer_done, created, iter_parent_dirs,
}
use gufo_blob.Ftp.Common.Methods.{last_or}
use gufo_blob.Ftp.Common.Pasv.{parse_pasv}
use gufo_blob.Ftp.Wire.{Recv, chunk, recv_timeout, recv_os_error}
use gufo_blob.Ftp.Client.{
  Ftp, FtpBlob, sent, send_timeout, send_os_error, opened, uploaded, released, note, next,
  next_send, later, is_code, expect, cmd, suppress,
}

-- `socket.create_connection((host, port))` for the data
unfoldable pub data_connect : Text → ℤ → Ftp (Unit {0})
data_connect host port b =
    let b' = record b { net = record b.net { data_connects = later b.net.data_connects } } in
    if next b.net.data_connects
    then (ok tt, note (opened host port) b')
    else (err (blob_error data_connection_failed), b')

unfoldable pub get_passive_socket : Ftp (Unit {0})
unfolding cmd parse_pasv data_connect is_code
get_passive_socket = do
  (code, lines) ← cmd (codes "PASV")
  if is_code code pasv
      then (do (host, port) ← lift (parse_pasv (last_or [] lines)); data_connect host port)
      else raise (blob_error pasv_failed)

abbrev pub raise_unless {ℓ} :
    {A : Type ℓ} → Error → Result (Unit {0}) × FtpBlob → Result A × FtpBlob
raise_unless e (ok _, s) = (err e, s)
raise_unless e (err x, s) = (err x, s)

-- `with suppress(BlobError): self._expect(FTP_TRANSFER_DONE)`, and the raise behind it
unfoldable pub fail_transfer {ℓ} : {A : Type ℓ} → Error → FtpBlob → Result A × FtpBlob
unfolding expect
fail_transfer e b = raise_unless e (suppress (expect transfer_done b))

-- The loop over `sock.recv`: the chunks joined, and the rest of the script.
unfoldable pub recv_all : List Recv → Bytes → Result Bytes × List Recv
recv_all [] acc = (err (blob_error timed_out), [])
recv_all (chunk [] ∷ script) acc = (ok acc, script)
recv_all (chunk (c ∷ bytes) ∷ script) acc = recv_all script (acc ++ c ∷ bytes)
recv_all (recv_timeout ∷ script) acc = (err (blob_error timed_out), script)
recv_all (recv_os_error ∷ script) acc = (err (blob_error os_error), script)

abbrev pub after_recv : Result Bytes → Ftp Bytes
after_recv (ok bytes) b = (ok bytes, b)
after_recv (err e) b = fail_transfer e b

unfoldable pub receive : Ftp Bytes
unfolding recv_all fail_transfer
receive b =
    let (r, script) = recv_all b.net.data_script [] in
    after_recv r (record b { net = record b.net { data_script = script } })

-- `code in (FTP_TRANSFER_ALREADY_OPEN, FTP_TRANSFER_READY)`
unfoldable pub is_open : ℤ → Bool
unfolding is_code
is_open code = is_code code transfer_already_open || is_code code transfer_ready

-- `finally`: shutdown and close, whose errors are suppressed.
abbrev pub finally_release {ℓ} : {A : Type ℓ} → Result A × FtpBlob → Result A × FtpBlob
finally_release (r, b) = (r, note released b)

-- What follows the first space of `rest`, or `whole` where there is none.
unfoldable pub behind_space : Text → Text → Text
behind_space [] whole = whole
behind_space (c ∷ rest) whole = if c == 32 then rest else behind_space rest whole

-- The `try` block of `_pasv_cmd`; `cmd.split(" ", 1)[-1]` is the command behind its first space.
unfoldable pub retrieve : Text → Ftp Bytes
unfolding behind_space cmd is_code is_open receive expect
retrieve text = do
  (code, _) ← cmd text
  if is_code code not_found
      then raise (key_error (behind_space text text))
      else if is_open code
      then (do bytes ← receive; expect transfer_done; pure bytes)
      else raise (blob_error unexpected_response)

-- `sock = self._get_passive_socket()`, and a `try` block with its `finally`
unfoldable pub with_passive : {A : Type 0} → Ftp A → Ftp A
unfolding get_passive_socket
with_passive body = get_passive_socket >>= λ _ b. finally_release (body b)

-- `_pasv_cmd`
unfoldable pub pasv_cmd : Text → Ftp Bytes
unfolding with_passive retrieve
pasv_cmd text = with_passive (retrieve text)

unfoldable pub get : Text → Ftp Bytes
unfolding pasv_cmd
get key = pasv_cmd (codes "RETR " ++ key)

-- The loop of `_ensure_parent_dirs`
unfoldable pub make_dirs : List Text → Ftp (Unit {0})
unfolding cmd is_code
make_dirs [] = pure tt
make_dirs (d ∷ ds) = do
  (code, _) ← cmd (codes "MKD " ++ d)
  let rest = make_dirs ds
  if is_code code created || is_code code not_found then rest else raise (blob_error mkdir_failed)

unfoldable pub ensure_parent_dirs : Text → Ftp (Unit {0})
unfolding make_dirs iter_parent_dirs
ensure_parent_dirs key = make_dirs (iter_parent_dirs key)

-- `sock.sendall(data)` with its handlers
unfoldable pub upload : Bytes → Ftp (Unit {0})
unfolding fail_transfer
upload bytes b =
    let b' = record b { net = record b.net { data_sends = later b.net.data_sends } } in
    elim (next_send b.net.data_sends) [
      | sent ↦ (ok tt, note (uploaded bytes) b')
      | send_timeout ↦ fail_transfer (blob_error timed_out) b'
      | send_os_error ↦ fail_transfer (blob_error os_error) b'
    ]

-- The `try` block of `put`
unfoldable pub store : Text → Bytes → Ftp (Unit {0})
unfolding cmd is_open upload
store key bytes = do
  (code, _) ← cmd (codes "STOR " ++ key)
  if is_open code then upload bytes else raise (blob_error unexpected_response)

unfoldable pub put : Text → Bytes → Ftp (Unit {0})
unfolding ensure_parent_dirs with_passive store expect
put key bytes = do ensure_parent_dirs key; with_passive (store key bytes); expect transfer_done
