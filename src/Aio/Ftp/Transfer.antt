-- ===== src/Aio/Ftp/Transfer.antt =====
-- src/gufo/blob/aio/ftp.py: transfers over a passive data connection.
use gufo_blob.Base.{Bool, ◌||◌, List, [], ◌∷◌, ◌++◌, if◌then◌else◌, Text, Bytes, codes}
use gufo_blob.Base.Int.{ℤ}
use gufo_blob.Base.Result.{
  Result, ok, err, Error, pure, raise, lift, ◌>>=◌, ◌>>◌, blob_error, key_error, timed_out,
  os_error, pasv_failed, data_connection_failed, unexpected_response, mkdir_failed,
}
use gufo_blob.Ftp.Common.{
  pasv, not_found, transfer_already_open, transfer_ready, transfer_done, created, iter_parent_dirs,
}
use gufo_blob.Ftp.Common.Methods.{last_or}
use gufo_blob.Ftp.Common.Pasv.{parse_pasv}
use gufo_blob.Ftp.Wire.{Recv, chunk, recv_timeout, recv_os_error}
use gufo_blob.Ftp.Client.{
  sent, send_timeout, send_os_error, opened, uploaded, released, next, next_send, later, is_code,
}
use gufo_blob.Ftp.Client.Transfer.{behind_space}
use gufo_blob.Aio.Ftp.{AsyncFtp, AsyncFtpBlob, note, expect, cmd, suppress}

-- `asyncio.open_connection(host, port)` for the data, within the timeout
unfoldable pub data_connect : Text → ℤ → AsyncFtp (Unit {0})
data_connect host port b =
    let b' = record b { net = record b.net { data_connects = later b.net.data_connects } } in
    if next b.net.data_connects
    then (ok tt, note (opened host port) b')
    else (err (blob_error data_connection_failed), b')

unfoldable pub get_passive_connection : AsyncFtp (Unit {0})
unfolding cmd parse_pasv data_connect is_code
get_passive_connection = do
  (code, lines) ← cmd (codes "PASV")
  if is_code code pasv
      then (do (host, port) ← lift (parse_pasv (last_or [] lines)); data_connect host port)
      else raise (blob_error pasv_failed)

abbrev pub raise_unless {ℓ} :
    {A : Type ℓ} → Error → Result (Unit {0}) × AsyncFtpBlob → Result A × AsyncFtpBlob
raise_unless e (ok _, s) = (err e, s)
raise_unless e (err x, s) = (err x, s)

-- `with suppress(BlobError): await self._expect(FTP_TRANSFER_DONE)`, and the raise behind it
unfoldable pub fail_transfer {ℓ} : {A : Type ℓ} → Error → AsyncFtpBlob → Result A × AsyncFtpBlob
unfolding expect
fail_transfer e b = raise_unless e (suppress (expect transfer_done b))

-- The loop over `d_reader.read`: the chunks joined, and the rest of the script.
unfoldable pub read_all : List Recv → Bytes → Result Bytes × List Recv
read_all [] acc = (err (blob_error timed_out), [])
read_all (chunk [] ∷ script) acc = (ok acc, script)
read_all (chunk (c ∷ bytes) ∷ script) acc = read_all script (acc ++ c ∷ bytes)
read_all (recv_timeout ∷ script) acc = (err (blob_error timed_out), script)
read_all (recv_os_error ∷ script) acc = (err (blob_error os_error), script)

abbrev pub after_read : Result Bytes → AsyncFtp Bytes
after_read (ok bytes) b = (ok bytes, b)
after_read (err e) b = fail_transfer e b

unfoldable pub receive : AsyncFtp Bytes
unfolding read_all fail_transfer
receive b =
    let (r, script) = read_all b.net.data_script [] in
    after_read r (record b { net = record b.net { data_script = script } })

-- `code in (FTP_TRANSFER_ALREADY_OPEN, FTP_TRANSFER_READY)`
unfoldable pub is_open : ℤ → Bool
unfolding is_code
is_open code = is_code code transfer_already_open || is_code code transfer_ready

-- `finally: await self._close_data(…)`, whose errors are suppressed.
abbrev pub close_data {ℓ} : {A : Type ℓ} → Result A × AsyncFtpBlob → Result A × AsyncFtpBlob
close_data (r, b) = (r, note released b)

-- The `try` block of `_pasv_cmd`
unfoldable pub retrieve : Text → AsyncFtp Bytes
unfolding behind_space cmd is_code is_open receive expect
retrieve text = do
  (code, _) ← cmd text
  if is_code code not_found
      then raise (key_error (behind_space text text))
      else if is_open code
      then (do bytes ← receive; expect transfer_done; pure bytes)
      else raise (blob_error unexpected_response)

-- A passive connection, and a `try` block with its `finally`
unfoldable pub with_passive : {A : Type 0} → AsyncFtp A → AsyncFtp A
unfolding get_passive_connection
with_passive body = get_passive_connection >>= λ _ b. close_data (body b)

-- `_pasv_cmd`
unfoldable pub pasv_cmd : Text → AsyncFtp Bytes
unfolding with_passive retrieve
pasv_cmd text = with_passive (retrieve text)

unfoldable pub get : Text → AsyncFtp Bytes
unfolding pasv_cmd
get key = pasv_cmd (codes "RETR " ++ key)

-- The loop of `_ensure_parent_dirs`
unfoldable pub make_dirs : List Text → AsyncFtp (Unit {0})
unfolding cmd is_code
make_dirs [] = pure tt
make_dirs (d ∷ ds) = do
  (code, _) ← cmd (codes "MKD " ++ d)
  let rest = make_dirs ds
  if is_code code created || is_code code not_found then rest else raise (blob_error mkdir_failed)

unfoldable pub ensure_parent_dirs : Text → AsyncFtp (Unit {0})
unfolding make_dirs iter_parent_dirs
ensure_parent_dirs key = make_dirs (iter_parent_dirs key)

-- `d_writer.write(data)` and `drain`, with the handlers
unfoldable pub upload : Bytes → AsyncFtp (Unit {0})
unfolding fail_transfer
upload bytes b =
    let b' = record b { net = record b.net { data_sends = later b.net.data_sends } } in
    elim (next_send b.net.data_sends) [
      | sent ↦ (ok tt, note (uploaded bytes) b')
      | send_timeout ↦ fail_transfer (blob_error timed_out) b'
      | send_os_error ↦ fail_transfer (blob_error os_error) b'
    ]

-- The `try` block of `put`
unfoldable pub store : Text → Bytes → AsyncFtp (Unit {0})
unfolding cmd is_open upload
store key bytes = do
  (code, _) ← cmd (codes "STOR " ++ key)
  if is_open code then upload bytes else raise (blob_error unexpected_response)

unfoldable pub put : Text → Bytes → AsyncFtp (Unit {0})
unfolding ensure_parent_dirs with_passive store expect
put key bytes = do ensure_parent_dirs key; with_passive (store key bytes); expect transfer_done
