-- ===== src/Aio/Ftp.antt =====
-- src/gufo/blob/aio/ftp.py: the object `FTPBlob` over asyncio streams, its control connection and the
-- commands. The network is that of the synchronous client, with a script for the closing of a
-- control connection beside it; there a script that has ended answers that all is well. Python is 3.11
-- or later, where the TimeoutError of asyncio is the built-in one, which the source catches.
pub mod Wire
pub mod Url
pub mod Transfer
pub mod Methods
pub mod Same
pub mod Close
mod Tests
use gufo_blob.Base.{
  ℕ, zero, suc, Bool, true, false, List, [], ◌∷◌, ◌++◌, Option, none, some, if◌then◌else◌, Text,
  Bytes, codes,
}
use gufo_blob.Base.Int.{ℤ}
use gufo_blob.Base.Result.{
  Result, ok, err, Error, Exec, pure, raise, ◌>>=◌, ◌>>◌, blob_error, unicode_error, os_exception,
  connection_lost, connect_failed, login_failed, cwd_failed, type_failed, send_error, timed_out,
  unexpected_code,
}
use gufo_blob.Ftp.Common.{FtpFeatures, ready, user_ok, login_ok, action_ok, ftp_ok}
use gufo_blob.Ftp.Common.Methods.{strip}
use gufo_blob.Ftp.Common.Utf8.{encode}
use gufo_blob.Ftp.Client.{
  Network, Action, connected, slept, closed, command, sent, send_timeout, send_os_error, next,
  next_send, later, is_code,
}
use gufo_blob.Ftp.Wire.{Stream}
use gufo_blob.Aio.Ftp.Wire.{read_response}

-- `_conn` is kept as whether there is one; `closes` is what the next closings of one give.
pub record AsyncFtpBlob : Type 0 where
  pub user : Text
  pub password : Text
  pub root : Text
  pub retries : ℕ
  pub conn : Bool
  pub pending_features : Option FtpFeatures
  pub response_buffer : Bytes
  pub net : Network
  pub closes : List Bool

abbrev pub AsyncFtp : Type 0 → Type 0
AsyncFtp A = Exec AsyncFtpBlob A

-- `__init__`
abbrev pub init : Text → Text → Text → ℕ → Option FtpFeatures → Network → List Bool → AsyncFtpBlob
init user password root retries features net closes = record {
  user = user;
  password = password;
  root = strip b'/' root;
  retries = retries;
  conn = false;
  pending_features = features;
  response_buffer = [];
  net = net;
  closes = closes;
}

abbrev pub note : Action → AsyncFtpBlob → AsyncFtpBlob
note a b = record b { net = record b.net { log = a ∷ b.net.log } }

abbrev pub next_close : List Bool → Bool
next_close [] = true
next_close (x ∷ xs) = x

-- A reader of the control stream, run on the object's buffer and script.
unfoldable pub on_stream : {A : Type 0} → Exec Stream A → AsyncFtp A
on_stream m b =
    let (r, s) = m (record { buffer = b.response_buffer; script = b.net.script }) in
    (r, record b { response_buffer = s.buffer; net = record b.net { script = s.script } })

-- `_Conn.close`: what `wait_closed` raises is not suppressed.
unfoldable pub close_conn : AsyncFtp (Unit {0})
close_conn b =
    let b' = note closed (record b { closes = later b.closes }) in
    if next_close b.closes then (ok tt, b') else (err (os_exception connection_lost), b')

-- `_tcp_connect`: the loop over the attempts that are left.
unfoldable pub connect_loop : ℕ → AsyncFtp (Unit {0})
connect_loop zero b = (err (blob_error connect_failed), b)
connect_loop (suc n) b =
    let b' = record b { net = record b.net { connects = later b.net.connects } } in
    let again = connect_loop n (note slept b') in
    if next b.net.connects then (ok tt, note connected b') else again

unfoldable pub tcp_connect : AsyncFtp (Unit {0})
unfolding connect_loop
tcp_connect b = connect_loop b.retries b

-- `_cmd` on an open connection. A command is noted when `drain` has returned.
unfoldable pub send_command : Text → AsyncFtp (Unit {0})
send_command cmd b = elim (encode cmd) [
  | none ↦ (err unicode_error, b)
  | some bytes ↦
      let b' = record b { net = record b.net { sends = later b.net.sends } } in
      elim (next_send b.net.sends) [
        | sent ↦ (ok tt, note (command cmd) b')
        | send_timeout ↦ (err (blob_error timed_out), b')
        | send_os_error ↦ (err (blob_error send_error), b')
      ]
]

unfoldable pub raw_cmd : Text → AsyncFtp (ℤ × List Bytes)
unfolding send_command on_stream read_response
raw_cmd cmd = do send_command cmd; on_stream read_response

-- `_expect`
unfoldable pub expect : ℕ → AsyncFtp (Unit {0})
unfolding on_stream read_response is_code
expect code = do
  (got, _) ← on_stream read_response
  if is_code got code then pure tt else raise (blob_error unexpected_code)

abbrev pub demand : ℤ → ℕ → Error → AsyncFtp (Unit {0})
demand got code e = if is_code got code then pure tt else raise e

unfoldable pub send_password : ℤ → AsyncFtp ℤ
unfolding raw_cmd is_code
send_password code b =
    if is_code code user_ok
    then (raw_cmd (codes "PASS " ++ b.password) >>= λ (answer, _). pure answer) b
    else (ok code, b)

unfoldable pub enter_path : Text → AsyncFtp (Unit {0})
unfolding raw_cmd is_code
enter_path [] = pure tt
enter_path (c ∷ path) = do
  (code, _) ← raw_cmd (codes "CWD /" ++ c ∷ path)
  demand code action_ok (blob_error cwd_failed)

-- `if self._root:`
unfoldable pub enter_root : AsyncFtp (Unit {0})
unfolding enter_path
enter_root b = enter_path b.root b

unfoldable pub login : AsyncFtp (Unit {0})
unfolding expect raw_cmd send_password enter_root
login b =
    (do
      expect ready
      (first, _) ← raw_cmd (codes "USER " ++ b.user)
      code ← send_password first
      demand code login_ok (blob_error login_failed)
      enter_root
      (mode, _) ← raw_cmd (codes "TYPE I")
      demand mode ftp_ok (blob_error type_failed))
      b

-- `except BlobError`: an exception of the closing takes the place of the first one, and the
-- connection stays.
abbrev pub dropped : Error → Result (Unit {0}) × AsyncFtpBlob → Result (Unit {0}) × AsyncFtpBlob
dropped e (ok _, b) = (err e, record b { conn = false })
dropped e (err x, b) = (err x, b)

abbrev pub drop_on_blob_error : Result (Unit {0}) × AsyncFtpBlob → Result (Unit {0}) × AsyncFtpBlob
drop_on_blob_error (err (blob_error x), b) = dropped (blob_error x) (close_conn b)
drop_on_blob_error (r, b) = (r, b)

abbrev pub then_login : Result (Unit {0}) × AsyncFtpBlob → Result (Unit {0}) × AsyncFtpBlob
then_login (ok _, b) = drop_on_blob_error (login (record b { conn = true }))
then_login (err e, b) = (err e, b)

-- The property `connection`
unfoldable pub connection : AsyncFtp (Unit {0})
unfolding tcp_connect login close_conn
connection b = if b.conn then (ok tt, b) else then_login (tcp_connect b)

-- `open`
unfoldable pub open_blob : AsyncFtp (Unit {0})
unfolding connection
open_blob = connection

-- `except OSError` of `_cmd`, as it meets the exceptions of `connection`
abbrev pub as_send_error : Result (Unit {0}) × AsyncFtpBlob → Result (Unit {0}) × AsyncFtpBlob
as_send_error (err (os_exception kind), b) = (err (blob_error send_error), b)
as_send_error (r, b) = (r, b)

abbrev pub safe_connection : AsyncFtp (Unit {0})
safe_connection b = as_send_error (connection b)

-- `_cmd`
unfoldable pub cmd : Text → AsyncFtp (ℤ × List Bytes)
unfolding connection raw_cmd
cmd text = do safe_connection; raw_cmd text

-- `with suppress(BlobError): m`
abbrev pub suppress {ℓ} : {A : Type ℓ} → Result A × AsyncFtpBlob → Result (Unit {0}) × AsyncFtpBlob
suppress (ok a, b) = (ok tt, b)
suppress (err (blob_error x), b) = (ok tt, b)
suppress (err e, b) = (err e, b)

-- `finally`: an exception of the closing takes the place of the result.
abbrev pub replaced :
    Result (Unit {0}) → Result (Unit {0}) × AsyncFtpBlob → Result (Unit {0}) × AsyncFtpBlob
replaced r (ok _, b) = (r, b)
replaced r (err e, b) = (err e, b)

abbrev pub finally_close :
    Bool → Result (Unit {0}) × AsyncFtpBlob → Result (Unit {0}) × AsyncFtpBlob
finally_close true (r, b) = replaced r (close_conn b)
finally_close false (r, b) = (r, b)

-- `close`: `_conn` is cleared first, and `_cmd` asks for a connection.
unfoldable pub close : AsyncFtp (Unit {0})
unfolding cmd close_conn
close b = finally_close b.conn (suppress (cmd (codes "QUIT") (record b { conn = false })))
