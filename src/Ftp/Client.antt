-- ===== src/Ftp/Client.antt =====
-- src/gufo/blob/sync/ftp.py: the object `FTPBlob`, its control connection and the commands. The network
-- is a set of scripts, one for each kind of call, and a log of what the client did, the newest entry
-- first; a script that has ended answers with a failure, as a socket with a timeout does.
pub mod Transfer
pub mod Url
pub mod Methods
pub mod Session
pub mod Download
pub mod Late
pub mod Keeps
pub mod Sockets
pub mod Balance
pub mod Bracket
pub mod Calls
pub mod With
pub mod Retries
use gufo_blob.Base.{
  ℕ, zero, suc, Bool, true, false, List, [], ◌∷◌, ◌++◌, Option, none, some, ◌==◌, if◌then◌else◌,
  Text, Bytes, codes,
}
use gufo_blob.Base.Int.{ℤ, pos, ltb_ℤ}
use gufo_blob.Base.Result.{
  Result, ok, err, Error, Exec, pure, raise, lift, ◌>>=◌, ◌>>◌, blob_error, key_error, index_error,
  unicode_error, os_exception, connect_failed, login_failed, cwd_failed, type_failed, send_error,
  unexpected_code,
}
use gufo_blob.Ftp.Common.{FtpFeatures, ready, user_ok, login_ok, action_ok, ftp_ok}
use gufo_blob.Ftp.Common.Methods.{strip}
use gufo_blob.Ftp.Common.Utf8.{encode}
use gufo_blob.Ftp.Wire.{Recv, Stream, read_response}

-- What the client does to the network.
pub data Action : Type 0 where
  connected slept closed : Action
  command : Text → Action
  opened : Text → ℤ → Action
  uploaded : Bytes → Action
  released : Action

-- What a call of `sendall` gives.
pub data Send : Type 0 where
  sent send_timeout send_os_error : Send

pub record Network : Type 0 where
  pub connects : List Bool
  pub sends : List Send
  pub script : List Recv
  pub data_connects : List Bool
  pub data_script : List Recv
  pub data_sends : List Send
  pub log : List Action

pub record FtpBlob : Type 0 where
  pub user : Text
  pub password : Text
  pub root : Text
  pub retries : ℕ
  pub sock : Bool
  pub pending_features : Option FtpFeatures
  pub cached_features : Option FtpFeatures
  pub response_buffer : Bytes
  pub net : Network

-- `__init__`; host, port and the timeouts are what the scripts answer for.
abbrev pub init : Text → Text → Text → ℕ → Option FtpFeatures → Network → FtpBlob
init user password root retries features net = record {
  user = user;
  password = password;
  root = strip b'/' root;
  retries = retries;
  sock = false;
  pending_features = features;
  cached_features = none;
  response_buffer = [];
  net = net;
}

abbrev pub Ftp : Type 0 → Type 0
Ftp A = Exec FtpBlob A

abbrev pub note : Action → FtpBlob → FtpBlob
note a b = record b { net = record b.net { log = a ∷ b.net.log } }

-- One answer of a script of successes and failures.
abbrev pub next : List Bool → Bool
next [] = false
next (x ∷ xs) = x

abbrev pub next_send : List Send → Send
next_send [] = send_timeout
next_send (x ∷ xs) = x

abbrev pub later {ℓ} : {A : Type ℓ} → List A → List A
later [] = []
later (x ∷ xs) = xs

-- A reader of the control stream, run on the object's buffer and script.
unfoldable pub on_stream : {A : Type 0} → Exec Stream A → Ftp A
on_stream m b =
    let (r, s) = m (record { buffer = b.response_buffer; script = b.net.script }) in
    (r, record b { response_buffer = s.buffer; net = record b.net { script = s.script } })

-- `self._sock = self._connect()`: the loop over the attempts that are left.
unfoldable pub connect_loop : ℕ → Ftp (Unit {0})
connect_loop zero b = (err (blob_error connect_failed), b)
connect_loop (suc n) b =
    let b' = record b { net = record b.net { connects = later b.net.connects } } in
    let again = connect_loop n (note slept b') in
    if next b.net.connects then (ok tt, note connected (record b' { sock = true })) else again

unfoldable pub connect : Ftp (Unit {0})
unfolding connect_loop
connect b = connect_loop b.retries b

-- `self.connection.sendall(cmd.encode() + CRLF)` on an open connection
unfoldable pub send_command : Text → Ftp (Unit {0})
send_command cmd b = elim (encode cmd) [
  | none ↦ (err unicode_error, b)
  | some bytes ↦
      let b' = record b { net = record b.net { sends = later b.net.sends } } in
      elim (next_send b.net.sends) [
        | sent ↦ (ok tt, note (command cmd) b')
        | send_timeout ↦ (err (blob_error send_error), b')
        | send_os_error ↦ (err (blob_error send_error), b')
      ]
]

-- `_cmd` on an open connection
unfoldable pub raw_cmd : Text → Ftp (ℤ × List Bytes)
unfolding send_command on_stream read_response
raw_cmd cmd = do send_command cmd; on_stream read_response

unfoldable pub is_code : ℤ → ℕ → Bool
is_code (pos n) code = n == code
is_code _ code = false

-- `_expect`
unfoldable pub expect : ℕ → Ftp (Unit {0})
unfolding on_stream read_response is_code
expect code = do
  (got, _) ← on_stream read_response
  if is_code got code then pure tt else raise (blob_error unexpected_code)

-- `raise BlobError` unless the code is the wanted one.
abbrev pub demand : ℤ → ℕ → Error → Ftp (Unit {0})
demand got code e = if is_code got code then pure tt else raise e

-- The password is sent if the server asks for it.
unfoldable pub send_password : ℤ → Ftp ℤ
unfolding raw_cmd is_code
send_password code b =
    if is_code code user_ok
    then (raw_cmd (codes "PASS " ++ b.password) >>= λ (answer, _). pure answer) b
    else (ok code, b)

unfoldable pub enter_path : Text → Ftp (Unit {0})
unfolding raw_cmd is_code
enter_path [] = pure tt
enter_path (c ∷ path) = do
  (code, _) ← raw_cmd (codes "CWD /" ++ c ∷ path)
  demand code action_ok (blob_error cwd_failed)

-- `if self._root:`
unfoldable pub enter_root : Ftp (Unit {0})
unfolding enter_path
enter_root b = enter_path b.root b

unfoldable pub login : Ftp (Unit {0})
unfolding expect raw_cmd send_password enter_root
login b =
    (do
      expect ready
      (first, _) ← raw_cmd (codes "USER " ++ b.user)
      code ← send_password first
      demand code login_ok (blob_error login_failed)
      enter_root
      (mode, _) ← raw_cmd (codes "TYPE I")
      demand mode ftp_ok (blob_error type_failed))
      b

-- `except BlobError: … raise`: the socket is closed and dropped; another exception leaves it.
abbrev pub drop_on_blob_error : Result (Unit {0}) × FtpBlob → Result (Unit {0}) × FtpBlob
drop_on_blob_error (err (blob_error x), b) =
    (err (blob_error x), note closed (record b { sock = false }))
drop_on_blob_error (r, b) = (r, b)

abbrev pub then_login : Result (Unit {0}) × FtpBlob → Result (Unit {0}) × FtpBlob
then_login (ok _, b) = drop_on_blob_error (login b)
then_login (err e, b) = (err e, b)

-- The property `connection`
unfoldable pub connection : Ftp (Unit {0})
unfolding connect login
connection b = if b.sock then (ok tt, b) else then_login (connect b)

-- `open`
unfoldable pub open_blob : Ftp (Unit {0})
unfolding connection
open_blob = connection

-- `except OSError` of `_cmd`, as it meets the exceptions of `connection`
abbrev pub as_send_error : Result (Unit {0}) × FtpBlob → Result (Unit {0}) × FtpBlob
as_send_error (err (os_exception kind), b) = (err (blob_error send_error), b)
as_send_error (r, b) = (r, b)

abbrev pub safe_connection : Ftp (Unit {0})
safe_connection b = as_send_error (connection b)

-- `_cmd`
unfoldable pub cmd : Text → Ftp (ℤ × List Bytes)
unfolding connection raw_cmd
cmd text = do safe_connection; raw_cmd text

-- `with suppress(BlobError): m`
abbrev pub suppress {ℓ} : {A : Type ℓ} → Result A × FtpBlob → Result (Unit {0}) × FtpBlob
suppress (ok a, b) = (ok tt, b)
suppress (err (blob_error x), b) = (ok tt, b)
suppress (err e, b) = (err e, b)

-- `close`: the socket is dropped on every path, and closed unless QUIT raised something else.
abbrev pub finish : Result (Unit {0}) × FtpBlob → Result (Unit {0}) × FtpBlob
finish (ok _, b) = (ok tt, note closed (record b { sock = false }))
finish (err e, b) = (err e, record b { sock = false })

unfoldable pub close : Ftp (Unit {0})
unfolding raw_cmd
close b = if b.sock then finish (suppress (raw_cmd (codes "QUIT") b)) else (ok tt, b)
