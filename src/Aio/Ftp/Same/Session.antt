-- ===== src/Aio/Ftp/Same/Session.antt =====
-- The control connection is made and used alike.
use gufo_blob.Base.{
  ℕ, zero, suc, true, [], ◌∷◌, ◌++◌, some, Text, Bytes, codes, ◌≡◌, refl, Bool-cases, Option-cases,
  inl, inr,
}
use gufo_blob.Base.Int.{ℤ}
use gufo_blob.Base.Result.{
  Result, ok, err, Error, pure, raise, ◌>>=◌, ◌>>◌, blob_error, key_error, index_error,
  unicode_error, value_error, os_exception, unexpected_code, login_failed, cwd_failed, type_failed,
  connect_failed, send_error, timed_out,
}
use gufo_blob.Blob.Simulation.{Matches, blob_errors, same_error}
use gufo_blob.Ftp.Common.{ready, user_ok, login_ok, action_ok, ftp_ok}
use gufo_blob.Ftp.Common.Utf8.{encode}
use gufo_blob.Ftp.Wire
use gufo_blob.Ftp.Client.{
  Ftp, connected, FtpBlob, Send, sent, send_timeout, send_os_error, next, next_send, later, slept,
  is_code,
}
use gufo_blob.Ftp.Client
use gufo_blob.Aio.Ftp.{AsyncFtpBlob, AsyncFtp}
use gufo_blob.Aio.Ftp
use gufo_blob.Aio.Ftp.Wire.{read_response, read_response-eq}
use gufo_blob.Aio.Ftp.Same.{
  to_async, SameState, SameMethod, bind-Same, then-Same, pure-Same, raise-Same, if-Same, if-Matches,
  on_stream-Same,
}

read-Same : SameMethod (Client.on_stream Wire.read_response) (Ftp.on_stream read_response)
read-Same = rw (read_response-eq) (on_stream-Same Wire.read_response)

send_at :
    (s : Send) (cmd : Text) (bytes : Bytes) (b : FtpBlob)
    → encode cmd ≡ some bytes
    → next_send b.net.sends ≡ s
    → Matches SameState (Client.send_command cmd b) (Ftp.send_command cmd (to_async b))
unfolding Client.send_command Ftp.send_command
send_at sent cmd bytes b e f = rw (e, f, Client.send_command, Ftp.send_command) (refl, refl)
send_at send_timeout cmd bytes b e f =
    rw (e, f, Client.send_command, Ftp.send_command) (blob_errors send_error timed_out, refl)
send_at send_os_error cmd bytes b e f =
    rw (e, f, Client.send_command, Ftp.send_command) (same_error (blob_error send_error), refl)

send_command-Same : (cmd : Text) → SameMethod (Client.send_command cmd) (Ftp.send_command cmd)
unfolding Client.send_command Ftp.send_command
send_command-Same cmd b = elim (Option-cases (encode cmd)) [
  | inl e ↦ rw (e, Client.send_command, Ftp.send_command) (same_error unicode_error, refl)
  | inr (bytes, e) ↦ send_at (next_send b.net.sends) cmd bytes b e refl
]

pub raw_cmd-Same : (cmd : Text) → SameMethod (Client.raw_cmd cmd) (Ftp.raw_cmd cmd)
unfolding Client.raw_cmd Ftp.raw_cmd
raw_cmd-Same cmd =
    bind-Same (Client.send_command cmd) (Ftp.send_command cmd)
      (λ _. Client.on_stream Wire.read_response) (λ _. Ftp.on_stream read_response)
      (send_command-Same cmd) (λ _. read-Same)

demand-Same :
    (got : ℤ) (code : ℕ) (e : Error) → SameMethod (Client.demand got code e) (Ftp.demand got code e)
demand-Same got code e =
    if-Same (is_code got code) (pure tt) (raise e) (pure tt) (raise e) (pure-Same tt)
      (raise-Same (Unit {0}) e)

pub expect-Same : (code : ℕ) → SameMethod (Client.expect code) (Ftp.expect code)
unfolding Client.expect Ftp.expect
expect-Same code =
    bind-Same (Client.on_stream Wire.read_response) (Ftp.on_stream read_response) _ _ read-Same
      (λ (got, _). demand-Same got code (blob_error unexpected_code))

send_password-Same : (code : ℤ) → SameMethod (Client.send_password code) (Ftp.send_password code)
unfolding Client.send_password Ftp.send_password
send_password-Same code b =
    let text = codes "PASS " ++ b.password in
    if-Matches (is_code code user_ok) _ (ok code, b) _ (ok code, to_async b)
      (bind-Same (Client.raw_cmd text) (Ftp.raw_cmd text) (λ (answer, _). pure answer)
        (λ (answer, _). pure answer) (raw_cmd-Same text) (λ (answer, _). pure-Same answer) b)
      (refl, refl)

enter_path-Same : (path : Text) → SameMethod (Client.enter_path path) (Ftp.enter_path path)
unfolding Client.enter_path Ftp.enter_path
enter_path-Same [] = pure-Same tt
enter_path-Same (c ∷ path) =
    bind-Same (Client.raw_cmd _) (Ftp.raw_cmd _) _ _ (raw_cmd-Same (codes "CWD /" ++ c ∷ path))
      (λ (code, _). demand-Same code action_ok (blob_error cwd_failed))

enter_root-Same : SameMethod Client.enter_root Ftp.enter_root
unfolding Client.enter_root Ftp.enter_root
enter_root-Same b = enter_path-Same b.root b

-- The end of `_login`, from the mode on and from the answer to the password on.
abbrev set_mode : Ftp (Unit {0})
set_mode = Client.raw_cmd (codes "TYPE I") >>= λ (mode, _).
    Client.demand mode ftp_ok (blob_error type_failed)

abbrev pub async_mode : AsyncFtp (Unit {0})
async_mode =
    Ftp.raw_cmd (codes "TYPE I") >>= λ (mode, _). Ftp.demand mode ftp_ok (blob_error type_failed)

mode-Same : SameMethod set_mode async_mode
mode-Same =
    bind-Same (Client.raw_cmd (codes "TYPE I")) (Ftp.raw_cmd (codes "TYPE I"))
      (λ (mode, _). Client.demand mode ftp_ok (blob_error type_failed))
      (λ (mode, _). Ftp.demand mode ftp_ok (blob_error type_failed)) (raw_cmd-Same (codes "TYPE I"))
      (λ (mode, _). demand-Same mode ftp_ok (blob_error type_failed))

abbrev admit : ℤ → Ftp (Unit {0})
admit code =
    Client.demand code login_ok (blob_error login_failed) >> (Client.enter_root >> set_mode)

abbrev pub async_admit : ℤ → AsyncFtp (Unit {0})
async_admit code =
    Ftp.demand code login_ok (blob_error login_failed) >> (Ftp.enter_root >> async_mode)

admit-Same : (code : ℤ) → SameMethod (admit code) (async_admit code)
admit-Same code =
    then-Same (Client.demand code login_ok (blob_error login_failed))
      (Ftp.demand code login_ok (blob_error login_failed)) (Client.enter_root >> set_mode)
      (Ftp.enter_root >> async_mode) (demand-Same code login_ok (blob_error login_failed))
      (then-Same Client.enter_root Ftp.enter_root set_mode async_mode enter_root-Same mode-Same)

abbrev identify : Text → Ftp (Unit {0})
identify user = Client.raw_cmd user >>= λ (first, _). Client.send_password first >>= admit

abbrev pub async_identify : Text → AsyncFtp (Unit {0})
async_identify user = Ftp.raw_cmd user >>= λ (first, _). Ftp.send_password first >>= async_admit

identify-Same : (user : Text) → SameMethod (identify user) (async_identify user)
identify-Same user =
    bind-Same (Client.raw_cmd user) (Ftp.raw_cmd user)
      (λ (first, _). Client.send_password first >>= admit)
      (λ (first, _). Ftp.send_password first >>= async_admit) (raw_cmd-Same user)
      (λ (first, _).
        bind-Same (Client.send_password first) (Ftp.send_password first) admit async_admit
          (send_password-Same first) admit-Same)

login-Same : SameMethod Client.login Ftp.login
unfolding Client.login Ftp.login
login-Same b =
    let user = codes "USER " ++ b.user in
    then-Same (Client.expect ready) (Ftp.expect ready) (identify user) (async_identify user)
      (expect-Same ready) (identify-Same user) b

-- `except BlobError`, as the closing succeeds
drop-Matches :
    (x : Result (Unit {0}) × FtpBlob) (y : Result (Unit {0}) × AsyncFtpBlob)
    → Matches SameState x y
    → Matches SameState (Client.drop_on_blob_error x) (Ftp.drop_on_blob_error y)
unfolding Ftp.close_conn
drop-Matches (ok a, b) (ok a', c) (e, h) = (e, h)
drop-Matches (ok a, b) (err d, c) (e, h) = absurd e
drop-Matches (err d, b) (ok a, c) (e, h) = absurd e
drop-Matches (err _, b) (err _, c) (blob_errors x y, h) = rw (← h) (blob_errors x y, refl)
drop-Matches (err _, b) (err _, c) (same_error (blob_error x), h) = rw (← h) (blob_errors x x, refl)
drop-Matches (err _, b) (err _, c) (same_error (key_error k), h) = (same_error (key_error k), h)
drop-Matches (err _, b) (err _, c) (same_error index_error, h) = (same_error index_error, h)
drop-Matches (err _, b) (err _, c) (same_error unicode_error, h) = (same_error unicode_error, h)
drop-Matches (err _, b) (err _, c) (same_error value_error, h) = (same_error value_error, h)
drop-Matches (err _, b) (err _, c) (same_error (os_exception k), h) =
    (same_error (os_exception k), h)

connect-Matches :
    (n : ℕ) (b : FtpBlob)
    → Matches SameState
        (Client.then_login (Client.connect_loop n b))
        (Ftp.then_login (Ftp.connect_loop n (to_async b)))
unfolding Client.connect_loop Ftp.connect_loop
connect-Matches zero b = (same_error (blob_error connect_failed), refl)
connect-Matches (suc n) b =
    let b' = record b { net = record b.net { connects = later b.net.connects } } in
    elim (Bool-cases (next b.net.connects)) [
      | inl e ↦
          let c = Client.note connected (record b' { sock = true }) in
          rw (e, Client.connect_loop, Ftp.connect_loop)
            (drop-Matches (Client.login c) (Ftp.login (to_async c)) (login-Same c))
      | inr e ↦
          rw (e, Client.connect_loop, Ftp.connect_loop) (connect-Matches n (Client.note slept b'))
    ]

pub connection-Same : SameMethod Client.connection Ftp.connection
unfolding Client.connection Ftp.connection Client.connect Ftp.tcp_connect
connection-Same b =
    if-Matches b.sock (ok tt, b) (Client.then_login (Client.connect b)) (ok tt, to_async b)
      (Ftp.then_login (Ftp.tcp_connect (to_async b))) (refl, refl) (connect-Matches b.retries b)

as_send_error-Matches :
    (x : Result (Unit {0}) × FtpBlob) (y : Result (Unit {0}) × AsyncFtpBlob)
    → Matches SameState x y
    → Matches SameState (Client.as_send_error x) (Ftp.as_send_error y)
as_send_error-Matches (ok a, b) (ok a', c) (e, h) = (e, h)
as_send_error-Matches (ok a, b) (err d, c) (e, h) = absurd e
as_send_error-Matches (err d, b) (ok a, c) (e, h) = absurd e
as_send_error-Matches (err _, b) (err _, c) (blob_errors x y, h) = (blob_errors x y, h)
as_send_error-Matches (err _, b) (err _, c) (same_error (blob_error x), h) = (blob_errors x x, h)
as_send_error-Matches (err _, b) (err _, c) (same_error (key_error k), h) =
    (same_error (key_error k), h)
as_send_error-Matches (err _, b) (err _, c) (same_error index_error, h) =
    (same_error index_error, h)
as_send_error-Matches (err _, b) (err _, c) (same_error unicode_error, h) =
    (same_error unicode_error, h)
as_send_error-Matches (err _, b) (err _, c) (same_error value_error, h) =
    (same_error value_error, h)
as_send_error-Matches (err _, b) (err _, c) (same_error (os_exception k), h) =
    (blob_errors send_error send_error, h)

-- `_cmd`, connecting where it has to
pub cmd-Same : (text : Text) → SameMethod (Client.cmd text) (Ftp.cmd text)
unfolding Client.cmd Ftp.cmd
cmd-Same text =
    then-Same Client.safe_connection Ftp.safe_connection (Client.raw_cmd text) (Ftp.raw_cmd text)
      (λ b.
        as_send_error-Matches (Client.connection b) (Ftp.connection (to_async b))
          (connection-Same b))
      (raw_cmd-Same text)
