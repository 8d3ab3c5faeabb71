-- ===== src/Aio/Ftp/Close.antt =====
-- What `close` leaves behind. The synchronous `close` uses the connection that it has; this one clears
-- `_conn` first, so that `_cmd("QUIT")` makes a new connection.
use gufo_blob.Base.{
  ℕ, Bool, true, false, List, [], ◌∷◌, ◌++◌, if◌then◌else◌, Text, Bytes, codes, ◌≡◌, refl, ◌∙◌,
  arith, Bool-cases, inl, inr,
}
use gufo_blob.Base.Int.{ℤ}
use gufo_blob.Base.Result.{
  Result, ok, err, Error, pure, continue, ◌>>=◌, ◌>>◌, blob_error, key_error, index_error,
  unicode_error, value_error, os_exception, login_failed, cwd_failed, type_failed, unexpected_code,
}
use gufo_blob.Ftp.Common.{ready, user_ok, login_ok, action_ok, ftp_ok}
use gufo_blob.Ftp.Client.{is_code}
use gufo_blob.Aio.Ftp.Wire.{read_response}
use gufo_blob.Aio.Ftp.Same.Session.{async_mode, async_admit, async_identify}
use gufo_blob.Aio.Ftp.{
  AsyncFtpBlob, AsyncFtp, on_stream, close_conn, next_close, tcp_connect, send_command, raw_cmd,
  expect, demand, send_password, enter_path, enter_root, login, dropped, drop_on_blob_error,
  then_login, connection, as_send_error, cmd, suppress, replaced, finally_close, close,
}

-- `m` leaves the connection as it is.
abbrev KeepsConn : {A : Type 0} → AsyncFtp A → Type 0
KeepsConn m = (b : AsyncFtpBlob) → (m b).1.conn ≡ b.conn

continue-conn :
    {A B : Type 0} (t : Bool) (x : Result A × AsyncFtpBlob) (f : A → AsyncFtp B)
    → x.1.conn ≡ t
    → ((a : A) → KeepsConn (f a))
    → (continue x f).1.conn ≡ t
continue-conn t (ok a, b) f h k = k a b ∙ h
continue-conn t (err e, b) f h k = h

bind-conn :
    {A B : Type 0} (m : AsyncFtp A) (f : A → AsyncFtp B)
    → KeepsConn m
    → ((a : A) → KeepsConn (f a))
    → KeepsConn (m >>= f)
bind-conn m f h k b = continue-conn b.conn (m b) f (h b) k

send_command-conn : (text : Text) → KeepsConn (send_command text)
unfolding send_command
send_command-conn text b = ground arith

read-conn : KeepsConn (on_stream read_response)
unfolding on_stream
read-conn b = refl

raw_cmd-conn : (text : Text) → KeepsConn (raw_cmd text)
unfolding raw_cmd
raw_cmd-conn text =
    bind-conn (send_command text) (λ _. on_stream read_response) (send_command-conn text)
      (λ _. read-conn)

demand-conn : (got : ℤ) (code : ℕ) (e : Error) → KeepsConn (demand got code e)
demand-conn got code e b = elim (Bool-cases (is_code got code)) [
  | inl t ↦ rw t refl
  | inr t ↦ rw t refl
]

expect-conn : (code : ℕ) → KeepsConn (expect code)
unfolding expect
expect-conn code =
    bind-conn (on_stream read_response) _ read-conn
      (λ (got, _). demand-conn got code (blob_error unexpected_code))

send_password-conn : (code : ℤ) → KeepsConn (send_password code)
unfolding send_password
send_password-conn code b = elim (Bool-cases (is_code code user_ok)) [
  | inl t ↦
      let text = codes "PASS " ++ b.password in
      rw (t, send_password)
        (bind-conn (raw_cmd text) (λ (answer, _). pure answer) (raw_cmd-conn text) (λ _ _. refl) b)
  | inr t ↦ rw (t, send_password) refl
]

enter_path-conn : (path : Text) → KeepsConn (enter_path path)
unfolding enter_path
enter_path-conn [] = λ b. refl
enter_path-conn (c ∷ path) =
    bind-conn (raw_cmd (codes "CWD /" ++ c ∷ path)) _ (raw_cmd-conn (codes "CWD /" ++ c ∷ path))
      (λ (code, _). demand-conn code action_ok (blob_error cwd_failed))

enter_root-conn : KeepsConn enter_root
unfolding enter_root
enter_root-conn b = enter_path-conn b.root b

mode-conn : KeepsConn async_mode
mode-conn =
    bind-conn (raw_cmd (codes "TYPE I")) (λ (mode, _). demand mode ftp_ok (blob_error type_failed))
      (raw_cmd-conn (codes "TYPE I"))
      (λ (mode, _). demand-conn mode ftp_ok (blob_error type_failed))

admit-conn : (code : ℤ) → KeepsConn (async_admit code)
admit-conn code =
    bind-conn (demand code login_ok (blob_error login_failed)) (λ _. enter_root >> async_mode)
      (demand-conn code login_ok (blob_error login_failed))
      (λ _. bind-conn enter_root (λ _. async_mode) enter_root-conn (λ _. mode-conn))

identify-conn : (user : Text) → KeepsConn (async_identify user)
identify-conn user =
    bind-conn (raw_cmd user) (λ (first, _). send_password first >>= async_admit) (raw_cmd-conn user)
      (λ (first, _).
        bind-conn (send_password first) async_admit (send_password-conn first) admit-conn)

login-conn : KeepsConn login
unfolding login
login-conn b =
    let user = codes "USER " ++ b.user in
    bind-conn (expect ready) (λ _. async_identify user) (expect-conn ready)
      (λ _. identify-conn user) b

close_conn-conn : KeepsConn close_conn
unfolding close_conn
close_conn-conn b = elim (Bool-cases (next_close b.closes)) [
  | inl t ↦ rw (t, close_conn) refl
  | inr t ↦ rw (t, close_conn) refl
]

-- What is known of the connection after an attempt to have one.
abbrev ConnAfter : Result (Unit {0}) × AsyncFtpBlob → Type 0
ConnAfter (ok _, b) = b.conn ≡ true
ConnAfter (err e, b) = Unit

drop-conn :
    (x : Result (Unit {0}) × AsyncFtpBlob) → x.1.conn ≡ true → ConnAfter (drop_on_blob_error x)
drop-conn (ok a, b) h = h
drop-conn (err (blob_error x), b) h = dropped-conn (close_conn b)
  where
    dropped-conn : (y : Result (Unit {0}) × AsyncFtpBlob) → ConnAfter (dropped (blob_error x) y)
    dropped-conn (ok a, c) = tt
    dropped-conn (err e, c) = tt
drop-conn (err (key_error k), b) h = tt
drop-conn (err index_error, b) h = tt
drop-conn (err unicode_error, b) h = tt
drop-conn (err value_error, b) h = tt
drop-conn (err (os_exception k), b) h = tt

then_login-conn : (x : Result (Unit {0}) × AsyncFtpBlob) → ConnAfter (then_login x)
then_login-conn (ok a, b) = let c = record b { conn = true } in drop-conn (login c) (login-conn c)
then_login-conn (err e, b) = tt

if-conn :
    (t : Bool) (b : AsyncFtpBlob) (x : Result (Unit {0}) × AsyncFtpBlob)
    → b.conn ≡ t
    → ConnAfter x
    → ConnAfter (if t then (ok tt, b) else x)
if-conn true b x h k = h
if-conn false b x h k = k

connection-conn : (b : AsyncFtpBlob) → ConnAfter (connection b)
unfolding connection
connection-conn b =
    if-conn b.conn b (then_login (tcp_connect b)) refl (then_login-conn (tcp_connect b))

-- QUIT on the connection that has just been made leaves it.
quit-conn :
    (text : Text) (x : Result (Unit {0}) × AsyncFtpBlob)
    → ConnAfter x
    → x.0 ≡ ok tt
    → (suppress (continue (as_send_error x) (λ _. raw_cmd text))).1.conn ≡ true
quit-conn text (ok a, b) h e = suppress-conn (raw_cmd text b) (raw_cmd-conn text b ∙ h)
  where
    suppress-conn :
        (y : Result (ℤ × List Bytes) × AsyncFtpBlob) → y.1.conn ≡ true → (suppress y).1.conn ≡ true
    suppress-conn (ok a, c) k = k
    suppress-conn (err (blob_error x), c) k = k
    suppress-conn (err (key_error x), c) k = k
    suppress-conn (err index_error, c) k = k
    suppress-conn (err unicode_error, c) k = k
    suppress-conn (err value_error, c) k = k
    suppress-conn (err (os_exception x), c) k = k
quit-conn text (err d, b) h e = absurd (cc)

finally-conn :
    (had : Bool) (x : Result (Unit {0}) × AsyncFtpBlob)
    → x.1.conn ≡ true
    → (finally_close had x).1.conn ≡ true
finally-conn false (r, b) h = h
finally-conn true (r, b) h = replaced-conn (close_conn b) (close_conn-conn b ∙ h)
  where
    replaced-conn :
        (y : Result (Unit {0}) × AsyncFtpBlob) → y.1.conn ≡ true → (replaced r y).1.conn ≡ true
    replaced-conn (ok a, c) k = k
    replaced-conn (err e, c) k = k

-- Whenever the server lets the client connect and log in once more, the asynchronous `close` does so,
-- and the object holds that new connection afterwards, whether or not it held one before.
pub close-conn :
    (b : AsyncFtpBlob)
    → (connection (record b { conn = false })).0 ≡ ok tt
    → (close b).1.conn ≡ true
unfolding close cmd
close-conn b e =
    let c = record b { conn = false } in
    finally-conn b.conn (suppress (cmd (codes "QUIT") c))
      (quit-conn (codes "QUIT") (connection c) (connection-conn c) e)
