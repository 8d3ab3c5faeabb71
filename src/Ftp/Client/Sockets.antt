-- ===== src/Ftp/Client/Sockets.antt =====
-- The control connection is either logged in or dropped.
use gufo_blob.Base.{
  ℕ, zero, suc, ◌≡◌, refl, ◌∙◌, arith, Bool, true, false, if◌then◌else◌, Text, codes, inl, inr,
  Bool-cases,
}
use gufo_blob.Base.Result.{
  os_exception, Result, ok, err, Exec, blob_error, key_error, index_error, unicode_error,
  value_error,
}
use gufo_blob.Ftp.Wire.{Stream, read_response}
use gufo_blob.Ftp.Client.{
  FtpBlob, next, on_stream, send_command, raw_cmd, login, connect_loop, connect, connection,
  suppress, finish, close, drop_on_blob_error, then_login,
}
use gufo_blob.Ftp.Client.Keeps.{Keeps, login-Keeps}

-- SameSock b c: the control socket is set in c exactly if it is in b.
abbrev SameSock : FtpBlob → FtpBlob → Type 0
SameSock b c = c.sock ≡ b.sock

SameSock-refl : (b : FtpBlob) → SameSock b b
SameSock-refl b = refl

SameSock-trans : (a b c : FtpBlob) → SameSock a b → SameSock b c → SameSock a c
SameSock-trans a b c e f = f ∙ e

send_command-SameSock : (text : Text) → Keeps SameSock (send_command text)
unfolding send_command
send_command-SameSock text b = ground arith

read-SameSock : {A : Type 0} (m : Exec Stream A) → Keeps SameSock (on_stream m)
unfolding on_stream
read-SameSock m b = refl

login-SameSock : Keeps SameSock login
login-SameSock =
    login-Keeps SameSock SameSock-refl SameSock-trans send_command-SameSock
      (read-SameSock read_response)

-- What is known of the control socket after an attempt to have a connection.
abbrev pub SockAfter : Result (Unit {0}) → Bool → Type 0
SockAfter (ok _) sock = sock ≡ true
SockAfter (err (blob_error x)) sock = sock ≡ false
SockAfter (err _) sock = Unit

connect_loop-sock :
    (n : ℕ) (b : FtpBlob)
    → b.sock ≡ false
    → SockAfter (connect_loop n b).0 (connect_loop n b).1.sock
unfolding connect_loop
connect_loop-sock zero b h = h
connect_loop-sock (suc n) b h = elim (Bool-cases (next b.net.connects)) [
  | inl e ↦ rw (e, connect_loop) refl
  | inr e ↦ rw (e, connect_loop) (connect_loop-sock n _ h)
]

drop-sock :
    (x : Result (Unit {0}) × FtpBlob)
    → x.1.sock ≡ true
    → SockAfter (drop_on_blob_error x).0 (drop_on_blob_error x).1.sock
drop-sock (ok u, c) h = h
drop-sock (err (blob_error y), c) h = refl
drop-sock (err (key_error k), c) h = tt
drop-sock (err index_error, c) h = tt
drop-sock (err unicode_error, c) h = tt
drop-sock (err value_error, c) h = tt
drop-sock (err (os_exception kind), c) h = tt

then_login-sock :
    (x : Result (Unit {0}) × FtpBlob)
    → SockAfter x.0 x.1.sock
    → SockAfter (then_login x).0 (then_login x).1.sock
then_login-sock (ok u, c) h = drop-sock (login c) (login-SameSock c ∙ h)
then_login-sock (err (blob_error y), c) h = h
then_login-sock (err (key_error k), c) h = tt
then_login-sock (err index_error, c) h = tt
then_login-sock (err unicode_error, c) h = tt
then_login-sock (err value_error, c) h = tt
then_login-sock (err (os_exception kind), c) h = tt

connection-sock_at :
    (t : Bool) (b : FtpBlob)
    → b.sock ≡ t
    → let x = if t then (ok tt, b) else then_login (connect b) in SockAfter x.0 x.1.sock
unfolding connect
connection-sock_at true b e = e
connection-sock_at false b e =
    then_login-sock (connect_loop b.retries b) (connect_loop-sock b.retries b e)

-- When a connection is asked for, a return leaves one that is set, and every BlobError of connecting
-- or of the login leaves none, so that the next call connects again.
pub connection-sock : (b : FtpBlob) → SockAfter (connection b).0 (connection b).1.sock
unfolding connection
connection-sock b = connection-sock_at b.sock b refl

finish-sock : (x : Result (Unit {0}) × FtpBlob) → (finish x).1.sock ≡ false
finish-sock (ok u, c) = refl
finish-sock (err e, c) = refl

close-sock_at :
    (t : Bool) (b : FtpBlob)
    → b.sock ≡ t
    → (if t then finish (suppress (raw_cmd (codes "QUIT") b)) else (ok tt, b)).1.sock ≡ false
close-sock_at true b e = finish-sock (suppress (raw_cmd (codes "QUIT") b))
close-sock_at false b e = e

-- After `close` the object holds no control connection, whatever QUIT met.
pub close-sock : (b : FtpBlob) → (close b).1.sock ≡ false
unfolding close
close-sock b = close-sock_at b.sock b refl
