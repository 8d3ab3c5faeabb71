-- ===== src/Ftp/Client/Balance.antt =====
-- What a method opens on the data side it also releases: the parts below the transfers.
use gufo_blob.Base.{
  ℕ, zero, suc, ◌+◌, ◌≡◌, refl, arith, Bool, true, false, List, [], ◌∷◌, if◌then◌else◌, Text, inl,
  inr, Bool-cases,
}
use gufo_blob.Base.Result.{
  os_exception, Result, ok, err, Exec, ◌>>=◌, blob_error, key_error, index_error, unicode_error,
  value_error,
}
use gufo_blob.Ftp.Wire.{Stream, read_response}
use gufo_blob.Ftp.Client.{
  as_send_error, safe_connection, FtpBlob, Action, slept, opened, released, Ftp, note, next, later,
  on_stream, send_command, raw_cmd, expect, login, connect_loop, connect, connection, cmd,
  drop_on_blob_error, then_login,
}
use gufo_blob.Ftp.Client.Keeps.{Keeps, Keeps-bind, login-Keeps, raw_cmd-Keeps, expect-Keeps}

-- Data connections: how often the log opens one, and how often it releases one.
unfoldable pub opens : List Action → ℕ
opens [] = 0
opens (opened host port ∷ log) = opens log + 1
opens (_ ∷ log) = opens log

unfoldable pub releases : List Action → ℕ
releases [] = 0
releases (released ∷ log) = releases log + 1
releases (_ ∷ log) = releases log

-- Between b and c as many data connections are opened as released.
abbrev pub Balanced : FtpBlob → FtpBlob → Type 0
Balanced b c = opens c.net.log + releases b.net.log ≡ opens b.net.log + releases c.net.log

pub Balanced-refl : (b : FtpBlob) → Balanced b b
Balanced-refl b = refl

pub Balanced-trans : (a b c : FtpBlob) → Balanced a b → Balanced b c → Balanced a c
Balanced-trans a b c e f = omega (arith, e, f)

send_command-Balanced : (text : Text) → Keeps Balanced (send_command text)
unfolding send_command opens releases
send_command-Balanced text b = ground arith

read-Balanced : {A : Type 0} (m : Exec Stream A) → Keeps Balanced (on_stream m)
unfolding on_stream
read-Balanced m b = refl

login-Balanced : Keeps Balanced login
login-Balanced =
    login-Keeps Balanced Balanced-refl Balanced-trans send_command-Balanced
      (read-Balanced read_response)

connect_loop-Balanced : (n : ℕ) → Keeps Balanced (connect_loop n)
unfolding connect_loop opens releases
connect_loop-Balanced zero b = refl
connect_loop-Balanced (suc n) b =
    let b' = record b { net = record b.net { connects = later b.net.connects } } in
    elim (Bool-cases (next b.net.connects)) [
      | inl e ↦ rw (e, connect_loop) refl
      | inr e ↦ rw (e, connect_loop) (connect_loop-Balanced n (note slept b'))
    ]

drop-Balanced :
    (b : FtpBlob) (x : Result (Unit {0}) × FtpBlob)
    → Balanced b x.1
    → Balanced b (drop_on_blob_error x).1
unfolding opens releases
drop-Balanced b (ok u, c) h = h
drop-Balanced b (err (blob_error y), c) h = h
drop-Balanced b (err (key_error k), c) h = h
drop-Balanced b (err index_error, c) h = h
drop-Balanced b (err unicode_error, c) h = h
drop-Balanced b (err value_error, c) h = h
drop-Balanced b (err (os_exception kind), c) h = h

then_login-Balanced :
    (b : FtpBlob) (x : Result (Unit {0}) × FtpBlob) → Balanced b x.1 → Balanced b (then_login x).1
then_login-Balanced b (ok u, c) h =
    drop-Balanced b (login c) (Balanced-trans b c (login c).1 h (login-Balanced c))
then_login-Balanced b (err e, c) h = h

pub if-Balanced :
    {A : Type 0} (b : FtpBlob) (t : Bool) (x y : Result A × FtpBlob)
    → Balanced b x.1
    → Balanced b y.1
    → Balanced b (if t then x else y).1
if-Balanced b true x y h k = h
if-Balanced b false x y h k = k

pub connection-Balanced : Keeps Balanced connection
unfolding connection connect
connection-Balanced b =
    if-Balanced b b.sock (ok tt, b) (then_login (connect b)) refl
      (then_login-Balanced b (connect b) (connect_loop-Balanced b.retries b))

-- The rules, at this relation.
pub bind-Balanced :
    {A B : Type 0} (m : Ftp A) (f : A → Ftp B)
    → Keeps Balanced m
    → ((a : A) → Keeps Balanced (f a))
    → Keeps Balanced (m >>= f)
bind-Balanced = Keeps-bind Balanced Balanced-refl Balanced-trans

pub raw_cmd-Balanced : (text : Text) → Keeps Balanced (raw_cmd text)
raw_cmd-Balanced =
    raw_cmd-Keeps Balanced Balanced-refl Balanced-trans send_command-Balanced
      (read-Balanced read_response)

pub expect-Balanced : (code : ℕ) → Keeps Balanced (expect code)
expect-Balanced =
    expect-Keeps Balanced Balanced-refl Balanced-trans send_command-Balanced
      (read-Balanced read_response)

as_send_error-Balanced :
    (b : FtpBlob) (x : Result (Unit {0}) × FtpBlob)
    → Balanced b x.1
    → Balanced b (as_send_error x).1
as_send_error-Balanced b (ok u, c) h = h
as_send_error-Balanced b (err (blob_error y), c) h = h
as_send_error-Balanced b (err (key_error k), c) h = h
as_send_error-Balanced b (err index_error, c) h = h
as_send_error-Balanced b (err unicode_error, c) h = h
as_send_error-Balanced b (err value_error, c) h = h
as_send_error-Balanced b (err (os_exception kind), c) h = h

pub cmd-Balanced : (text : Text) → Keeps Balanced (cmd text)
unfolding cmd
cmd-Balanced text =
    bind-Balanced safe_connection (λ _. raw_cmd text)
      (λ b. as_send_error-Balanced b (connection b) (connection-Balanced b))
      (λ _. raw_cmd-Balanced text)
