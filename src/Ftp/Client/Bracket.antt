-- ===== src/Ftp/Client/Bracket.antt =====
-- Every data connection is released on every path of every method.
use gufo_blob.Base.{
  ◌+◌, ◌≡◌, refl, arith, Bool, true, false, ◌||◌, List, [], ◌∷◌, ◌++◌, if◌then◌else◌, Text, Bytes,
  codes, Bool-cases, inl, inr,
}
use gufo_blob.Base.Int.{ℤ}
use gufo_blob.Base.Result.{
  os_exception, Result, ok, err, Error, continue, blob_error, key_error, timed_out, os_error,
  index_error, unicode_error, value_error,
}
use gufo_blob.Ftp.Common.{pasv, transfer_done, not_found, created, iter_parent_dirs}
use gufo_blob.Ftp.Common.Methods.{last_or}
use gufo_blob.Ftp.Common.Pasv.{parse_pasv}
use gufo_blob.Ftp.Client.{
  next_send, FtpBlob, Send, sent, send_timeout, send_os_error, uploaded, Ftp, note, next, later,
  expect, cmd, suppress, is_code,
}
use gufo_blob.Ftp.Client.Transfer.{
  data_connect, get_passive_socket, fail_transfer, raise_unless, recv_all, receive, after_recv,
  is_open, retrieve, finally_release, pasv_cmd, make_dirs, ensure_parent_dirs, upload, store, put,
  with_passive,
}
use gufo_blob.Ftp.Client.Keeps.{Keeps, Keeps-if}
use gufo_blob.Ftp.Client.Balance.{
  opens, releases, Balanced, Balanced-refl, Balanced-trans, bind-Balanced, expect-Balanced,
  cmd-Balanced,
}

-- A return has opened one data connection more than it released; a raise, none.
abbrev PlusOne : {A : Type 0} → FtpBlob → Result A × FtpBlob → Type 0
PlusOne b (ok _, c) =
    opens c.net.log + releases b.net.log ≡ opens b.net.log + releases c.net.log + 1
PlusOne b (err _, c) = Balanced b c

Balanced-PlusOne :
    {A : Type 0} (b c : FtpBlob) (x : Result A × FtpBlob) → Balanced b c → PlusOne c x → PlusOne b x
Balanced-PlusOne b c (ok a, d) h k = omega (arith, h, k)
Balanced-PlusOne b c (err e, d) h k = omega (arith, h, k)

continue-PlusOne :
    {A B : Type 0} (b : FtpBlob) (x : Result A × FtpBlob) (f : A → Ftp B)
    → Balanced b x.1
    → ((a : A) (c : FtpBlob) → PlusOne c (f a c))
    → PlusOne b (continue x f)
continue-PlusOne b (ok a, c) f h k = Balanced-PlusOne b c (f a c) h (k a c)
continue-PlusOne b (err e, c) f h k = h

data_connect-PlusOne : (host : Text) (port : ℤ) (b : FtpBlob) → PlusOne b (data_connect host port b)
unfolding data_connect opens releases
data_connect-PlusOne host port b = elim (Bool-cases (next b.net.data_connects)) [
  | inl e ↦ rw (e, data_connect) (omega arith)
  | inr e ↦ rw (e, data_connect) refl
]

if-PlusOne :
    {A : Type 0} (b : FtpBlob) (t : Bool) (m n : Ftp A)
    → PlusOne b (m b)
    → PlusOne b (n b)
    → PlusOne b ((if t then m else n) b)
if-PlusOne b true m n h k = h
if-PlusOne b false m n h k = k

passive-PlusOne : (b : FtpBlob) → PlusOne b (get_passive_socket b)
unfolding get_passive_socket
passive-PlusOne b =
    continue-PlusOne b (cmd (codes "PASV") b) _ (cmd-Balanced (codes "PASV") b) λ (code, lines) c.
      if-PlusOne c (is_code code pasv) _ _
        (continue-PlusOne c (parse_pasv (last_or [] lines), c) _ refl
          (λ (host, port) d. data_connect-PlusOne host port d))
        refl

-- `try … finally` around the use of the data connection
release-Balanced :
    {A : Type 0} (b : FtpBlob) (x : Result (Unit {0}) × FtpBlob) (body : Ftp A)
    → PlusOne b x
    → Keeps Balanced body
    → Balanced b (continue x (λ _ c. finally_release (body c))).1
unfolding opens releases
release-Balanced b (ok u, c) body h k = omega (arith, h, k c)
release-Balanced b (err e, c) body h k = h

bracket-Balanced :
    {A : Type 0} (body : Ftp A) → Keeps Balanced body → Keeps Balanced (with_passive body)
unfolding with_passive
bracket-Balanced body k b = release-Balanced b (get_passive_socket b) body (passive-PlusOne b) k

pub suppress-Balanced :
    {A : Type 0} (b : FtpBlob) (x : Result A × FtpBlob) → Balanced b x.1 → Balanced b (suppress x).1
suppress-Balanced b (ok a, c) h = h
suppress-Balanced b (err (blob_error x), c) h = h
suppress-Balanced b (err (key_error x), c) h = h
suppress-Balanced b (err index_error, c) h = h
suppress-Balanced b (err unicode_error, c) h = h
suppress-Balanced b (err value_error, c) h = h
suppress-Balanced b (err (os_exception kind), c) h = h

raise_unless-Balanced :
    (A : Type 0) (e : Error) (b : FtpBlob) (x : Result (Unit {0}) × FtpBlob)
    → Balanced b x.1
    → Balanced b (raise_unless {A = A} e x).1
raise_unless-Balanced A e b (ok u, c) h = h
raise_unless-Balanced A e b (err y, c) h = h

fail_transfer-Balanced :
    (A : Type 0) (e : Error) (b : FtpBlob) → Balanced b (fail_transfer {A = A} e b).1
unfolding fail_transfer
fail_transfer-Balanced A e b =
    raise_unless-Balanced A e b (suppress (expect transfer_done b))
      (suppress-Balanced b (expect transfer_done b) (expect-Balanced transfer_done b))

after_recv-Balanced : (r : Result Bytes) → Keeps Balanced (after_recv r)
after_recv-Balanced (ok bytes) b = refl
after_recv-Balanced (err e) b = fail_transfer-Balanced Bytes e b

receive-Balanced : Keeps Balanced receive
unfolding receive
receive-Balanced b =
    after_recv-Balanced (recv_all b.net.data_script []).0
      (record b { net = record b.net { data_script = (recv_all b.net.data_script []).1 } })

-- A test between two methods that are balanced, or that raise.
pub test-Balanced :
    {A : Type 0} (t : Bool) (m n : Ftp A)
    → Keeps Balanced m
    → Keeps Balanced n
    → Keeps Balanced (if t then m else n)
test-Balanced = Keeps-if Balanced Balanced-refl Balanced-trans

retrieve-Balanced : (text : Text) → Keeps Balanced (retrieve text)
unfolding retrieve
retrieve-Balanced text = bind-Balanced (cmd text) _ (cmd-Balanced text) λ (code, _).
    test-Balanced (is_code code not_found) _ _ (λ b. refl)
      (test-Balanced (is_open code) _ _
        (bind-Balanced receive _ receive-Balanced (λ bytes.
          bind-Balanced (expect transfer_done) _ (expect-Balanced transfer_done) (λ _ b. refl)))
        (λ b. refl))

pub pasv_cmd-Balanced : (text : Text) → Keeps Balanced (pasv_cmd text)
unfolding pasv_cmd
pasv_cmd-Balanced text = bracket-Balanced (retrieve text) (retrieve-Balanced text)

make_dirs-Balanced : (ds : List Text) → Keeps Balanced (make_dirs ds)
unfolding make_dirs
make_dirs-Balanced [] = λ b. refl
make_dirs-Balanced (d ∷ ds) =
    bind-Balanced (cmd (codes "MKD " ++ d)) _ (cmd-Balanced _) λ (code, _).
      test-Balanced (is_code code created || is_code code not_found) (make_dirs ds) _
        (make_dirs-Balanced ds) (λ b. refl)

-- the answer of `sendall`, over the object that has taken it
upload_at :
    (bytes : Bytes) (x : Send) (c : FtpBlob)
    → Balanced c
        (elim x as (λ _. Result (Unit {0}) × FtpBlob) [
          | sent ↦ (ok tt, note (uploaded bytes) c)
          | send_timeout ↦ fail_transfer (blob_error timed_out) c
          | send_os_error ↦ fail_transfer (blob_error os_error) c
        ]).1
unfolding opens releases
upload_at bytes sent c = refl
upload_at bytes send_timeout c = fail_transfer-Balanced (Unit {0}) (blob_error timed_out) c
upload_at bytes send_os_error c = fail_transfer-Balanced (Unit {0}) (blob_error os_error) c

upload-Balanced : (bytes : Bytes) → Keeps Balanced (upload bytes)
unfolding upload
upload-Balanced bytes b =
    upload_at bytes (next_send b.net.data_sends)
      (record b { net = record b.net { data_sends = later b.net.data_sends } })

store-Balanced : (key : Text) (bytes : Bytes) → Keeps Balanced (store key bytes)
unfolding store
store-Balanced key bytes =
    bind-Balanced (cmd (codes "STOR " ++ key)) _ (cmd-Balanced _)
      λ (code, _). test-Balanced (is_open code) (upload bytes) _ (upload-Balanced bytes) (λ b. refl)

pub put-Balanced : (key : Text) (bytes : Bytes) → Keeps Balanced (put key bytes)
unfolding put ensure_parent_dirs
put-Balanced key bytes =
    bind-Balanced (ensure_parent_dirs key) _ (make_dirs-Balanced (iter_parent_dirs key)) λ _.
      bind-Balanced (with_passive (store key bytes)) _
        (bracket-Balanced (store key bytes) (store-Balanced key bytes))
        (λ _. expect-Balanced transfer_done)
