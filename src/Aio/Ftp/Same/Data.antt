-- ===== src/Aio/Ftp/Same/Data.antt =====
-- Transfers are alike.
use gufo_blob.Base.{◌||◌, List, [], ◌∷◌, ◌++◌, if◌then◌else◌, Text, Bytes, codes, ◌≡◌, refl}
use gufo_blob.Base.Int.{ℤ}
use gufo_blob.Base.Result.{
  Result, ok, err, Error, pure, raise, lift, ◌>>=◌, ◌>>◌, blob_error, key_error, timed_out,
  os_error, pasv_failed, data_connection_failed, unexpected_response, mkdir_failed,
}
use gufo_blob.Blob.Simulation.{Matches, same_error}
use gufo_blob.Ftp.Common.{pasv, not_found, transfer_done, created, iter_parent_dirs}
use gufo_blob.Ftp.Common.Methods.{last_or}
use gufo_blob.Ftp.Common.Pasv.{parse_pasv}
use gufo_blob.Ftp.Wire.{Recv, chunk, recv_timeout, recv_os_error}
use gufo_blob.Ftp.Client.{
  FtpBlob, Ftp, Send, sent, send_timeout, send_os_error, next, next_send, later, is_code, released,
  uploaded,
}
use gufo_blob.Ftp.Client
use gufo_blob.Ftp.Client.Transfer
use gufo_blob.Aio.Ftp.{AsyncFtpBlob, AsyncFtp}
use gufo_blob.Aio.Ftp as Async
use gufo_blob.Aio.Ftp.Transfer as Other
use gufo_blob.Aio.Ftp.Same.{
  to_async, SameState, SameMethod, bind-Same, then-Same, pure-Same, raise-Same, lift-Same, if-Same,
  if-Matches, suppress-Matches,
}
use gufo_blob.Aio.Ftp.Same.Session.{cmd-Same, expect-Same}

data_connect-Same :
    (host : Text) (port : ℤ)
    → SameMethod (Transfer.data_connect host port) (Other.data_connect host port)
unfolding Transfer.data_connect Other.data_connect
data_connect-Same host port b =
    let b' = record b { net = record b.net { data_connects = later b.net.data_connects } } in
    if-Matches (next b.net.data_connects) (ok tt, Client.note (Client.opened host port) b')
      (err (blob_error data_connection_failed), b')
      (ok tt, Async.note (Client.opened host port) (to_async b'))
      (err (blob_error data_connection_failed), to_async b') (refl, refl)
      (same_error (blob_error data_connection_failed), refl)

passive-Same : SameMethod Transfer.get_passive_socket Other.get_passive_connection
unfolding Transfer.get_passive_socket Other.get_passive_connection
passive-Same =
    bind-Same (Client.cmd (codes "PASV")) (Async.cmd (codes "PASV")) _ _ (cmd-Same (codes "PASV"))
      (λ (code, lines).
        if-Same (is_code code pasv)
          (lift (parse_pasv (last_or [] lines)) >>= λ (host, port). Transfer.data_connect host port)
          (raise (blob_error pasv_failed))
          (lift (parse_pasv (last_or [] lines)) >>= λ (host, port). Other.data_connect host port)
          (raise (blob_error pasv_failed))
          (bind-Same (lift (parse_pasv (last_or [] lines))) (lift (parse_pasv (last_or [] lines)))
            (λ (host, port). Transfer.data_connect host port)
            (λ (host, port). Other.data_connect host port)
            (lift-Same (parse_pasv (last_or [] lines)))
            (λ (host, port). data_connect-Same host port))
          (raise-Same (Unit {0}) (blob_error pasv_failed)))

raise_unless-Matches :
    (A : Type 0) (e : Error) (x : Result (Unit {0}) × FtpBlob)
    (y : Result (Unit {0}) × AsyncFtpBlob)
    → Matches SameState x y
    → Matches {A = A} SameState (Transfer.raise_unless e x) (Other.raise_unless e y)
raise_unless-Matches A e (ok a, b) (ok a', c) (p, h) = (same_error e, h)
raise_unless-Matches A e (ok a, b) (err d, c) (p, h) = absurd p
raise_unless-Matches A e (err d, b) (ok a, c) (p, h) = absurd p
raise_unless-Matches A e (err d, b) (err d', c) (p, h) = (p, h)

fail_transfer-Same :
    (A : Type 0) (e : Error) → SameMethod (Transfer.fail_transfer {A = A} e) (Other.fail_transfer e)
unfolding Transfer.fail_transfer Other.fail_transfer
fail_transfer-Same A e b =
    raise_unless-Matches A e (Client.suppress (Client.expect transfer_done b))
      (Async.suppress (Async.expect transfer_done (to_async b)))
      (suppress-Matches (Client.expect transfer_done b) (Async.expect transfer_done (to_async b))
        (expect-Same transfer_done b))

read_all-eq :
    (script : List Recv) (acc : Bytes) → Transfer.recv_all script acc ≡ Other.read_all script acc
unfolding Transfer.recv_all Other.read_all
read_all-eq [] acc = refl
read_all-eq (chunk [] ∷ script) acc = refl
read_all-eq (chunk (c ∷ bytes) ∷ script) acc = read_all-eq script (acc ++ c ∷ bytes)
read_all-eq (recv_timeout ∷ script) acc = refl
read_all-eq (recv_os_error ∷ script) acc = refl

after_read-Same : (r : Result Bytes) → SameMethod (Transfer.after_recv r) (Other.after_read r)
after_read-Same (ok bytes) = pure-Same bytes
after_read-Same (err e) = fail_transfer-Same Bytes e

receive-Same : SameMethod Transfer.receive Other.receive
unfolding Transfer.receive Other.receive
receive-Same b =
    let (r, script) = Other.read_all b.net.data_script [] in
    rw (read_all-eq b.net.data_script [])
      (after_read-Same r (record b { net = record b.net { data_script = script } }))

release-Matches :
    {A : Type 0} (x : Result A × FtpBlob) (y : Result A × AsyncFtpBlob)
    → Matches SameState x y
    → Matches SameState (Transfer.finally_release x) (Other.close_data y)
release-Matches (r, b) (q, c) (e, h) = rw (← h) (e, refl)

with_passive-Same :
    (A : Type 0) (m : Ftp A) (n : AsyncFtp A)
    → SameMethod m n
    → SameMethod (Transfer.with_passive m) (Other.with_passive n)
unfolding Transfer.with_passive Other.with_passive
with_passive-Same A m n h =
    bind-Same Transfer.get_passive_socket Other.get_passive_connection
      (λ _ b. Transfer.finally_release (m b)) (λ _ c. Other.close_data (n c)) passive-Same
      (λ _ b. release-Matches (m b) (n (to_async b)) (h b))

is_open-eq : (code : ℤ) → Transfer.is_open code ≡ Other.is_open code
unfolding Transfer.is_open Other.is_open
is_open-eq code = refl

-- What follows the opening reply of a retrieval.
abbrev rest_of : Ftp Bytes
rest_of = Transfer.receive >>= λ bytes. Client.expect transfer_done >> pure bytes

abbrev async_rest_of : AsyncFtp Bytes
async_rest_of = Other.receive >>= λ bytes. Async.expect transfer_done >> pure bytes

rest_of-Same : SameMethod rest_of async_rest_of
rest_of-Same =
    bind-Same Transfer.receive Other.receive (λ bytes. Client.expect transfer_done >> pure bytes)
      (λ bytes. Async.expect transfer_done >> pure bytes) receive-Same
      (λ bytes.
        then-Same (Client.expect transfer_done) (Async.expect transfer_done) (pure bytes)
          (pure bytes) (expect-Same transfer_done) (pure-Same bytes))

retrieve-Same : (text : Text) → SameMethod (Transfer.retrieve text) (Other.retrieve text)
unfolding Transfer.retrieve Other.retrieve
retrieve-Same text =
    let missing = key_error (Transfer.behind_space text text) in
    let refused = blob_error unexpected_response in
    bind-Same (Client.cmd text) (Async.cmd text) _ _ (cmd-Same text) (λ (code, _).
      if-Same (is_code code not_found) (raise missing)
        (if Transfer.is_open code then rest_of else raise refused) (raise missing)
        (if Other.is_open code then async_rest_of else raise refused) (raise-Same Bytes missing)
        (rw (is_open-eq code) (
          if-Same (Other.is_open code) rest_of (raise refused) async_rest_of (raise refused)
            rest_of-Same (raise-Same Bytes refused))))

pub pasv_cmd-Same : (text : Text) → SameMethod (Transfer.pasv_cmd text) (Other.pasv_cmd text)
unfolding Transfer.pasv_cmd Other.pasv_cmd
pasv_cmd-Same text =
    with_passive-Same Bytes (Transfer.retrieve text) (Other.retrieve text) (retrieve-Same text)

pub get-Same : (key : Text) → SameMethod (Transfer.get key) (Other.get key)
unfolding Transfer.get Other.get
get-Same key = pasv_cmd-Same (codes "RETR " ++ key)

make_dirs-Same : (ds : List Text) → SameMethod (Transfer.make_dirs ds) (Other.make_dirs ds)
unfolding Transfer.make_dirs Other.make_dirs
make_dirs-Same [] = pure-Same tt
make_dirs-Same (d ∷ ds) =
    let refused = blob_error mkdir_failed in
    bind-Same (Client.cmd (codes "MKD " ++ d)) (Async.cmd (codes "MKD " ++ d)) _ _
      (cmd-Same (codes "MKD " ++ d))
      (λ (code, _).
        if-Same (is_code code created || is_code code not_found) (Transfer.make_dirs ds)
          (raise refused) (Other.make_dirs ds) (raise refused) (make_dirs-Same ds)
          (raise-Same (Unit {0}) refused))

upload_at :
    (s : Send) (bytes : Bytes) (b : FtpBlob)
    → next_send b.net.data_sends ≡ s
    → Matches SameState (Transfer.upload bytes b) (Other.upload bytes (to_async b))
unfolding Transfer.upload Other.upload
upload_at sent bytes b e = rw (e, Transfer.upload, Other.upload) (refl, refl)
upload_at send_timeout bytes b e =
    rw (e, Transfer.upload, Other.upload)
      (fail_transfer-Same (Unit {0}) (blob_error timed_out)
        (record b { net = record b.net { data_sends = later b.net.data_sends } }))
upload_at send_os_error bytes b e =
    rw (e, Transfer.upload, Other.upload)
      (fail_transfer-Same (Unit {0}) (blob_error os_error)
        (record b { net = record b.net { data_sends = later b.net.data_sends } }))

store-Same :
    (key : Text) (bytes : Bytes) → SameMethod (Transfer.store key bytes) (Other.store key bytes)
unfolding Transfer.store Other.store
store-Same key bytes =
    let refused = blob_error unexpected_response in
    bind-Same (Client.cmd (codes "STOR " ++ key)) (Async.cmd (codes "STOR " ++ key)) _ _
      (cmd-Same (codes "STOR " ++ key))
      (λ (code, _). rw (is_open-eq code) (
        if-Same (Other.is_open code) (Transfer.upload bytes) (raise refused) (Other.upload bytes)
          (raise refused) (λ b. upload_at (next_send b.net.data_sends) bytes b refl)
          (raise-Same (Unit {0}) refused)))

pub put-Same :
    (key : Text) (bytes : Bytes) → SameMethod (Transfer.put key bytes) (Other.put key bytes)
unfolding Transfer.put Other.put Transfer.ensure_parent_dirs Other.ensure_parent_dirs
put-Same key bytes =
    let ds = iter_parent_dirs key in
    let body = Transfer.with_passive (Transfer.store key bytes) in
    let other = Other.with_passive (Other.store key bytes) in
    then-Same (Transfer.make_dirs ds) (Other.make_dirs ds) (body >> Client.expect transfer_done)
      (other >> Async.expect transfer_done) (make_dirs-Same ds)
      (then-Same body other (Client.expect transfer_done) (Async.expect transfer_done)
        (with_passive-Same (Unit {0}) (Transfer.store key bytes) (Other.store key bytes)
          (store-Same key bytes))
        (expect-Same transfer_done))
