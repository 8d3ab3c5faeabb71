-- ===== src/Aio/Ftp/Same.antt =====
-- The asynchronous client and the synchronous one: the relation between their objects, and one rule
-- for each way to build a method.
pub mod Session
pub mod Data
pub mod Listing
pub mod Methods
use gufo_blob.Base.{Bool, true, false, Option, none, some, [], if◌then◌else◌, ◌≡◌, refl}
use gufo_blob.Base.Result.{
  Result, ok, err, Error, Exec, pure, raise, lift, continue, ◌>>=◌, ◌>>◌, blob_error, key_error,
  index_error, unicode_error, value_error, os_exception,
}
use gufo_blob.Blob.Simulation.{Alike, Matches, AlikeError, blob_errors, same_error}
use gufo_blob.Ftp.Common.{FtpFeatures}
use gufo_blob.Ftp.Wire.{Stream}
use gufo_blob.Ftp.Client.{FtpBlob, Ftp}
use gufo_blob.Ftp.Client
use gufo_blob.Aio.Ftp.{AsyncFtpBlob, AsyncFtp, on_stream}
use gufo_blob.Aio.Ftp

-- What the synchronous object knows of the server's features.
abbrev pub known : Option FtpFeatures → Option FtpFeatures → Option FtpFeatures
known (some f) pending = some f
known none pending = pending

-- The asynchronous object in the place of a synchronous one, where closings do not fail.
abbrev pub to_async : FtpBlob → AsyncFtpBlob
to_async b = record {
  user = b.user;
  password = b.password;
  root = b.root;
  retries = b.retries;
  conn = b.sock;
  pending_features = known b.cached_features b.pending_features;
  response_buffer = b.response_buffer;
  net = b.net;
  closes = [];
}

abbrev pub SameState : FtpBlob → AsyncFtpBlob → Type 0
SameState b c = to_async b ≡ c

abbrev pub SameMethod : {A : Type 0} → Ftp A → AsyncFtp A → Type 0
SameMethod m n = (b : FtpBlob) → Matches SameState (m b) (n (to_async b))

pub Alike-refl : {A : Type 0} (r : Result A) → Alike r r
Alike-refl (ok a) = refl
Alike-refl (err e) = same_error e

continue-Matches :
    {A B : Type 0} (x : Result A × FtpBlob) (y : Result A × AsyncFtpBlob) (f : A → Ftp B)
    (g : A → AsyncFtp B)
    → Matches SameState x y
    → ((a : A) → SameMethod (f a) (g a))
    → Matches SameState (continue x f) (continue y g)
continue-Matches (ok a, b) (ok a', c) f g (e, h) k = rw (← e, ← h) (k a b)
continue-Matches (ok a, b) (err d, c) f g (e, h) k = absurd e
continue-Matches (err d, b) (ok a, c) f g (e, h) k = absurd e
continue-Matches (err d, b) (err d', c) f g (e, h) k = (e, h)

pub bind-Same :
    {A B : Type 0} (m : Ftp A) (n : AsyncFtp A) (f : A → Ftp B) (g : A → AsyncFtp B)
    → SameMethod m n
    → ((a : A) → SameMethod (f a) (g a))
    → SameMethod (m >>= f) (n >>= g)
bind-Same m n f g h k b = continue-Matches (m b) (n (to_async b)) f g (h b) k

pub then-Same :
    {A B : Type 0} (m : Ftp A) (n : AsyncFtp A) (m' : Ftp B) (n' : AsyncFtp B)
    → SameMethod m n
    → SameMethod m' n'
    → SameMethod (m >> m') (n >> n')
then-Same m n m' n' h k = bind-Same m n (λ _. m') (λ _. n') h (λ _. k)

pub pure-Same : {A : Type 0} (a : A) → SameMethod (pure a) (pure a)
pure-Same a b = (refl, refl)

pub raise-Same : (A : Type 0) (e : Error) → SameMethod (raise {A = A} e) (raise e)
raise-Same A e b = (same_error e, refl)

pub lift-Same : {A : Type 0} (r : Result A) → SameMethod (lift r) (lift r)
lift-Same r b = (Alike-refl r, refl)

pub if-Same :
    {A : Type 0} (t : Bool) (m m' : Ftp A) (n n' : AsyncFtp A)
    → SameMethod m n
    → SameMethod m' n'
    → SameMethod (if t then m else m') (if t then n else n')
if-Same true m m' n n' h k = h
if-Same false m m' n n' h k = k

pub if-Matches :
    {A : Type 0} (t : Bool) (x x' : Result A × FtpBlob) (y y' : Result A × AsyncFtpBlob)
    → Matches SameState x y
    → Matches SameState x' y'
    → Matches SameState (if t then x else x') (if t then y else y')
if-Matches true x x' y y' h k = h
if-Matches false x x' y y' h k = k

pub on_stream-Same :
    {A : Type 0} (m : Exec Stream A) → SameMethod (Client.on_stream m) (on_stream m)
unfolding Client.on_stream on_stream
on_stream-Same m b =
    (Alike-refl (m (record { buffer = b.response_buffer; script = b.net.script })).0, refl)

-- `with suppress(BlobError)`
pub suppress-Matches :
    {A : Type 0} (x : Result A × FtpBlob) (y : Result A × AsyncFtpBlob)
    → Matches SameState x y
    → Matches SameState (Client.suppress x) (Ftp.suppress y)
suppress-Matches (ok a, b) (ok a', c) (e, h) = (refl, h)
suppress-Matches (ok a, b) (err d, c) (e, h) = absurd e
suppress-Matches (err d, b) (ok a, c) (e, h) = absurd e
suppress-Matches (err _, b) (err _, c) (blob_errors x y, h) = (refl, h)
suppress-Matches (err _, b) (err _, c) (same_error (blob_error x), h) = (refl, h)
suppress-Matches (err _, b) (err _, c) (same_error (key_error k), h) = (same_error (key_error k), h)
suppress-Matches (err _, b) (err _, c) (same_error index_error, h) = (same_error index_error, h)
suppress-Matches (err _, b) (err _, c) (same_error unicode_error, h) = (same_error unicode_error, h)
suppress-Matches (err _, b) (err _, c) (same_error value_error, h) = (same_error value_error, h)
suppress-Matches (err _, b) (err _, c) (same_error (os_exception k), h) =
    (same_error (os_exception k), h)
