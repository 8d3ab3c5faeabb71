-- ===== src/Ftp/Client/Retries.antt =====
-- How often `_connect` tries and sleeps.
use gufo_blob.Base.{ℕ, Bool, zero, suc, ◌<◌, true, false, List, ◌∷◌, ◌≡◌, refl, arith}
use gufo_blob.Base.Result.{ok, err, blob_error, connect_failed}
use gufo_blob.Ftp.Client.{FtpBlob, Action, slept, connected, connect_loop, connect}

-- As many refused attempts, and then the others
unfoldable pub refused : ℕ → List Bool → List Bool
refused zero rest = rest
refused (suc n) rest = false ∷ refused n rest

-- As many sleeps after what the log holds
unfoldable pub sleeps : ℕ → List Action → List Action
sleeps zero log = log
sleeps (suc n) log = sleeps n (slept ∷ log)

unfoldable pub reached : ℕ → List Bool → FtpBlob → FtpBlob
unfolding sleeps
reached fails rest b = record b {
  sock = true;
  net = record b.net { connects = rest; log = connected ∷ sleeps fails b.net.log };
}

unfoldable pub given_up : ℕ → List Bool → FtpBlob → FtpBlob
unfolding sleeps
given_up n rest b = record b { net = record b.net { connects = rest; log = sleeps n b.net.log } }

connect_loop-reached :
    (n fails : ℕ) (rest : List Bool) (b : FtpBlob)
    → fails < n
    → b.net.connects ≡ refused fails (true ∷ rest)
    → connect_loop n b ≡ (ok tt, reached fails rest b)
unfolding connect_loop refused sleeps reached
connect_loop-reached zero fails rest b h e = absurd (omega arith)
connect_loop-reached (suc n) zero rest b h e = rw e refl
connect_loop-reached (suc n) (suc fails) rest b h e =
    rw e (connect_loop-reached n fails rest _ (omega arith) refl)

connect_loop-given_up :
    (n : ℕ) (rest : List Bool) (b : FtpBlob)
    → b.net.connects ≡ refused n rest
    → connect_loop n b ≡ (err (blob_error connect_failed), given_up n rest b)
unfolding connect_loop refused sleeps given_up
connect_loop-given_up zero rest b e = rw (e) refl
connect_loop-given_up (suc n) rest b e = rw e (connect_loop-given_up n rest _ refl)

-- If after some refused attempts, fewer than `retries`, one is accepted, then `_connect` returns with the
-- socket set, has slept once for each refused attempt and has made no attempt after the accepted one.
pub connect-reached :
    (b : FtpBlob) (fails : ℕ) (rest : List Bool)
    → fails < b.retries
    → b.net.connects ≡ refused fails (true ∷ rest)
    → connect b ≡ (ok tt, reached fails rest b)
unfolding connect
connect-reached b fails rest h e = connect_loop-reached b.retries fails rest b h e

-- If the first `retries` attempts are refused, `_connect` has slept as often and raises BlobError.
pub connect-given_up :
    (b : FtpBlob) (rest : List Bool)
    → b.net.connects ≡ refused b.retries rest
    → connect b ≡ (err (blob_error connect_failed), given_up b.retries rest b)
unfolding connect
connect-given_up b rest e = connect_loop-given_up b.retries rest b e
