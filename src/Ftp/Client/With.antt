-- ===== src/Ftp/Client/With.antt =====
-- `with blob: body` (src/gufo/blob/sync/base.py) for the FTP store.
use gufo_blob.Base.{◌≡◌, false, arith}
use gufo_blob.Base.Result.{
  Result, ok, err, blob_error, key_error, index_error, unicode_error, value_error, os_exception,
}
use gufo_blob.Blob.Open.{with_blob, enter, exit_state}
use gufo_blob.Ftp.Client.{FtpBlob, Ftp, open_blob, connection, close}
use gufo_blob.Ftp.Client.Keeps.{Keeps}
use gufo_blob.Ftp.Client.Sockets.{SockAfter, connection-sock, close-sock}
use gufo_blob.Ftp.Client.Balance.{opens, releases, Balanced, Balanced-trans, connection-Balanced}
use gufo_blob.Ftp.Client.Calls.{close-Balanced}

-- `open` returns or raises BlobError.
abbrev pub OpensOrBlobError : Result (Unit {0}) → Type 0
OpensOrBlobError (ok _) = Unit
OpensOrBlobError (err (blob_error x)) = Unit
OpensOrBlobError (err _) = ⊥

module _ {A : Type 0} (body : Ftp A) (keeps : Keeps Balanced body) where
  enter-released :
      (b : FtpBlob) (x : Result (Unit {0}) × FtpBlob)
      → OpensOrBlobError x.0
      → SockAfter x.0 x.1.sock
      → Balanced b x.1
      → ((enter body close x).1.sock ≡ false) × Balanced b (enter body close x).1
  enter-released b (ok u, c) h k e =
      let d = (body c).1 in
      rw (exit_state (body c).0 (close d)) (
        close-sock d,
        Balanced-trans b d (close d).1 (Balanced-trans b c d e (keeps c)) (close-Balanced d),
      )
  enter-released b (err (blob_error y), c) h k e = (k, e)
  enter-released b (err (key_error y), c) h k e = absurd h
  enter-released b (err index_error, c) h k e = absurd h
  enter-released b (err unicode_error, c) h k e = absurd h
  enter-released b (err value_error, c) h k e = absurd h
  enter-released b (err (os_exception y), c) h k e = absurd h

  -- After a `with` block over an FTP store no control connection is held, and as many data connections
  -- have been released as opened, whatever the block raised: if this is so of what the body does with
  -- data connections, if it was so before, and if `open` raises nothing but BlobError.
  pub with_blob-released :
      (b : FtpBlob)
      → opens b.net.log ≡ releases b.net.log
      → OpensOrBlobError (open_blob b).0
      → let c = (with_blob open_blob close body b).1 in
        (c.sock ≡ false) × (opens c.net.log ≡ releases c.net.log)
  unfolding with_blob open_blob
  with_blob-released b e h =
      let (s, k) = enter-released b (connection b) h (connection-sock b) (connection-Balanced b) in
      (s, omega (arith, e, k))
