-- ===== src/Ftp/Tests/Connections.antt =====
-- Opening and closing the FTP client where a server refuses two attempts, and with an open connection.
use gufo_blob.Base.{true, false, [], ◌∷◌, none, ◌≡◌, refl, arith, codes}
use gufo_blob.Base.Result.{ok}
use gufo_blob.Blob.Open.{with_blob}
use gufo_blob.Ftp.Client.{sent, FtpBlob, Network, init, connect, connection, open_blob, close}
use gufo_blob.Ftp.Client.Transfer.{put}
use gufo_blob.Ftp.Client.Balance.{opens, releases}
use gufo_blob.Ftp.Client.Bracket.{put-Balanced}
use gufo_blob.Ftp.Client.With.{with_blob-released}
use gufo_blob.Ftp.Client.Retries.{refused, reached, connect-reached}

abbrev network : Network
network = record {
  connects = false ∷ false ∷ true ∷ [];
  sends = sent ∷ sent ∷ [];
  script = [];
  data_connects = true ∷ [];
  data_script = [];
  data_sends = [];
  log = [];
}

abbrev fresh : FtpBlob
fresh = init (codes "user") (codes "secret") [] 3 none network

abbrev held : FtpBlob
held = record fresh { sock = true }

connect-reached_example : connect fresh ≡ (ok tt, reached 2 [] fresh)
unfolding refused
connect-reached_example = connect-reached fresh 2 [] (omega arith) refl

with_blob-released_example :
    let c = (with_blob open_blob close (put (codes "b") (1 ∷ [])) held).1 in
    (c.sock ≡ false) × (opens c.net.log ≡ releases c.net.log)
unfolding opens releases open_blob connection
with_blob-released_example =
    with_blob-released (put (codes "b") (1 ∷ [])) (put-Balanced (codes "b") (1 ∷ [])) held refl tt
