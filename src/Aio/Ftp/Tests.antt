-- ===== src/Aio/Ftp/Tests.antt =====
-- The two clients on one scripted server.
use gufo_blob.Base.{true, List, [], ◌∷◌, ◌++◌, none, ◌≡◌, refl, text_eq, codes}
use gufo_blob.Base.Result.{ok}
use gufo_blob.Utils.{bytes_to_int_range, int_of}
use gufo_blob.Ftp.Common.Utf8.{encode}
use gufo_blob.Ftp.Common.Methods.{strip}
use gufo_blob.Blob.Simulation.{Call, put_call, get_call, exists_call}
use gufo_blob.Ftp.Wire.{chunk}
use gufo_blob.Ftp.Client.{FtpBlob, Network, sent, init}
use gufo_blob.Aio.Ftp.{connection, close}
use gufo_blob.Aio.Ftp.Same.{to_async}
use gufo_blob.Aio.Ftp.Close.{close-conn}

abbrev network : Network
network = record {
  connects = true ∷ [];
  sends = sent ∷ sent ∷ sent ∷ sent ∷ [];
  script =
      chunk (codes "220 hi" ++ 13 ∷ 10 ∷ codes "230 in" ++ 13 ∷ 10 ∷ [])
      ∷ chunk (codes "200 bin" ++ 13 ∷ 10 ∷ codes "221 bye" ++ 13 ∷ 10 ∷ [])
      ∷ [];
  data_connects = true ∷ [];
  data_script = [];
  data_sends = [];
  log = [];
}

abbrev blob : FtpBlob
blob = init (codes "user") (codes "secret") [] 1 none network

abbrev calls : List Call
calls = put_call (codes "a") (1 ∷ []) ∷ get_call (codes "a") ∷ exists_call (codes "a") ∷ []

reconnects : (connection (to_async blob)).0 ≡ ok tt
unfolding connection bytes_to_int_range int_of text_eq encode strip
reconnects = refl

close-conn_example : (close (to_async blob)).1.conn ≡ true
close-conn_example = close-conn (to_async blob) reconnects
