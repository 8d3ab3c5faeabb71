-- ===== src/Stores/Opened.antt =====
-- What `open_blob` gives.
use gufo_blob.Base.{false, none, Text, ◌≡◌}
use gufo_blob.Base.Int.{ℤ}
use gufo_blob.Base.Dict.{Dict}
use gufo_blob.Base.Result.{Result}
use gufo_blob.Url.{Url}
use gufo_blob.Url.Laws.{IsUrllib}
use gufo_blob.Blob.Open
use gufo_blob.Memory as Memory
use gufo_blob.Memory.Url as MemoryUrl
use gufo_blob.Ftp.Client as Ftp
use gufo_blob.File as File
use gufo_blob.File.Url as FileUrl
use gufo_blob.Sqlite as Sqlite
use gufo_blob.Sqlite.Url as SqliteUrl
use gufo_blob.Ftp.Client.Url as FtpUrl
use gufo_blob.S3 as S3
use gufo_blob.S3.Url as S3Url
use gufo_blob.Stores.{World, IsFileSystem, Store, name_of}

module _ (W : World) (L : IsUrllib W.urllib) (F : IsFileSystem W.place) where
  -- The store that a `from_url` gives is of its class.
  Named : Text → Store W → Type 0
  Named name store = name_of W store ≡ name

  sqlite_made : ℤ → W.engine.Db → Text → Text → Text → Sqlite.SqliteBlob W.engine
  sqlite_made timeout db t k v = record {
    names = record { table = t; key_col = k; value_col = v };
    timeout = timeout;
    conn = false;
    db = db;
  }

  ftp_made : FtpUrl.Kwargs → Ftp.FtpBlob
  ftp_made k =
      Ftp.init k.user k.password k.root FtpUrl.default_retries none (W.network k.host k.port)
