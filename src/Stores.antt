-- ===== src/Stores.antt =====
-- The five backends of src/gufo/blob/sync behind `open_blob`. gufo.loader is a parameter: for the name of
-- a module it gives the `from_url` of its class, and `IsLoader` says for which names.
pub mod Opened
mod Tests
use gufo_blob.Base.{
  ℕ, Bool, true, false, ◌||◌, List, [], ◌∷◌, Option, none, some, if◌then◌else◌, Text, codes,
  text_eq, ◌≡◌,
}
use gufo_blob.Base.Result.{Result, ok, err, bind}
use gufo_blob.Url.{Urllib}
use gufo_blob.Url.Laws.{Settles, Any}
use gufo_blob.Blob.Open.{Loader}
use gufo_blob.Memory.{MemoryBlob}
use gufo_blob.Memory.Url as MemoryUrl
use gufo_blob.File.{FileBlob}
use gufo_blob.File.Url as FileUrl
use gufo_blob.File.Url.{Place}
use gufo_blob.Sqlite.{Engine, SqliteBlob}
use gufo_blob.Sqlite.Url as SqliteUrl
use gufo_blob.Ftp.Client.{FtpBlob, Network}
use gufo_blob.Ftp.Client.Url as FtpUrl
use gufo_blob.S3.{S3Blob}
use gufo_blob.S3.Url as S3Url

-- What the stores find outside of the program.
pub record World : Type 1 where
  pub urllib : Urllib
  pub place : Text → Place
  pub engine : Engine
  pub database : Text → engine.Db
  pub network : Text → ℕ → Network

-- The file system raises OSError and ValueError alone.
pub record IsFileSystem (place : Text → Place) : Type 0 where
  pub names_settle : (path : Text) → Settles Any (place path).names
  pub is_dir_settles : (path : Text) → Settles Any (place path).is_dir

module _ (W : World) where
  pub data Store : Type 0 where
    memory_store : MemoryBlob → Store
    file_store : FileBlob → Store
    sqlite_store : SqliteBlob W.engine → Store
    ftp_store : FtpBlob → Store
    s3_store : S3Blob → Store

  -- `name`, which is also that of the module
  abbrev pub name_of : Store → Text
  name_of (memory_store b) = codes "memory"
  name_of (file_store b) = codes "file"
  name_of (sqlite_store b) = codes "sqlite"
  name_of (ftp_store b) = codes "ftp"
  name_of (s3_store b) = codes "s3"

  abbrev pub as_store : {A : Type 0} → (A → Store) → (Text → Result A) → Text → Result Store
  as_store f from_url url = bind (from_url url) λ a. ok (f a)

  -- `from_url` of each class
  unfoldable pub open_memory : Text → Result Store
  unfolding MemoryUrl.from_url
  open_memory = as_store memory_store (MemoryUrl.from_url W.urllib)

  unfoldable pub open_file : Text → Result Store
  unfolding FileUrl.from_url
  open_file = as_store file_store (FileUrl.from_url W.urllib W.place)

  unfoldable pub open_sqlite : Text → Result Store
  unfolding SqliteUrl.from_url
  open_sqlite = as_store sqlite_store (SqliteUrl.from_url W.urllib W.engine W.database)

  unfoldable pub open_ftp : Text → Result Store
  unfolding FtpUrl.from_url
  open_ftp = as_store ftp_store (FtpUrl.from_url W.urllib W.network)

  unfoldable pub open_s3 : Text → Result Store
  unfolding S3Url.from_url
  open_s3 = as_store s3_store (S3Url.from_url W.urllib)

  abbrev pub is_known : Text → Bool
  is_known schema =
      text_eq schema (codes "memory")
      || text_eq schema (codes "file")
      || (text_eq schema (codes "sqlite")
          || text_eq schema (codes "ftp")
          || text_eq schema (codes "s3"))

  -- The loader knows the modules of the package but `base`, and no others.
  pub record IsLoader (loader : Loader Store) : Type 0 where
    pub has_memory : loader (codes "memory") ≡ some open_memory
    pub has_file : loader (codes "file") ≡ some open_file
    pub has_sqlite : loader (codes "sqlite") ≡ some open_sqlite
    pub has_ftp : loader (codes "ftp") ≡ some open_ftp
    pub has_s3 : loader (codes "s3") ≡ some open_s3
    pub no_others : (schema : Text) → is_known schema ≡ false → loader schema ≡ none
