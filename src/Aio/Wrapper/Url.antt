-- ===== src/Aio/Wrapper/Url.antt =====
-- `AsyncWrapper.parse_url`, and `from_url` of src/gufo/blob/aio/file.py and src/gufo/blob/aio/sqlite.py.
use gufo_blob.Base.{Text}
use gufo_blob.Base.Int.{ℤ}
use gufo_blob.Base.Result.{Result, ok, bind}
use gufo_blob.Url.{Urllib}
use gufo_blob.File.{FileBlob}
use gufo_blob.File.Url as FileUrl
use gufo_blob.File.Url.{Place}
use gufo_blob.Sqlite.{Engine, SqliteBlob}
use gufo_blob.Sqlite as Sqlite
use gufo_blob.Sqlite.Url as SqliteUrl
use gufo_blob.Aio.Open
use gufo_blob.Aio.Wrapper.{AsyncWrapper}

-- `cls.inner.parse_url(url)`
unfoldable pub parse_url {ℓ} : {K : Type ℓ} → (Text → Result K) → Text → Result K
parse_url inner url = inner url

-- `super().__init__(…)` with the store that is wrapped
abbrev pub wrap : {S : Type 0} → Result S → Result (AsyncWrapper S)
wrap r = bind r λ s. ok (record { sync = s })

module _ (U : Urllib) where
  -- `__init__` of `FileBlob`
  unfoldable pub init_file : Place → Result (AsyncWrapper FileBlob)
  init_file p = wrap (FileUrl.init_at U p)

  unfoldable pub file_from_url : (Text → Place) → Text → Result (AsyncWrapper FileBlob)
  unfolding Open.from_url parse_url init_file
  file_from_url place =
      Open.from_url (parse_url (FileUrl.parse_url U)) (λ root. init_file (place root))

  -- `__init__` of `SQLiteBlob`
  unfoldable pub init_sqlite :
      (E : Engine) → Text → Text → Text → ℤ → E.Db → Result (AsyncWrapper (SqliteBlob E))
  unfolding Sqlite.init
  init_sqlite E table key_col value_col timeout db =
      wrap (Sqlite.init E table key_col value_col timeout db)

  unfoldable pub sqlite_from_url :
      (E : Engine) → (Text → E.Db) → Text → Result (AsyncWrapper (SqliteBlob E))
  unfolding Open.from_url parse_url init_sqlite
  sqlite_from_url E database =
      Open.from_url (parse_url (SqliteUrl.parse_url U))
        λ k. init_sqlite E k.table k.key_col k.value_col SqliteUrl.default_timeout (database k.path)
