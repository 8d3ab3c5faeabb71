-- ===== src/Sqlite/Url.antt =====
-- `parse_url` of src/gufo/blob/sync/sqlite.py, with `from_url`.
use gufo_blob.Base.{false, if◌then◌else◌, Text, codes, text_eq}
use gufo_blob.Base.Int.{ℤ, pos}
use gufo_blob.Base.Result.{Result, ok, err, bind, blob_error, invalid_scheme}
use gufo_blob.Blob.Open
use gufo_blob.Url.{Url, Urllib, get_first}
use gufo_blob.Sqlite.{Engine, SqliteBlob, init}

abbrev pub default_table : Text
default_table = codes "blobs"

abbrev pub default_key : Text
default_key = codes "k"

abbrev pub default_value : Text
default_value = codes "v"

abbrev pub default_timeout : ℤ
default_timeout = pos 5000

-- The keyword arguments: there is none for the busy timeout.
pub record Kwargs : Type 0 where
  pub path : Text
  pub table : Text
  pub key_col : Text
  pub value_col : Text

module _ (U : Urllib) where
  unfoldable pub kwargs : Url → Result Kwargs
  unfolding get_first
  kwargs p =
      let qs = U.parse_qs false p.query in
      bind (get_first qs (codes "table") default_table) λ t.
        bind (get_first qs (codes "key") default_key) λ k.
          bind (get_first qs (codes "value") default_value)
            λ v. ok record { path = p.path; table = t; key_col = k; value_col = v }

  unfoldable pub parse_url : Text → Result Kwargs
  unfolding kwargs
  parse_url url =
      bind (U.urlparse url)
        λ p. if text_eq p.scheme (codes "sqlite") then kwargs p else err (blob_error invalid_scheme)

  -- `from_url`; `database` is what the file at a path holds.
  unfoldable pub from_url : (E : Engine) → (Text → E.Db) → Text → Result (SqliteBlob E)
  unfolding parse_url Open.from_url init
  from_url E database =
      Open.from_url parse_url
        (λ k. init E k.table k.key_col k.value_col default_timeout (database k.path))
