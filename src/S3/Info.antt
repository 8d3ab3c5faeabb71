-- ===== src/S3/Info.antt =====
-- `S3Info` of src/gufo/blob/common/s3.py.
mod Chars
mod Params
pub mod RoundTrip
mod Tests
use gufo_blob.Base.{ℕ, List, [], ◌∷◌, ◌++◌, Option, none, some, Text, codes}
use gufo_blob.Ftp.Common.Methods.{strip_left, join}
use gufo_blob.Utils.Decimal.{decimal}
use gufo_blob.Base.Result.{Result, ok, bind}
use gufo_blob.Url.{Urllib, quoted}

-- URL-safe characters for S3 key encoding
abbrev pub s3_safe_chars : Text
s3_safe_chars = codes "-_.~!*()*'/"

pub record S3Info : Type 0 where
  pub host : Text
  pub port : ℕ
  pub bucket : Text
  pub prefix : Text
  pub access_key : Option Text
  pub secret_key : Option Text

unfoldable pub endpoint : S3Info → Text
unfolding decimal
endpoint i = codes "http://" ++ i.host ++ b':' ∷ decimal i.port

-- `prefix if prefix is not None else self.prefix`
abbrev pub prefix_or : Option Text → Text → Text
prefix_or none default = default
prefix_or (some p) default = p

-- `if self.endpoint`
abbrev pub endpoint_extra : Text → List Text
endpoint_extra [] = []
endpoint_extra (c ∷ s) = (codes "endpoint=" ++ c ∷ s) ∷ []

-- `if extras`
abbrev pub query_part : List Text → Text
query_part [] = []
query_part (e ∷ es) = b'?' ∷ join b'&' (e ∷ es)

module _ (U : Urllib) where
  -- `if p`
  abbrev pub path_part : Text → Result Text
  path_part [] = ok []
  path_part (c ∷ p) =
      bind (quoted U (strip_left b'/' (c ∷ p)) s3_safe_chars) λ path. ok (b'/' ∷ path)

  -- `if self.access_key`, and the same with `secret_key`
  abbrev pub key_extra : Text → Option Text → Result (List Text)
  key_extra name none = ok []
  key_extra name (some []) = ok []
  key_extra name (some (c ∷ s)) =
      bind (quoted U (c ∷ s) s3_safe_chars) λ key. ok ((name ++ b'=' ∷ key) ∷ [])

  unfoldable pub extras : S3Info → Result (List Text)
  unfolding endpoint
  extras i = bind (key_extra (codes "access_key") i.access_key) λ access.
      bind (key_extra (codes "secret_key") i.secret_key)
        λ secret. ok (endpoint_extra (endpoint i) ++ access ++ secret)

  unfoldable pub url : S3Info → Option Text → Result Text
  unfolding extras strip_left join
  url i prefix =
      bind (path_part (prefix_or prefix i.prefix)) λ path.
        bind (extras i) λ params. ok (codes "s3://" ++ i.bucket ++ path ++ query_part params)

unfoldable pub clone : S3Info → S3Info
clone i = record {
  host = i.host;
  port = i.port;
  bucket = i.bucket;
  prefix = i.prefix;
  access_key = i.access_key;
  secret_key = i.secret_key;
}
