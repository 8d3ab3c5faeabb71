-- ===== src/S3/Url.antt =====
-- `parse_url` of src/gufo/blob/common/s3.py, with `from_url` of src/gufo/blob/sync/s3.py.
pub mod Slashes
use gufo_blob.Base.{
  ℕ, zero, suc, ◌+◌, Bool, true, false, ◌&&◌, ◌||◌, List, [], ◌∷◌, ◌++◌, Option, none, some, ltb,
  leb, ◌==◌, if◌then◌else◌, Text, codes, text_eq, length, map,
}
use gufo_blob.Base.Dict.{Dict}
use gufo_blob.Base.Result.{
  Result, ok, err, bind, blob_error, invalid_scheme, bucket_required, invalid_bucket,
}
use gufo_blob.Ftp.Common.Methods.{strip_left, join, last_or}
use gufo_blob.Blob.Open
use gufo_blob.Url.{Url, Urllib, get_first, option_or, or_none}
use gufo_blob.S3.{S3Blob, init}

abbrev pub default_region : Text
default_region = codes "us-east-1"

-- The keyword arguments
pub record Kwargs : Type 0 where
  pub bucket : Text
  pub prefix : Text
  pub endpoint : Text
  pub region : Text
  pub access_key : Option Text
  pub secret_key : Option Text

abbrev pub is_alnum : ℕ → Bool
is_alnum c = leb b'a' c && leb c b'z' || (leb b'0' c && leb c b'9')

abbrev pub is_bucket_char : ℕ → Bool
is_bucket_char c = is_alnum c || (c == b'.') || (c == b'-')

unfoldable pub all_bucket_chars : Text → Bool
all_bucket_chars [] = true
all_bucket_chars (c ∷ s) = is_bucket_char c && all_bucket_chars s

-- `rx_bucket.fullmatch`, the expression being `^[a-z0-9][a-z0-9.\-]{1,61}[a-z0-9]$`
unfoldable pub fullmatch_bucket : Text → Bool
unfolding all_bucket_chars last_or
fullmatch_bucket [] = false
fullmatch_bucket (c ∷ s) =
    is_alnum c
    && all_bucket_chars s
    && is_alnum (last_or b'-' s)
    && (leb 2 (length s) && leb (length s) 62)

-- One round of `prefix.replace("//", "/")`
unfoldable pub replace_slashes : Text → Text
replace_slashes [] = []
replace_slashes (c ∷ []) = c ∷ []
replace_slashes (c ∷ d ∷ s) = elim ((c == b'/') && (d == b'/')) [
  | true ↦ b'/' ∷ replace_slashes s
  | false ↦ c ∷ replace_slashes (d ∷ s)
]

-- `"//" in prefix`
unfoldable pub has_slashes : Text → Bool
has_slashes [] = false
has_slashes (c ∷ []) = false
has_slashes (c ∷ d ∷ s) = (c == b'/') && (d == b'/') || has_slashes (d ∷ s)

-- `while "//" in prefix`
unfoldable pub collapse : ℕ → Text → Text
unfolding replace_slashes has_slashes
collapse zero prefix = prefix
collapse (suc fuel) prefix =
    let again = collapse fuel (replace_slashes prefix) in
    if has_slashes prefix then again else prefix

module _ (U : Urllib) where
  abbrev pub prefix_of : Text → Text
  prefix_of path = let prefix = U.unquote (strip_left b'/' path) in collapse (length prefix) prefix

  unfoldable pub kwargs : Text → Url → Result Kwargs
  unfolding get_first fullmatch_bucket collapse strip_left
  kwargs bucket u =
      let qs = U.parse_qs true u.query in
      bind (get_first qs (codes "endpoint") []) λ endpoint.
        bind (get_first qs (codes "region") default_region) λ region.
          bind (get_first qs (codes "access_key") []) λ access_key.
            bind (get_first qs (codes "secret_key") []) λ secret_key.
              if fullmatch_bucket bucket
              then ok record {
                bucket = bucket;
                prefix = prefix_of u.path;
                endpoint = endpoint;
                region = region;
                access_key = or_none access_key;
                secret_key = or_none secret_key;
              }
              else err (blob_error invalid_bucket)

  -- `if not bucket`
  unfoldable pub with_bucket : Text → Url → Result Kwargs
  unfolding kwargs
  with_bucket [] u = err (blob_error bucket_required)
  with_bucket (c ∷ bucket) u = kwargs (c ∷ bucket) u

  unfoldable pub parse_url : Text → Result Kwargs
  unfolding with_bucket
  parse_url url = bind (U.urlparse url) λ u.
      if text_eq u.scheme (codes "s3")
      then with_bucket (U.unquote (option_or u.hostname [])) u
      else err (blob_error invalid_scheme)

  -- `from_url`
  unfoldable pub from_url : Text → Result S3Blob
  unfolding parse_url Open.from_url init
  from_url =
      Open.from_url parse_url
        λ k. init k.bucket k.prefix k.endpoint k.region k.access_key k.secret_key
