-- ===== src/Aio/S3.antt =====
-- src/gufo/blob/aio/s3.py: the store in a bucket of an S3 service over the asynchronous HTTP client. The
-- attributes of the object and the parameters are those of the synchronous store.
pub mod Url
pub mod Request
pub mod Same
use gufo_blob.Base.{
  ℕ, zero, suc, map, ◌≡◌, Bool, true, false, ◌&&◌, not, List, [], ◌∷◌, ◌++◌, Option, none, some,
  ◌==◌, if◌then◌else◌, Text, Bytes, codes, text_eq, starts_with, length, drop,
}
use gufo_blob.Base.Result.{
  Result, ok, err, bind, Error, Exec, pure, raise, lift, ◌>>=◌, ◌>>◌, key_error, blob_error,
  keys_not_together,
}
use gufo_blob.Blob.{Blob}
use gufo_blob.Ftp.Common.Methods.{strip_right, last_or}
use gufo_blob.S3.Xml.{Expat, from_xml, list_objects}
use gufo_blob.S3.{
  Service, S3Blob, Method, http_put, http_get, http_head, http_delete, Response, s3_ok, s3_created,
  s3_deleted, s3_not_found, is_set, or_default, same, prepend, or_raise,
}

-- `__init__`
unfoldable pub init : Text → Text → Text → Text → Option Text → Option Text → Result S3Blob
init bucket prefix endpoint region access_key secret_key =
    if same (is_set access_key) (is_set secret_key)
    then ok record {
      bucket = bucket;
      prefix = prefix;
      endpoint = or_default endpoint (codes "https://s3.amazonaws.com");
      region = region;
      access_key = access_key;
      secret_key = secret_key;
    }
    else err (blob_error keys_not_together)

-- `s.endswith("/")`
unfoldable pub ends_with_slash : Text → Bool
unfolding last_or
ends_with_slash [] = false
ends_with_slash (c ∷ s) = last_or c (c ∷ s) == b'/'

-- The prefix with the slash that ends it: what the key is put behind, and what is taken off again.
unfoldable pub prefix_raw : Text → Text
unfolding ends_with_slash
prefix_raw [] = []
prefix_raw (c ∷ s) = if ends_with_slash (c ∷ s) then c ∷ s else c ∷ s ++ b'/' ∷ []

-- `full_key` of `_endpoint_host`: the empty key stands for the prefix as it is given.
unfoldable pub full_key : Text → Text → Text
unfolding prefix_raw
full_key prefix [] = prefix
full_key prefix (c ∷ key) = prefix_raw prefix ++ c ∷ key

-- `full` of `_list_url`
unfoldable pub full_prefix : Text → Text → Text
unfolding prefix_raw
full_prefix prefix wanted = prefix_raw prefix ++ wanted

unfoldable pub strip_prefix : Text → Text → Text
unfolding prefix_raw
strip_prefix prefix key =
    let raw = prefix_raw prefix in if starts_with key raw then drop (length raw) key else key

module _ (X : Service) (b : S3Blob) where
  unfoldable pub endpoint_host : Text → Result Text
  unfolding strip_right full_key
  endpoint_host key =
      bind (X.quote (codes "/-_.~") (full_key b.prefix key))
        λ encoded. ok (strip_right b'/' b.endpoint ++ b'/' ∷ (b.bucket ++ b'/' ∷ encoded))

  unfoldable pub list_url : Text → Result Text
  unfolding strip_right full_prefix
  list_url wanted = bind (X.quote [] (full_prefix b.prefix wanted)) λ encoded.
      ok (
        strip_right b'/' b.endpoint ++ b'/' ∷ (b.bucket ++ codes "?list-type=2&prefix=" ++ encoded))

  unfoldable pub put : Text → Bytes → Exec X.State (Unit {0})
  unfolding endpoint_host from_xml
  put key bytes = do
    url ← lift (endpoint_host key)
    X.open_client
    resp ← X.request (http_put bytes) url
    if resp.status == s3_created then pure tt else raise (from_xml X.parse_xml resp.content)

  unfoldable pub get : Text → Exec X.State Bytes
  unfolding endpoint_host from_xml
  get key = do
    url ← lift (endpoint_host key)
    X.open_client
    resp ← X.request http_get url
    if resp.status == s3_ok
        then pure resp.content
        else if resp.status == s3_not_found
        then raise (key_error key)
        else raise (from_xml X.parse_xml resp.content)

  unfoldable pub delete_checked : Text → Exec X.State (Unit {0})
  unfolding from_xml
  delete_checked url = do
    resp ← X.request http_delete url
    if resp.status == s3_deleted then pure tt else raise (from_xml X.parse_xml resp.content)

  unfoldable pub delete : Text → Exec X.State (Unit {0})
  unfolding endpoint_host delete_checked from_xml
  delete key = do
    url ← lift (endpoint_host key)
    X.open_client
    check ← X.request http_head url
    if check.status == s3_not_found
        then raise (key_error key)
        else if check.status == s3_ok
        then delete_checked url
        else raise (from_xml X.parse_xml check.content)

  unfoldable pub exists : Text → Exec X.State Bool
  unfolding endpoint_host from_xml
  exists key = do
    url ← lift (endpoint_host key)
    X.open_client
    resp ← X.request http_head url
    if resp.status == s3_ok
        then pure true
        else if resp.status == s3_not_found
        then pure false
        else raise (from_xml X.parse_xml resp.content)

  -- One page of `scan`, with the client that is opened for it
  unfoldable pub page : Text → Exec X.State (List Text × Option Text)
  unfolding from_xml list_objects
  page url = do
    X.open_client
    resp ← X.request http_get url
    if resp.status == s3_ok
        then lift (list_objects X.parse_xml resp.content)
        else raise (from_xml X.parse_xml resp.content)

  unfoldable pub next_url : Text → Text → Result Text
  unfolding list_url
  next_url wanted token = bind (X.quote [] token) λ continuation.
      bind (list_url wanted) λ url. ok (url ++ codes "&continuation-token=" ++ continuation)

  -- The keys of a page, and the pages behind it if there is a token
  unfoldable pub then_next :
      (Text → X.State → Option (Result (List Text) × X.State))
      → Result (List Text × Option Text) × X.State
      → Option (Result (List Text) × X.State)
  unfolding strip_prefix
  then_next rest (err e, t) = some (err e, t)
  then_next rest (ok (keys, none), t) = some (ok (map (strip_prefix b.prefix) keys), t)
  then_next rest (ok (keys, some token), t) =
      prepend (map (strip_prefix b.prefix) keys) (rest token t)

  -- The loop of `_scan_async`, run to its end, or to no result where the fuel does not suffice
  unfoldable pub scan_pages : ℕ → Text → Text → X.State → Option (Result (List Text) × X.State)
  unfolding page next_url then_next
  scan_pages zero wanted url s = none
  scan_pages (suc fuel) wanted url s =
      then_next
        (λ token. or_raise (next_url wanted token) (λ next t. scan_pages fuel wanted next t))
        (page url s)

  -- `scan`
  unfoldable pub scan : ℕ → Text → X.State → Option (Result (List Text) × X.State)
  unfolding scan_pages list_url
  scan fuel wanted s = or_raise (list_url wanted) (λ url t. scan_pages fuel wanted url t) s

  -- The methods with some `scan`, as an implementation of the interface.
  abbrev pub async_s3_blob : (Text → Exec X.State (List Text)) → Blob
  async_s3_blob scan = record {
    State = X.State;
    put = put;
    get = get;
    delete = delete;
    exists = exists;
    scan = scan;
  }
