-- ===== src/S3.antt =====
-- src/gufo/blob/sync/s3.py: a store in a bucket of an S3 service. The HTTP client with its signed
-- headers, the percent encoding of urllib and the XML parser expat are parameters.
pub mod Xml
pub mod Url
pub mod Info
pub mod Sign
pub mod Request
pub mod Errors
pub mod Listing
pub mod Pages
pub mod Scan
pub mod Keys
mod Tests
use gufo_blob.Base.{
  ℕ, zero, suc, map, ◌≡◌, Bool, true, false, ◌&&◌, not, List, [], ◌∷◌, ◌++◌, Option, none, some,
  ◌==◌, if◌then◌else◌, Text, Bytes, codes, text_eq, starts_with, length, drop,
}
use gufo_blob.Base.Result.{
  Result, ok, err, bind, Error, Exec, pure, raise, lift, ◌>>=◌, ◌>>◌, key_error, blob_error,
  keys_not_together,
}
use gufo_blob.Blob.{Blob}
use gufo_blob.Ftp.Common.Methods.{strip_right, last_or}
use gufo_blob.S3.Xml.{Expat, from_xml, list_objects}

-- S3 HTTP status codes
abbrev pub s3_ok : ℕ
s3_ok = 200

abbrev pub s3_created : ℕ
s3_created = 200

abbrev pub s3_deleted : ℕ
s3_deleted = 204

abbrev pub s3_not_found : ℕ
s3_not_found = 404

pub record Response : Type 0 where
  pub status : ℕ
  pub content : Bytes

pub data Method : Type 0 where
  http_put : Bytes → Method
  http_get http_head http_delete : Method

-- The code that is not read here: making and entering an HTTP client, which may raise; one request,
-- which raises BlobError where the client fails; the percent encoding, which raises where UTF-8 does
-- not encode the text; and the parser of XML.
pub record Service : Type 1 where
  pub State : Type 0
  pub open_client : Exec State (Unit {0})
  pub request : Method → Text → Exec State Response
  pub quote : Text → Text → Result Text
  pub parse_xml : Expat

pub record S3Blob : Type 0 where
  pub bucket : Text
  pub prefix : Text
  pub endpoint : Text
  pub region : Text
  pub access_key : Option Text
  pub secret_key : Option Text

-- `bool(s)` of an optional text
abbrev pub is_set : Option Text → Bool
is_set none = false
is_set (some []) = false
is_set (some (c ∷ s)) = true

abbrev pub or_default : Text → Text → Text
or_default [] d = d
or_default (c ∷ s) d = c ∷ s

abbrev pub same : Bool → Bool → Bool
same true b = b
same false b = not b

-- `__init__`
unfoldable pub init : Text → Text → Text → Text → Option Text → Option Text → Result S3Blob
init bucket prefix endpoint region access_key secret_key =
    if same (is_set access_key) (is_set secret_key)
    then ok record {
      bucket = bucket;
      prefix = prefix;
      endpoint = or_default endpoint (codes "https://s3.amazonaws.com");
      region = region;
      access_key = access_key;
      secret_key = secret_key;
    }
    else err (blob_error keys_not_together)

-- `s.endswith("/")`
unfoldable pub ends_with_slash : Text → Bool
unfolding last_or
ends_with_slash [] = false
ends_with_slash (c ∷ s) = last_or c (c ∷ s) == b'/'

-- The prefix with the slash that ends it: what the key is put behind, and what is taken off again.
unfoldable pub prefix_raw : Text → Text
unfolding ends_with_slash
prefix_raw [] = []
prefix_raw (c ∷ s) = if ends_with_slash (c ∷ s) then c ∷ s else c ∷ s ++ b'/' ∷ []

-- `full_key` of `_endpoint_host`: the empty key stands for the prefix as it is given.
unfoldable pub full_key : Text → Text → Text
unfolding prefix_raw
full_key prefix [] = prefix
full_key prefix (c ∷ key) = prefix_raw prefix ++ c ∷ key

-- `full` of `_list_url`
unfoldable pub full_prefix : Text → Text → Text
unfolding prefix_raw
full_prefix prefix wanted = prefix_raw prefix ++ wanted

unfoldable pub strip_prefix : Text → Text → Text
unfolding prefix_raw
strip_prefix prefix key =
    let raw = prefix_raw prefix in if starts_with key raw then drop (length raw) key else key

-- The keys of a page before those of the pages behind it; an exception ends the generator.
abbrev pub prepend {ℓ} :
    {S : Type ℓ} → List Text → Option (Result (List Text) × S) → Option (Result (List Text) × S)
prepend keys none = none
prepend keys (some (ok rest, t)) = some (ok (keys ++ rest), t)
prepend keys (some (err e, t)) = some (err e, t)

-- What is done with a value, if it is not an exception
abbrev pub or_raise :
    {A B S : Type 0} → Result A → (A → S → Option (Result B × S)) → S → Option (Result B × S)
or_raise (ok a) next s = next a s
or_raise (err e) next s = some (err e, s)

-- What is done after a call, if it does not raise
abbrev pub after :
    {B S : Type 0} → Result (Unit {0}) × S → (S → Option (Result B × S)) → Option (Result B × S)
after (ok tt, t) next = next t
after (err e, t) next = some (err e, t)

abbrev pub or_raise_at :
    {B S : Type 0} → Exec S (Unit {0}) → (S → Option (Result B × S)) → S → Option (Result B × S)
or_raise_at m next s = after (m s) next

module _ (X : Service) (b : S3Blob) where
  unfoldable pub endpoint_host : Text → Result Text
  unfolding strip_right full_key
  endpoint_host key =
      bind (X.quote (codes "/-_.~") (full_key b.prefix key))
        λ encoded. ok (strip_right b'/' b.endpoint ++ b'/' ∷ (b.bucket ++ b'/' ∷ encoded))

  unfoldable pub list_url : Text → Result Text
  unfolding strip_right full_prefix
  list_url wanted = bind (X.quote [] (full_prefix b.prefix wanted)) λ encoded.
      ok (
        strip_right b'/' b.endpoint ++ b'/' ∷ (b.bucket ++ codes "?list-type=2&prefix=" ++ encoded))

  unfoldable pub put : Text → Bytes → Exec X.State (Unit {0})
  unfolding endpoint_host from_xml
  put key bytes = do
    url ← lift (endpoint_host key)
    X.open_client
    resp ← X.request (http_put bytes) url
    if resp.status == s3_created then pure tt else raise (from_xml X.parse_xml resp.content)

  unfoldable pub get : Text → Exec X.State Bytes
  unfolding endpoint_host from_xml
  get key = do
    url ← lift (endpoint_host key)
    X.open_client
    resp ← X.request http_get url
    if resp.status == s3_ok
        then pure resp.content
        else if resp.status == s3_not_found
        then raise (key_error key)
        else raise (from_xml X.parse_xml resp.content)

  unfoldable pub delete_checked : Text → Exec X.State (Unit {0})
  unfolding from_xml
  delete_checked url = do
    resp ← X.request http_delete url
    if resp.status == s3_deleted then pure tt else raise (from_xml X.parse_xml resp.content)

  unfoldable pub delete : Text → Exec X.State (Unit {0})
  unfolding endpoint_host delete_checked from_xml
  delete key = do
    url ← lift (endpoint_host key)
    X.open_client
    check ← X.request http_head url
    if check.status == s3_not_found
        then raise (key_error key)
        else if check.status == s3_ok
        then delete_checked url
        else raise (from_xml X.parse_xml check.content)

  unfoldable pub exists : Text → Exec X.State Bool
  unfolding endpoint_host from_xml
  exists key = do
    url ← lift (endpoint_host key)
    X.open_client
    resp ← X.request http_head url
    if resp.status == s3_ok
        then pure true
        else if resp.status == s3_not_found
        then pure false
        else raise (from_xml X.parse_xml resp.content)

  -- One page of `scan`
  unfoldable pub page : Text → Exec X.State (List Text × Option Text)
  unfolding from_xml list_objects
  page url = do
    resp ← X.request http_get url
    if resp.status == s3_ok
        then lift (list_objects X.parse_xml resp.content)
        else raise (from_xml X.parse_xml resp.content)

  unfoldable pub next_url : Text → Text → Result Text
  unfolding list_url
  next_url wanted token = bind (X.quote [] token) λ continuation.
      bind (list_url wanted) λ url. ok (url ++ codes "&continuation-token=" ++ continuation)

  -- The keys of a page, and the pages behind it if there is a token
  unfoldable pub then_next :
      (Text → X.State → Option (Result (List Text) × X.State))
      → Result (List Text × Option Text) × X.State
      → Option (Result (List Text) × X.State)
  unfolding strip_prefix
  then_next rest (err e, t) = some (err e, t)
  then_next rest (ok (keys, none), t) = some (ok (map (strip_prefix b.prefix) keys), t)
  then_next rest (ok (keys, some token), t) =
      prepend (map (strip_prefix b.prefix) keys) (rest token t)

  -- The loop of `scan`, run to its end, or to no result where the fuel does not suffice.
  unfoldable pub scan_pages : ℕ → Text → Text → X.State → Option (Result (List Text) × X.State)
  unfolding page next_url then_next
  scan_pages zero wanted url s = none
  scan_pages (suc fuel) wanted url s =
      then_next
        (λ token. or_raise (next_url wanted token) (λ next t. scan_pages fuel wanted next t))
        (page url s)

  -- `scan`
  unfoldable pub scan : ℕ → Text → X.State → Option (Result (List Text) × X.State)
  unfolding scan_pages list_url
  scan fuel wanted s =
      or_raise (list_url wanted)
        (λ url. or_raise_at X.open_client (λ t. scan_pages fuel wanted url t)) s

  -- The methods with some `scan`, as an implementation of the interface.
  abbrev pub s3_blob : (Text → Exec X.State (List Text)) → Blob
  s3_blob scan = record {
    State = X.State;
    put = put;
    get = get;
    delete = delete;
    exists = exists;
    scan = scan;
  }
