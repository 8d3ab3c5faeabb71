-- ===== src/S3/Sign.antt =====
-- `sign_request` of src/gufo/blob/common/s3.py. The digests, the clock and the letter cases of Unicode
-- are parameters. `quote` is given parts of a URL that is made already, which has no lone surrogate.
pub mod Sorting
pub mod Canonical
mod Tests
use gufo_blob.Base.{
  ℕ, Bool, true, false, ◌&&◌, ◌==◌, ltb, List, [], ◌∷◌, ◌++◌, Option, none, some, if◌then◌else◌,
  Text, Bytes, codes, text_eq, map,
}
use gufo_blob.Base.Dict.{Dict, keys}
use gufo_blob.Base.Result.{Result, ok, bind}
use gufo_blob.Ftp.Common.Methods.{join}
use gufo_blob.Url.{Url, Urllib, text_or, encoded}

-- `sha256(data).digest()`, `hmac.new(key, data, sha256).digest()`, `bytes.hex`, the methods of texts, and
-- `strftime` of the time that the clock gives
pub record Tools : Type 1 where
  pub urllib : Urllib
  pub sha256 : Bytes → Bytes
  pub hmac : Bytes → Bytes → Bytes
  pub hex : Bytes → Text
  pub lower : Text → Text
  pub upper : Text → Text
  pub Time : Type 0
  pub strftime : Time → Text → Text

-- The order of texts
unfoldable pub text_leb : Text → Text → Bool
text_leb [] k = true
text_leb (a ∷ p) [] = false
text_leb (a ∷ p) (c ∷ k) = if a == c then text_leb p k else ltb a c

-- The order of pairs of texts
unfoldable pub pair_leb : Text × Text → Text × Text → Bool
unfolding text_leb
pair_leb (k, v) (j, w) = if text_eq k j then text_leb v w else text_leb k j

module _ {A : Type 0} (leb : A → A → Bool) where
  unfoldable pub insert_sorted : A → List A → List A
  insert_sorted x [] = x ∷ []
  insert_sorted x (y ∷ ys) = if leb x y then x ∷ y ∷ ys else y ∷ insert_sorted x ys

  unfoldable pub sorted : List A → List A
  unfolding insert_sorted
  sorted [] = []
  sorted (x ∷ xs) = insert_sorted x (sorted xs)

-- `f"{k}:{v}\n"`
abbrev pub header_line : Text × Text → Text
header_line (k, v) = k ++ b':' ∷ v ++ b'\n' ∷ []

-- `"".join(texts)`
unfoldable pub concat : List Text → Text
concat [] = []
concat (s ∷ ss) = s ++ concat ss

unfoldable pub canonical_headers : Dict Text → Text
unfolding concat sorted pair_leb
canonical_headers headers = concat (map header_line (sorted pair_leb headers))

unfoldable pub signed_headers : Dict Text → Text
unfolding join sorted text_leb keys
signed_headers headers = join b';' (sorted text_leb (keys headers))

unfoldable pub headers_of : Text → Text → Text → Dict Text
headers_of host payload_hash amz_date =
    (codes "host", host)
    ∷ (codes "x-amz-content-sha256", payload_hash)
    ∷ (codes "x-amz-date", amz_date)
    ∷ []

-- `f"{k}={v}"`
abbrev pub query_param : Text × Text → Text
query_param (k, v) = k ++ b'=' ∷ v

abbrev pub quoted_param : Urllib → Text × Text → Text × Text
quoted_param U (k, v) = (U.quote k (codes "-_.~"), U.quote v (codes "-_.~"))

unfoldable pub canonical_uri : Urllib → Text → Text
canonical_uri U path = U.quote (U.unquote (text_or path (codes "/"))) (codes "/-_.~")

unfoldable pub canonical_query : Urllib → Text → Text
unfolding join sorted pair_leb
canonical_query U query =
    join b'&' (map query_param (sorted pair_leb (map (quoted_param U) (U.parse_qsl true query))))

unfoldable pub canonical_request : Text → Text → Text → Dict Text → Text → Text
unfolding join canonical_headers signed_headers
canonical_request method uri query headers payload_hash =
    join b'\n' (
      method ∷ uri ∷ query ∷ canonical_headers headers ∷ signed_headers headers ∷ payload_hash ∷ [])

-- `if not access_key or not secret_key`
abbrev pub usable : Option Text → Option Text → Option (Text × Text)
usable (some (a ∷ access)) (some (s ∷ secret)) = some (a ∷ access, s ∷ secret)
usable (some (a ∷ access)) (some []) = none
usable (some (a ∷ access)) none = none
usable (some []) secret = none
usable none secret = none

module _ (T : Tools) (now : T.Time) where
  abbrev pub amz_date : Text
  amz_date = T.strftime now (codes "%Y%m%dT%H%M%SZ")

  abbrev pub date : Text
  date = T.strftime now (codes "%Y%m%d")

  -- `_hmac`
  unfoldable pub hmac_text : Bytes → Text → Result Bytes
  unfolding encoded
  hmac_text key value = bind (encoded value) λ v. ok (T.hmac key v)

  unfoldable pub signing_key : Text → Text → Result Bytes
  unfolding hmac_text encoded
  signing_key region secret = bind (encoded (codes "AWS4" ++ secret)) λ key.
      bind (hmac_text key date) λ by_date. bind (hmac_text by_date region) λ by_region.
        bind (hmac_text by_region (codes "s3"))
          λ by_service. hmac_text by_service (codes "aws4_request")

  unfoldable pub scope_of : Text → Text
  scope_of region = date ++ b'/' ∷ region ++ codes "/s3/aws4_request"

  unfoldable pub string_to_sign : Text → Text → Result Text
  unfolding encoded join
  string_to_sign scope request = bind (encoded request) λ bytes.
      ok (join b'\n' (codes "AWS4-HMAC-SHA256" ∷ amz_date ∷ scope ∷ T.hex (T.sha256 bytes) ∷ []))

  unfoldable pub authorization_of : Text → Text → Text → Text → Text
  authorization_of access scope signed signature =
      codes "AWS4-HMAC-SHA256 Credential="
      ++ access
      ++ b'/' ∷ scope
      ++ codes ", SignedHeaders="
      ++ signed
      ++ codes ", Signature="
      ++ signature

  -- what is signed, with the host, the path and the query of the URL
  unfoldable pub request_of : Text → Text → Text → Text → Text → Text
  unfolding canonical_request canonical_uri canonical_query headers_of
  request_of method netloc path query payload_hash =
      canonical_request (T.upper method) (canonical_uri T.urllib path)
        (canonical_query T.urllib query) (headers_of (T.lower netloc) payload_hash amz_date)
        payload_hash

  unfoldable pub headers_with : Text → Text → Text → Text → Text → Text → Result (Dict Bytes)
  unfolding signing_key string_to_sign authorization_of signed_headers headers_of scope_of encoded
  headers_with request host payload_hash region access secret =
      let scope = scope_of region in
      let signed = signed_headers (headers_of host payload_hash amz_date) in
      bind (string_to_sign scope request) λ text. bind (signing_key region secret) λ key.
        bind (encoded text) λ message. bind (encoded payload_hash) λ payload.
          bind (encoded amz_date) λ stamp.
            bind (encoded (authorization_of access scope signed (T.hex (T.hmac key message))))
              λ authorization. ok (
                (codes "x-amz-content-sha256", payload)
                ∷ (codes "x-amz-date", stamp)
                ∷ (codes "authorization", authorization)
                ∷ [])

  abbrev pub sign_with : Text → Text → Bytes → Text → Option (Text × Text) → Result (Dict Bytes)
  sign_with method url body region none = ok []
  sign_with method url body region (some (access, secret)) = bind (T.urllib.urlsplit url) λ parsed.
      let payload_hash = T.hex (T.sha256 body) in
      headers_with (request_of method parsed.netloc parsed.path parsed.query payload_hash)
        (T.lower parsed.netloc) payload_hash region access secret

  unfoldable pub sign_request :
      Text → Text → Bytes → Text → Option Text × Option Text → Result (Dict Bytes)
  unfolding headers_with request_of
  sign_request method url body region (access, secret) =
      sign_with method url body region (usable access secret)
