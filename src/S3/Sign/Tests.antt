-- ===== src/S3/Sign/Tests.antt =====
-- `sign_request` with the small urllib, digests that are the data itself and a clock that stands still.
use gufo_blob.Base.{none, true, [], ◌∷◌, ◌++◌, some, Text, codes, ◌≡◌, refl, arith}
use mathlib.Core.List.{Permᴰ}
use gufo_blob.Base.Result.{ok, err, os_exception, connection_lost}
use gufo_blob.S3.{S3Blob, full_key, put, get, delete, exists, scan}
use gufo_blob.S3.Request.{Client, service}
use gufo_blob.S3.Errors.Rules.{Allowed, AllowedScan}
use gufo_blob.S3.Errors.{service-Allowed}
use gufo_blob.Ftp.Common.Utf8.{encode}
use gufo_blob.Ftp.Common.Methods.{split, join}
use gufo_blob.Url.Sample.{
  sample, cut, flat_pairs, unquote, decode, urlparse, with_scheme, with_parts, path_of, url_of,
}
use gufo_blob.S3.Sign.{Tools, sign_request}
use gufo_blob.S3.Sign.Sorting.{sign_request-Perm}
use gufo_blob.S3.Sign.Canonical.{Parts, IsUnbroken, canonical_request-injective}

abbrev plain_tools : Tools
plain_tools = record {
  urllib = sample;
  sha256 = λ s. s;
  hmac = λ key s. key ++ s;
  hex = λ s. s;
  lower = λ s. s;
  upper = λ s. s;
  Time = Unit;
  strftime = λ now format. codes "20260101";
}

abbrev first_url : Text
first_url = codes "https://h/b?a=1&c=2"

abbrev second_url : Text
second_url = codes "https://h/b?c=2&a=1"

swapped : Permᴰ (sample.parse_qsl true (codes "a=1&c=2")) (sample.parse_qsl true (codes "c=2&a=1"))
unfolding sample flat_pairs split join cut unquote decode
swapped = Permᴰ.swap refl refl

first_parsed :
    sample.urlsplit first_url
    ≡ ok (url_of (codes "https") (some (codes "h")) (codes "/b") (codes "a=1&c=2"))
unfolding sample urlparse split join cut with_scheme with_parts path_of
first_parsed = refl

second_parsed :
    sample.urlsplit second_url
    ≡ ok (url_of (codes "https") (some (codes "h")) (codes "/b") (codes "c=2&a=1"))
unfolding sample urlparse split join cut with_scheme with_parts path_of
second_parsed = refl

sign_request-Perm_example :
    sign_request plain_tools tt
      (codes "GET")
      first_url
      []
      (codes "eu")
      (some (codes "user"), some (codes "key"))
    ≡ sign_request plain_tools tt
        (codes "GET")
        second_url
        []
        (codes "eu")
        (some (codes "user"), some (codes "key"))
sign_request-Perm_example =
    sign_request-Perm plain_tools tt (codes "GET") first_url second_url [] (codes "eu")
      (some (codes "user"), some (codes "key"))
      (url_of (codes "https") (some (codes "h")) (codes "/b") (codes "a=1&c=2"))
      (url_of (codes "https") (some (codes "h")) (codes "/b") (codes "c=2&a=1")) first_parsed
      second_parsed refl refl swapped

abbrev get_request : Parts
get_request = record {
  method = codes "GET";
  uri = codes "/b";
  query = codes "a=1";
  host = codes "h";
  payload = codes "0";
  amz_date = codes "1";
}

get_request-IsUnbroken : IsUnbroken get_request
get_request-IsUnbroken = (
  (ground arith, (ground arith, (ground arith, tt))),
  (ground arith, (ground arith, tt)),
  (ground arith, (ground arith, (ground arith, tt))),
  (ground arith, tt),
  (ground arith, tt),
  (ground arith, tt),
)

canonical_request-injective_example : get_request ≡ get_request
canonical_request-injective_example =
    canonical_request-injective get_request get_request get_request-IsUnbroken
      get_request-IsUnbroken refl

abbrev broken : Client
broken = record {
  tools = plain_tools;
  parse_xml = λ body. none;
  State = Unit;
  now = λ s. tt;
  open_client = λ s. (ok tt, s);
  send = λ method url headers s. (err (os_exception connection_lost), s);
}

abbrev signed_blob : S3Blob
signed_blob = record {
  bucket = codes "b";
  prefix = [];
  endpoint = codes "https://h";
  region = codes "eu";
  access_key = some (codes "user");
  secret_key = some (codes "key");
}

service-Allowed_example :
    let X = service broken signed_blob in
    let unicode = encode (full_key [] (codes "k")) ≡ none in
    Allowed unicode none (put X signed_blob (codes "k") (1 ∷ []) tt).0
    × Allowed unicode (some (codes "k")) (get X signed_blob (codes "k") tt).0
    × Allowed unicode (some (codes "k")) (delete X signed_blob (codes "k") tt).0
    × Allowed unicode none (exists X signed_blob (codes "k") tt).0
    × AllowedScan (scan X signed_blob 2 (codes "k") tt)
service-Allowed_example = service-Allowed broken (λ s. refl) signed_blob (codes "k") (1 ∷ []) 2 tt
