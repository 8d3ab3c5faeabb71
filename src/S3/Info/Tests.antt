-- ===== src/S3/Info/Tests.antt =====
-- `S3Info.url`, read back by the small urllib.
use gufo_blob.Base.{[], some, ◌≡◌, refl, true, false, arith, codes, length}
use gufo_blob.Base.Result.{ok, bind}
use gufo_blob.Ftp.Common.Methods.{last_or, strip_left}
use gufo_blob.Ftp.Common.Utf8.{encode}
use gufo_blob.Ftp.Common.Methods.Laws.{Lacks}
use gufo_blob.Url.Laws.{has_code, is_kept}
use gufo_blob.Url.Encoding.{IsQuoted, IsEncodable}
use gufo_blob.Url.Sample.{sample}
use gufo_blob.Url.Sample.Encodes.{sample-IsEncoding}
use gufo_blob.S3.Url.{parse_url, all_bucket_chars, fullmatch_bucket, has_slashes, collapse}
use gufo_blob.S3.Url.Slashes.{squeeze, collapse-length}
use gufo_blob.S3.Info.{S3Info, url}
use gufo_blob.S3.Info.RoundTrip.{read_back, parse_url-url}

abbrev local : S3Info
local = record {
  host = codes "localhost";
  port = 5555;
  bucket = codes "my-bucket";
  prefix = [];
  access_key = some (codes "user/1");
  secret_key = some (codes "a b");
}

host-IsQuoted : IsQuoted (codes "localhost")
unfolding is_kept has_code
host-IsQuoted = (refl, (refl, (refl, (refl, (refl, (refl, (refl, (refl, (refl, tt)))))))))

host-Lacks_percent : Lacks b'%' (codes "localhost")
host-Lacks_percent = (
  ground arith,
  (
    ground arith,
    (
      ground arith,
      (
        ground arith,
        (ground arith, (ground arith, (ground arith, (ground arith, (ground arith, tt))))),
      ),
    ),
  ),
)

bucket_matches : fullmatch_bucket (codes "my-bucket") ≡ true
unfolding fullmatch_bucket all_bucket_chars last_or
bucket_matches = refl

user-IsEncodable : IsEncodable (codes "user/1")
unfolding encode
user-IsEncodable = (codes "user/1", refl)

key-IsEncodable : IsEncodable (codes "a b")
unfolding encode
key-IsEncodable = (codes "a b", refl)

prefix-IsEncodable : IsEncodable (strip_left b'/' (codes "/a//b"))
unfolding encode strip_left
prefix-IsEncodable = (codes "a//b", refl)

parse_url-url_example :
    bind (url sample local (some (codes "/a//b"))) (parse_url sample)
    ≡ ok (read_back local (codes "/a//b"))
parse_url-url_example =
    parse_url-url sample sample-IsEncoding local host-IsQuoted host-Lacks_percent user-IsEncodable
      key-IsEncodable (some (codes "/a//b")) bucket_matches prefix-IsEncodable

collapse-length_example :
    let p = codes "a//b///c" in
    (has_slashes (collapse (length p) p) ≡ false) × (collapse (length p) p ≡ squeeze p)
collapse-length_example = collapse-length (codes "a//b///c")
