-- ===== src/S3/Info/RoundTrip.antt =====
-- `parse_url` of what `S3Info.url` writes.
use gufo_blob.Base.{
  true, [], ◌∷◌, ◌++◌, Option, Text, codes, All, All-append, map, text_eq, ◌≡◌, refl, arith, length,
  ◌∙◌, ap,
}
use gufo_blob.Base.Dict.{Dict, lookup}
use gufo_blob.Base.Result.{ok, bind}
use gufo_blob.Ftp.Common.Methods.{strip_left, join}
use gufo_blob.Ftp.Common.Methods.Laws.{Lacks}
use gufo_blob.Url.{Url, Urllib, get_first, first_value}
use gufo_blob.Url.Encoding.{IsEncodable, IsQuoted, IsPath, IsParam, IsEncoding, param, unquoted}
use gufo_blob.S3.Url.{
  Kwargs, fullmatch_bucket, collapse, default_region, parse_url, with_bucket, kwargs,
}
use gufo_blob.S3.Info.{S3Info, endpoint, prefix_or, url, s3_safe_chars}
use gufo_blob.S3.Info.Chars.{
  fullmatch_bucket-IsHost, fullmatch_bucket-ne-nil, with_bucket-kwargs, host-Lacks, by_scheme_lem,
  safe-IsQuoted, join-IsQuery, endpoint-IsQuoted, endpoint-Lacks, is_name, name-IsQuoted,
  name-Lacks,
}
use gufo_blob.S3.Info.Params.{
  path_text, path_part-ok, Encodable, credential, key_param, extras_lem, key_param-IsParam,
  key_params-NodupKeys, prefix_of_lem, text_of-credential, all_params, first_region, first_access,
  first_secret,
}

-- What `parse_url` reads of the URL for a prefix
abbrev pub read_back : S3Info → Text → Kwargs
read_back i p = record {
  bucket = i.bucket;
  prefix = collapse (length (strip_left b'/' p)) (strip_left b'/' p);
  endpoint = endpoint i;
  region = default_region;
  access_key = credential i.access_key;
  secret_key = credential i.secret_key;
}

module _ (U : Urllib) (L : IsEncoding U) where
  module _ (i : S3Info) (h : IsQuoted i.host) (k : Lacks b'%' i.host)
      (access : Encodable i.access_key) (secret : Encodable i.secret_key) where
    params : Dict Text
    params = all_params U L (endpoint i) i.access_key i.secret_key

    params-IsParam : All IsParam params
    unfolding params is_name
    params-IsParam = (
      (
        name-IsQuoted (codes "endpoint") refl,
        name-Lacks (codes "endpoint") refl,
        endpoint-IsQuoted i h,
      ),
      All-append IsParam (key_param U L (codes "access_key") i.access_key)
          (key_param U L (codes "secret_key") i.secret_key)
          (key_param-IsParam U L (codes "access_key") i.access_key refl)
          (key_param-IsParam U L (codes "secret_key") i.secret_key refl),
    )

    get_first_lem :
        (name default : Text)
        → get_first (U.parse_qs true (join b'&' (map param params))) name default
          ≡ first_value default (unquoted U.unquote (lookup name params))
    unfolding get_first params
    get_first_lem name default = ap (first_value default) (
        L.parse_qs_join params name (λ e. ground arith) params-IsParam
          (key_params-NodupKeys U L (endpoint i) i.access_key i.secret_key))

    path_text-IsPath : (p : Text) → IsPath (path_text U L p)
    path_text-IsPath [] = tt
    path_text-IsPath (c ∷ p) =
        (refl, safe-IsQuoted _ (L.quote_kept (strip_left b'/' (c ∷ p)) s3_safe_chars))

    url_lem :
        (o : Option Text)
        → IsEncodable (strip_left b'/' (prefix_or o i.prefix))
        → url U i o
          ≡ ok (
              codes "s3://"
              ++ i.bucket
              ++ path_text U L (prefix_or o i.prefix)
              ++ b'?' ∷ join b'&' (map param params))
    unfolding url params join
    url_lem o h =
        rw (path_part-ok U L (prefix_or o i.prefix) h, extras_lem U L i access secret) refl

    first_endpoint :
        first_value [] (unquoted U.unquote (lookup (codes "endpoint") params)) ≡ ok (endpoint i)
    unfolding lookup text_eq params
    first_endpoint = ap ok (L.unquote_plain (endpoint i) (endpoint-Lacks i k))

    kwargs_lem :
        (u : Url) (p : Text)
        → IsEncodable (strip_left b'/' p)
        → u.path ≡ path_text U L p
        → u.query ≡ join b'&' (map param params)
        → fullmatch_bucket i.bucket ≡ true
        → kwargs U i.bucket u ≡ ok (read_back i p)
    unfolding kwargs params
    kwargs_lem u p e path query b =
        rw
          (
            query,
            get_first_lem (codes "endpoint") [],
            first_endpoint,
            get_first_lem (codes "region") default_region,
            first_region U L (endpoint i) default_region i.access_key i.secret_key,
            get_first_lem (codes "access_key") [],
            first_access U L (endpoint i) i.access_key i.secret_key access,
            get_first_lem (codes "secret_key") [],
            first_secret U L (endpoint i) i.access_key i.secret_key secret,
            b,
            path,
            prefix_of_lem U L p e,
            text_of-credential U L i.access_key,
            text_of-credential U L i.secret_key,
          )
          refl

    with_bucket_lem :
        (u : Url) (p : Text)
        → IsEncodable (strip_left b'/' p)
        → u.path ≡ path_text U L p
        → u.query ≡ join b'&' (map param params)
        → fullmatch_bucket i.bucket ≡ true
        → with_bucket U (U.unquote i.bucket) u ≡ ok (read_back i p)
    with_bucket_lem u p e path query b =
        rw
          (
            L.unquote_plain i.bucket (host-Lacks i.bucket (fullmatch_bucket-IsHost i.bucket b)),
            with_bucket-kwargs U i.bucket u (fullmatch_bucket-ne-nil i.bucket b),
          )
          (kwargs_lem u p e path query b)

    -- Where the bucket has a name that `parse_url` takes, the host is plain, and UTF-8 encodes the
    -- prefix behind its leading slashes and the credentials, `S3Info.url` returns, and `parse_url` of
    -- its URL gives the bucket, the endpoint, the default region, the credentials with an empty one
    -- read as none, and the prefix, that of the call if there is one, without its leading slashes and
    -- with every run of slashes in it one slash.
    pub parse_url-url :
        (prefix : Option Text)
        → fullmatch_bucket i.bucket ≡ true
        → IsEncodable (strip_left b'/' (prefix_or prefix i.prefix))
        → bind (url U i prefix) (parse_url U) ≡ ok (read_back i (prefix_or prefix i.prefix))
    unfolding parse_url
    parse_url-url prefix b e =
        let (u, parsed, scheme, host, path, query) =
          L.urlparse_s3 i.bucket (path_text U L (prefix_or prefix i.prefix))
            (join b'&' (map param params)) (fullmatch_bucket-IsHost i.bucket b)
            (path_text-IsPath (prefix_or prefix i.prefix)) (join-IsQuery params params-IsParam)
            (fullmatch_bucket-ne-nil i.bucket b) in
        rw (url_lem prefix e, parsed)
          (by_scheme_lem U u u.scheme i.bucket u.hostname scheme host
              (fullmatch_bucket-ne-nil i.bucket b)
            ∙ with_bucket_lem u (prefix_or prefix i.prefix) e path query b)
