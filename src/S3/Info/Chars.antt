-- ===== src/S3/Info/Chars.antt =====
-- The characters of what `S3Info.url` writes.
use gufo_blob.Base.{
  ℕ, Bool, if◌then◌else◌, true, ◌&&◌, ◌||◌, ◌==◌, leb, [], ◌∷◌, ◌++◌, Option, some, Text, codes,
  All, All-append, map, text_eq, text_eq_refl, ◌≡◌, ◌≢◌, refl, arith,
}
use gufo_blob.Base.Dict.{Dict}
use gufo_blob.Base.Result.{err, blob_error, invalid_scheme}
use gufo_blob.Ftp.Common.Methods.{strip_left, join}
use gufo_blob.Ftp.Common.Methods.Laws.{Lacks}
use gufo_blob.Utils.Decimal.{decimal, decimal-digits, IsDigit}
use gufo_blob.Url.{Url, Urllib, option_or}
use gufo_blob.Url.Laws.{has_code, is_kept}
use gufo_blob.Url.Encoding.{IsHost, IsQuoted, IsQuery, IsParam, param}
use gufo_blob.S3.Url.{fullmatch_bucket, all_bucket_chars, with_bucket, kwargs}
use gufo_blob.S3.Info.{S3Info, endpoint, s3_safe_chars}

pub all_bucket_chars-IsHost : (s : Text) → all_bucket_chars s ≡ true → IsHost s
unfolding all_bucket_chars
all_bucket_chars-IsHost [] h = tt
all_bucket_chars-IsHost (c ∷ s) h = (ground arith, all_bucket_chars-IsHost s (ground arith))

pub fullmatch_bucket-IsHost : (s : Text) → fullmatch_bucket s ≡ true → IsHost s
unfolding fullmatch_bucket
fullmatch_bucket-IsHost [] h = tt
fullmatch_bucket-IsHost (c ∷ s) h = (ground arith, all_bucket_chars-IsHost s (ground arith))

pub fullmatch_bucket-ne-nil : (s : Text) → fullmatch_bucket s ≡ true → s ≢ []
unfolding fullmatch_bucket
fullmatch_bucket-ne-nil [] h e = ground arith
fullmatch_bucket-ne-nil (c ∷ s) h e = ground arith

pub with_bucket-kwargs :
    (U : Urllib) (s : Text) (u : Url) → s ≢ [] → with_bucket U s u ≡ kwargs U s u
unfolding with_bucket
with_bucket-kwargs U [] u h = absurd (h refl)
with_bucket-kwargs U (c ∷ s) u h = refl

pub host-Lacks : (s : Text) → IsHost s → Lacks b'%' s
host-Lacks [] h = tt
host-Lacks (c ∷ s) (h, hs) = (ground arith, host-Lacks s hs)

pub option_or-some : (s : Text) → s ≢ [] → option_or (some s) [] ≡ s
option_or-some [] h = refl
option_or-some (c ∷ s) h = refl

pub by_scheme_lem :
    (U : Urllib) (u : Url) (scheme bucket : Text) (o : Option Text)
    → scheme ≡ codes "s3"
    → o ≡ some bucket
    → bucket ≢ []
    → (if text_eq scheme (codes "s3")
        then with_bucket U (U.unquote (option_or o [])) u
        else err (blob_error invalid_scheme))
      ≡ with_bucket U (U.unquote bucket) u
by_scheme_lem U u scheme bucket o e k h =
    rw (e, k, text_eq_refl (codes "s3"), option_or-some bucket h) refl

pub safe-IsQuoted : (s : Text) → All (λ c. is_kept c s3_safe_chars ≡ true) s → IsQuoted s
unfolding is_kept has_code
safe-IsQuoted [] h = tt
safe-IsQuoted (c ∷ s) (h, hs) = (ground arith, safe-IsQuoted s hs)

pub IsQuoted-IsQuery : (s : Text) → IsQuoted s → IsQuery s
unfolding is_kept has_code
IsQuoted-IsQuery [] h = tt
IsQuoted-IsQuery (c ∷ s) (h, hs) = (ground arith, IsQuoted-IsQuery s hs)

pub digits-IsQuoted : (s : Text) → All IsDigit s → IsQuoted s
unfolding is_kept has_code
digits-IsQuoted [] h = tt
digits-IsQuoted (c ∷ s) (h, hs) = (ground arith, digits-IsQuoted s hs)

pub join-IsQuery :
    (params : Dict Text) → All IsParam params → IsQuery (join b'&' (map param params))
unfolding join is_kept has_code
join-IsQuery [] h = tt
join-IsQuery ((name, value) ∷ []) ((h, _, k), _) =
    All-append _ name (b'=' ∷ value) (IsQuoted-IsQuery name h) (refl, IsQuoted-IsQuery value k)
join-IsQuery ((name, value) ∷ p ∷ ps) ((h, _, k), hs) =
    All-append _ (param (name, value)) (b'&' ∷ join b'&' (map param (p ∷ ps)))
      (All-append _ name (b'=' ∷ value) (IsQuoted-IsQuery name h) (refl, IsQuoted-IsQuery value k))
      (refl, join-IsQuery (p ∷ ps) hs)

pub endpoint-IsQuoted : (i : S3Info) → IsQuoted i.host → IsQuoted (endpoint i)
unfolding endpoint is_kept has_code
endpoint-IsQuoted i h =
    All-append _ (codes "http://") (i.host ++ b':' ∷ decimal i.port)
      (refl, (refl, (refl, (refl, (refl, (refl, (refl, tt)))))))
      (All-append _ i.host (b':' ∷ decimal i.port) h
        (refl, digits-IsQuoted (decimal i.port) (decimal-digits i.port)))

pub digits-Lacks : (s : Text) → All IsDigit s → Lacks b'%' s
digits-Lacks [] h = tt
digits-Lacks (c ∷ s) (h, hs) = (ground arith, digits-Lacks s hs)

pub endpoint-Lacks : (i : S3Info) → Lacks b'%' i.host → Lacks b'%' (endpoint i)
unfolding endpoint
endpoint-Lacks i h =
    All-append _ (codes "http://") (i.host ++ b':' ∷ decimal i.port)
      (
        ground arith,
        (
          ground arith,
          (ground arith, (ground arith, (ground arith, (ground arith, (ground arith, tt))))),
        ),
      )
      (All-append _ i.host (b':' ∷ decimal i.port) h
        (ground arith, digits-Lacks (decimal i.port) (decimal-digits i.port)))

-- Names of parameters: lower case letters and underscores
unfoldable pub is_name : Text → Bool
is_name [] = true
is_name (c ∷ s) = (leb b'a' c && leb c b'z' || (c == b'_')) && is_name s

pub name-IsQuoted : (s : Text) → is_name s ≡ true → IsQuoted s
unfolding is_name is_kept has_code
name-IsQuoted [] h = tt
name-IsQuoted (c ∷ s) h = (ground arith, name-IsQuoted s (ground arith))

pub name-Lacks : (s : Text) → is_name s ≡ true → Lacks b'%' s
unfolding is_name
name-Lacks [] h = tt
name-Lacks (c ∷ s) h = (ground arith, name-Lacks s (ground arith))

pub strip_left-other : (d : ℕ) (q : Text) → d ≢ b'/' → strip_left b'/' (d ∷ q) ≡ d ∷ q
unfolding strip_left
strip_left-other d q n = ground arith
