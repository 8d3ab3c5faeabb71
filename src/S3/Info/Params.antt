-- ===== src/S3/Info/Params.antt =====
-- The parameters of the URL that `S3Info.url` writes.
use gufo_blob.Base.{
  ℕ, true, ◌==◌, [], ◌∷◌, ◌++◌, Option, none, some, Text, codes, All, map, text_eq, ◌≡◌, ◌≢◌, refl,
  arith, length, sym, ap, ◌⊎◌, inl, inr, Bool-cases,
}
use mathlib.Core.List.{map-append}
use gufo_blob.Base.Dict.{Dict, lookup, NodupKeys}
use gufo_blob.Base.Result.{ok}
use gufo_blob.Ftp.Common.Methods.{strip_left}
use gufo_blob.Ftp.Common.Methods.Laws.{Lacks}
use gufo_blob.Url.{encoded, quoted, Urllib, or_none, first_value}
use gufo_blob.Url.Encoding.{IsEncodable, IsParam, IsEncoding, param, unquoted}
use gufo_blob.S3.Url.{collapse, prefix_of}
use gufo_blob.S3.Info.{S3Info, endpoint, path_part, key_extra, extras, s3_safe_chars}
use gufo_blob.S3.Info.Chars.{safe-IsQuoted, is_name, name-IsQuoted, name-Lacks, strip_left-other}

-- The credentials as the constructor takes them: an empty one is none.
abbrev pub credential : Option Text → Option Text
credential none = none
credential (some s) = or_none s

abbrev pub Encodable : Option Text → Type 0
Encodable none = Unit
Encodable (some s) = IsEncodable s

safe-Lacks : Lacks b'%' s3_safe_chars
safe-Lacks = (
  ground arith,
  (
    ground arith,
    (
      ground arith,
      (
        ground arith,
        (
          ground arith,
          (
            ground arith,
            (ground arith, (ground arith, (ground arith, (ground arith, (ground arith, tt))))),
          ),
        ),
      ),
    ),
  ),
)

module _ (U : Urllib) (L : IsEncoding U) where
  -- The parameters that the query string holds
  abbrev pub key_param : Text → Option Text → Dict Text
  key_param name none = []
  key_param name (some []) = []
  key_param name (some (c ∷ s)) = (name, U.quote (c ∷ s) s3_safe_chars) ∷ []

  abbrev pub key_params : Option Text → Option Text → Dict Text
  key_params access secret =
      key_param (codes "access_key") access ++ key_param (codes "secret_key") secret

  pub quoted-IsEncodable :
      (s : Text) → IsEncodable s → quoted U s s3_safe_chars ≡ ok (U.quote s s3_safe_chars)
  unfolding quoted encoded
  quoted-IsEncodable s (bytes, e) = rw e refl

  pub map-key_param :
      (name : Text) (o : Option Text)
      → Encodable o
      → key_extra U name o ≡ ok (map param (key_param name o))
  map-key_param name none h = refl
  map-key_param name (some []) h = refl
  map-key_param name (some (c ∷ s)) h = rw (quoted-IsEncodable (c ∷ s) h) refl

  -- What `path_part` returns
  abbrev pub path_text : Text → Text
  path_text [] = []
  path_text (c ∷ p) = b'/' ∷ U.quote (strip_left b'/' (c ∷ p)) s3_safe_chars

  pub path_part-ok : (p : Text) → IsEncodable (strip_left b'/' p) → path_part U p ≡ ok (path_text p)
  path_part-ok [] h = refl
  path_part-ok (c ∷ p) h = rw (quoted-IsEncodable (strip_left b'/' (c ∷ p)) h) refl

  pub extras_lem :
      (i : S3Info)
      → Encodable i.access_key
      → Encodable i.secret_key
      → extras U i
        ≡ ok (map param ((codes "endpoint", endpoint i) ∷ key_params i.access_key i.secret_key))
  unfolding extras endpoint
  extras_lem i a s =
      rw
        (
          map-key_param (codes "access_key") i.access_key a,
          map-key_param (codes "secret_key") i.secret_key s,
        )
        (ap (λ ps. ok ((codes "endpoint=" ++ endpoint i) ∷ ps))
          (sym (
            map-append param (key_param (codes "access_key") i.access_key)
              (key_param (codes "secret_key") i.secret_key))))

  pub key_param-IsParam :
      (name : Text) (o : Option Text) → is_name name ≡ true → All IsParam (key_param name o)
  key_param-IsParam name none h = tt
  key_param-IsParam name (some []) h = tt
  key_param-IsParam name (some (c ∷ s)) h = (
    (name-IsQuoted name h, name-Lacks name h, safe-IsQuoted _ (L.quote_kept (c ∷ s) s3_safe_chars)),
    tt,
  )

  pub key_params-NodupKeys :
      (e : Text) (access secret : Option Text)
      → NodupKeys ((codes "endpoint", e) ∷ key_params access secret)
  unfolding lookup text_eq
  key_params-NodupKeys e none none = (refl, tt)
  key_params-NodupKeys e none (some []) = (refl, tt)
  key_params-NodupKeys e none (some (c ∷ s)) = (refl, (refl, tt))
  key_params-NodupKeys e (some []) none = (refl, tt)
  key_params-NodupKeys e (some []) (some []) = (refl, tt)
  key_params-NodupKeys e (some []) (some (c ∷ s)) = (refl, (refl, tt))
  key_params-NodupKeys e (some (c ∷ s)) none = (refl, (refl, tt))
  key_params-NodupKeys e (some (c ∷ s)) (some []) = (refl, (refl, tt))
  key_params-NodupKeys e (some (c ∷ s)) (some (d ∷ t)) = (refl, (refl, (refl, tt)))

  pub strip_left-cases :
      (s : Text)
      → (strip_left b'/' s ≡ []) ⊎ ((c : ℕ) × (r : Text) × (strip_left b'/' s ≡ c ∷ r) × (c ≢ b'/'))
  unfolding strip_left
  strip_left-cases [] = inl refl
  strip_left-cases (c ∷ s) = elim (Bool-cases (c == b'/')) [
    | inl e ↦ rw (e, strip_left) (strip_left-cases s)
    | inr e ↦ inr (c, s, rw (e, strip_left) refl, ground arith)
  ]

  pub strip_left-quote :
      (s : Text)
      → strip_left b'/' (U.quote (strip_left b'/' s) s3_safe_chars)
        ≡ U.quote (strip_left b'/' s) s3_safe_chars
  strip_left-quote s = elim (strip_left-cases s) [
    | inl e ↦ rw (e, L.quote_nil s3_safe_chars) (unfold strip_left in refl)
    | inr (c, r, e, h) ↦
        let (d, q, k, n) = L.quote_first c r s3_safe_chars h in rw (e, k) (strip_left-other d q n)
  ]

  pub prefix_of_lem :
      (p : Text)
      → IsEncodable (strip_left b'/' p)
      → prefix_of U (path_text p) ≡ collapse (length (strip_left b'/' p)) (strip_left b'/' p)
  unfolding strip_left
  prefix_of_lem [] h = rw (L.unquote_plain [] tt) refl
  prefix_of_lem (c ∷ p) h =
      rw
        (
          strip_left-quote (c ∷ p),
          L.unquote_quote (strip_left b'/' (c ∷ p)) s3_safe_chars safe-Lacks h,
        )
        refl

  -- `o or ""`
  abbrev pub text_of : Option Text → Text
  text_of none = []
  text_of (some s) = s

  pub text_of-credential : (o : Option Text) → or_none (text_of o) ≡ credential o
  text_of-credential none = refl
  text_of-credential (some s) = refl

  abbrev pub all_params : Text → Option Text → Option Text → Dict Text
  all_params e access secret = (codes "endpoint", e) ∷ key_params access secret

  pub first_region :
      (e default : Text) (access secret : Option Text)
      → first_value default
          (unquoted U.unquote (lookup (codes "region") (all_params e access secret)))
        ≡ ok default
  unfolding lookup text_eq
  first_region e default none none = refl
  first_region e default none (some []) = refl
  first_region e default none (some (c ∷ s)) = refl
  first_region e default (some []) none = refl
  first_region e default (some []) (some []) = refl
  first_region e default (some []) (some (c ∷ s)) = refl
  first_region e default (some (c ∷ s)) none = refl
  first_region e default (some (c ∷ s)) (some []) = refl
  first_region e default (some (c ∷ s)) (some (d ∷ t)) = refl

  pub unquote_ok : (s : Text) → IsEncodable s → ok (U.unquote (U.quote s s3_safe_chars)) ≡ ok s
  unquote_ok s h = ap ok (L.unquote_quote s s3_safe_chars safe-Lacks h)

  pub first_access :
      (e : Text) (access secret : Option Text)
      → Encodable access
      → first_value []
          (unquoted U.unquote (lookup (codes "access_key") (all_params e access secret)))
        ≡ ok (text_of access)
  unfolding lookup text_eq
  first_access e none none h = refl
  first_access e none (some []) h = refl
  first_access e none (some (c ∷ s)) h = refl
  first_access e (some []) none h = refl
  first_access e (some []) (some []) h = refl
  first_access e (some []) (some (c ∷ s)) h = refl
  first_access e (some (c ∷ s)) secret h = unquote_ok (c ∷ s) h

  pub first_secret :
      (e : Text) (access secret : Option Text)
      → Encodable secret
      → first_value []
          (unquoted U.unquote (lookup (codes "secret_key") (all_params e access secret)))
        ≡ ok (text_of secret)
  unfolding lookup text_eq
  first_secret e none none h = refl
  first_secret e none (some []) h = refl
  first_secret e none (some (c ∷ s)) h = unquote_ok (c ∷ s) h
  first_secret e (some []) none h = refl
  first_secret e (some []) (some []) h = refl
  first_secret e (some []) (some (c ∷ s)) h = unquote_ok (c ∷ s) h
  first_secret e (some (c ∷ s)) none h = refl
  first_secret e (some (c ∷ s)) (some []) h = refl
  first_secret e (some (c ∷ s)) (some (d ∷ t)) h = unquote_ok (d ∷ t) h
