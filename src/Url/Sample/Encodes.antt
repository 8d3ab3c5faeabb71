-- ===== src/Url/Sample/Encodes.antt =====
-- The small urllib keeps the laws of `IsEncoding`.
use gufo_blob.Base.{
  ℕ, zero, suc, ◌+◌, Bool, true, false, ◌&&◌, not, ◌==◌, List, [], ◌∷◌, ◌++◌, none, some,
  if◌then◌else◌, Text, All, All-append, map, ◌≡◌, ◌≢◌, codes, refl, arith, ap, ◌∙◌, append-nil,
  Bool-cases, inl, inr, text_eq,
}
use gufo_blob.Base.Dict.{Dict, lookup}
use gufo_blob.Base.Result.{ok}
use gufo_blob.Ftp.Common.Methods.{split, join}
use gufo_blob.Ftp.Common.Methods.Laws.{
  Lacks, split-ne-nil, split-Lacks, split-append, split-join, join-split,
}
use gufo_blob.Url.Laws.{has_code, is_kept}
use gufo_blob.Url.Encoding.{IsHost, IsQuoted, IsPath, IsParam, IsEncoding, param, unquoted}
use gufo_blob.Url.Sample.{
  cut, repeat_A, quote, decode, unquote, pairs, path_of, url_of, with_parts, with_scheme, urlparse,
  sample,
}

decode-repeat_A :
    (n k : ℕ) (rest : Text) → decode (some n) (repeat_A k ++ rest) ≡ (n + k) ∷ decode none rest
unfolding decode repeat_A
decode-repeat_A n zero rest = ground arith
decode-repeat_A n (suc k) rest = ground (arith, decode-repeat_A (suc n) k rest)

decode-repeat_zero :
    (k : ℕ) (rest : Text) → decode (some 0) (repeat_A k ++ rest) ≡ k ∷ decode none rest
decode-repeat_zero k rest =
    rw (decode-repeat_A 0 k rest) (ap (λ n. n ∷ decode none rest) (omega arith))

decode-other : (c : ℕ) (s : Text) → c ≢ b'%' → decode none (c ∷ s) ≡ c ∷ decode none s
unfolding decode
decode-other c s h = ground arith

decode-percent : (s : Text) → decode none (b'%' ∷ s) ≡ decode (some 0) s
unfolding decode
decode-percent s = refl

decode-quote : (s safe : Text) → decode none (quote s safe) ≡ s
unfolding quote
decode-quote [] safe = unfold decode in refl
decode-quote (c ∷ s) safe = elim (Bool-cases (is_kept c safe && not (c == b'%'))) [
  | inl e ↦
      rw (e, quote)
        (decode-other c (quote s safe) (ground arith) ∙ ap (λ r. c ∷ r) (decode-quote s safe))
  | inr e ↦
      rw (e, quote)
        (decode-percent (repeat_A c ++ quote s safe)
          ∙ decode-repeat_zero c (quote s safe)
          ∙ ap (λ r. c ∷ r) (decode-quote s safe))
]

decode-Lacks : (s : Text) → Lacks b'%' s → decode none s ≡ s
unfolding decode
decode-Lacks [] h = refl
decode-Lacks (c ∷ s) (h, hs) = ground (arith, decode-Lacks s hs)

repeat_A-kept : (n : ℕ) (safe : Text) → All (λ c. is_kept c safe ≡ true) (repeat_A n)
unfolding repeat_A is_kept
repeat_A-kept zero safe = (ground arith, tt)
repeat_A-kept (suc n) safe = (ground arith, repeat_A-kept n safe)

percent_kept : (safe : Text) → is_kept b'%' safe ≡ true
unfolding is_kept has_code
percent_kept safe = ground arith

quote-kept : (s safe : Text) → All (λ c. is_kept c safe ≡ true) (quote s safe)
unfolding quote
quote-kept [] safe = tt
quote-kept (c ∷ s) safe = elim (Bool-cases (is_kept c safe && not (c == b'%'))) [
  | inl e ↦ rw (e, quote) (ground arith, quote-kept s safe)
  | inr e ↦
      rw (e, quote)
        (
          percent_kept safe,
          All-append _ (repeat_A c) (quote s safe) (repeat_A-kept c safe) (quote-kept s safe),
        )
]

quote-first :
    (c : ℕ) (s safe : Text)
    → c ≢ b'/'
    → (d : ℕ) × (r : Text) × (quote (c ∷ s) safe ≡ d ∷ r) × (d ≢ b'/')
unfolding quote
quote-first c s safe h = elim (Bool-cases (is_kept c safe && not (c == b'%'))) [
  | inl e ↦ (c, quote s safe, rw (e, quote) refl, h)
  | inr e ↦ (b'%', repeat_A c ++ quote s safe, rw (e, quote) refl, ground arith)
]

cut-append : (sep : ℕ) (p s : Text) → Lacks sep p → cut sep (p ++ sep ∷ s) ≡ (p, s)
unfolding cut
cut-append sep p s h = rw (split-append sep p s h, join-split sep s) refl

quoted-Lacks_equals : (s : Text) → IsQuoted s → Lacks b'=' s
unfolding is_kept has_code
quoted-Lacks_equals [] h = tt
quoted-Lacks_equals (c ∷ s) (h, hs) = (ground arith, quoted-Lacks_equals s hs)

quoted-Lacks_and : (s : Text) → IsQuoted s → Lacks b'&' s
unfolding is_kept has_code
quoted-Lacks_and [] h = tt
quoted-Lacks_and (c ∷ s) (h, hs) = (ground arith, quoted-Lacks_and s hs)

quoted-Lacks_question : (s : Text) → IsQuoted s → Lacks b'?' s
unfolding is_kept has_code
quoted-Lacks_question [] h = tt
quoted-Lacks_question (c ∷ s) (h, hs) = (ground arith, quoted-Lacks_question s hs)

host-Lacks_question : (s : Text) → IsHost s → Lacks b'?' s
host-Lacks_question [] h = tt
host-Lacks_question (c ∷ s) (h, hs) = (ground arith, host-Lacks_question s hs)

host-Lacks_slash : (s : Text) → IsHost s → Lacks b'/' s
host-Lacks_slash [] h = tt
host-Lacks_slash (c ∷ s) (h, hs) = (ground arith, host-Lacks_slash s hs)

pairs-lookup :
    (name : Text) (params : Dict Text)
    → All IsParam params
    → lookup name (pairs (map param params)) ≡ unquoted unquote (lookup name params)
unfolding pairs lookup unquote
pairs-lookup name [] h = refl
pairs-lookup name ((n, v) ∷ params) ((a, b, d), hs) =
    rw (cut-append b'=' n v (quoted-Lacks_equals n a), unquote, decode-Lacks n b)
      (by_test (text_eq n name) (pairs-lookup name params hs))
  where
    by_test :
        (t : Bool)
        → lookup name (pairs (map param params)) ≡ unquoted unquote (lookup name params)
        → (if t then some (decode none v ∷ []) else lookup name (pairs (map param params)))
          ≡ unquoted unquote (if t then some v else lookup name params)
    by_test true h = refl
    by_test false h = h

params-Lacks : (params : Dict Text) → All IsParam params → All (Lacks b'&') (map param params)
params-Lacks [] h = tt
params-Lacks ((n, v) ∷ params) ((a, b, d), hs) = (
  All-append _ n (b'=' ∷ v) (quoted-Lacks_and n a) (ground arith, quoted-Lacks_and v d),
  params-Lacks params hs,
)

map-ne-nil : (params : Dict Text) → params ≢ [] → map param params ≢ []
map-ne-nil [] h e = h refl
map-ne-nil (p ∷ params) h e = ground arith

path-Lacks : (path : Text) → IsPath path → Lacks b'?' path
path-Lacks [] h = tt
path-Lacks (c ∷ path) (e, h) = (ground arith, quoted-Lacks_question path h)

path_of-split : (p : Text) → path_of (split b'/' p) ≡ b'/' ∷ p
unfolding path_of
path_of-split p = of_parts (split b'/' p) (split-ne-nil b'/' p) (join-split b'/' p)
  where
    of_parts : (ps : List Text) → ps ≢ [] → join b'/' ps ≡ p → path_of ps ≡ b'/' ∷ p
    of_parts [] h e = absurd (h refl)
    of_parts (q ∷ ps) h e = ap (λ r. b'/' ∷ r) e

-- the parts behind `s3:`
with_parts_lem :
    (query rest host path : Text)
    → IsHost host
    → IsPath path
    → with_parts (codes "s3") query rest (split b'/' (codes "//" ++ host ++ path))
      ≡ url_of (codes "s3") (some host) path query
unfolding with_parts split
with_parts_lem query rest host [] h k =
    rw (append-nil host, split-Lacks b'/' host (host-Lacks_slash host h)) (unfold path_of in refl)
with_parts_lem query rest host (c ∷ path) h (e, k) =
    rw (e, split-append b'/' host path (host-Lacks_slash host h))
      (ap (λ p. url_of (codes "s3") (some host) p query) (path_of-split path))

front-Lacks :
    (host path : Text) → IsHost host → IsPath path → Lacks b'?' (codes "s3://" ++ (host ++ path))
front-Lacks host path h k =
    All-append _ (codes "s3://") (host ++ path)
      (ground arith, (ground arith, (ground arith, (ground arith, (ground arith, tt)))))
      (All-append _ host path (host-Lacks_question host h) (path-Lacks path k))

with_scheme_lem :
    (query host path : Text)
    → IsHost host
    → IsPath path
    → with_scheme query (split b':' (codes "s3://" ++ (host ++ path)))
      ≡ url_of (codes "s3") (some host) path query
unfolding with_scheme
with_scheme_lem query host path h k =
    rw
      (split-append b':' (codes "s3") (codes "//" ++ (host ++ path))
        (ground arith, (ground arith, tt)))
      (rest_lem (split b':' (codes "//" ++ (host ++ path)))
        (split-ne-nil b':' (codes "//" ++ (host ++ path)))
        (join-split b':' (codes "//" ++ (host ++ path))))
  where
    rest_lem :
        (ps : List Text)
        → ps ≢ []
        → join b':' ps ≡ codes "//" ++ (host ++ path)
        → with_scheme query (codes "s3" ∷ ps) ≡ url_of (codes "s3") (some host) path query
    rest_lem [] n e = absurd (n refl)
    rest_lem (p ∷ ps) n e = rw e (with_parts_lem query _ host path h k)

urlparse_lem :
    (host path query : Text)
    → IsHost host
    → IsPath path
    → urlparse (codes "s3://" ++ host ++ path ++ b'?' ∷ query)
      ≡ ok (url_of (codes "s3") (some host) path query)
unfolding urlparse
urlparse_lem host path query h k =
    rw (cut-append b'?' (codes "s3://" ++ (host ++ path)) query (front-Lacks host path h k))
      (ap ok (with_scheme_lem query host path h k))

pub sample-IsEncoding : IsEncoding sample
unfolding sample unquote quote pairs
sample-IsEncoding = record {
  unquote_quote = λ s safe h e. decode-quote s safe;
  unquote_plain = decode-Lacks;
  quote_kept = quote-kept;
  quote_nil = λ safe. refl;
  quote_first = quote-first;
  urlparse_s3 = λ host path query h k q n. (
    url_of (codes "s3") (some host) path query,
    urlparse_lem host path query h k,
    refl,
    refl,
    refl,
    refl,
  );
  parse_qs_join = λ params name n h u.
      rw (split-join b'&' (map param params) (map-ne-nil params n) (params-Lacks params h))
        (pairs-lookup name params h);
}
