-- ===== src/S3/Sign/Canonical.antt =====
-- The canonical request tells one request from another.
use gufo_blob.Base.{
  Bool, ◌&&◌, not, ◌==◌, All-append, true, List, [], ◌∷◌, ◌++◌, Text, text_eq, codes, All, ◌≡◌, ◌≢◌,
  refl, sym, ap, ◌∙◌, arith, append_assoc,
}
use gufo_blob.Base.Dict.{keys}
use gufo_blob.Ftp.Common.Methods.{split, join}
use gufo_blob.Ftp.Common.Methods.Laws.{Lacks, split-join}
use gufo_blob.S3.Sign.{
  concat, text_leb, pair_leb, insert_sorted, sorted, canonical_headers, signed_headers, headers_of,
  canonical_request,
}

signed_lem :
    (host payload amz_date : Text)
    → signed_headers (headers_of host payload amz_date)
      ≡ codes "host;x-amz-content-sha256;x-amz-date"
unfolding signed_headers headers_of sorted insert_sorted text_leb keys join
signed_lem host payload amz_date = refl

sorted_lem :
    (host payload amz_date : Text)
    → sorted pair_leb (headers_of host payload amz_date) ≡ headers_of host payload amz_date
unfolding headers_of sorted insert_sorted pair_leb text_leb text_eq
sorted_lem host payload amz_date = refl

-- The lines of a canonical request
lines_of : Text → Text → Text → Text → Text → Text → List Text
lines_of method uri query host payload amz_date =
    method
    ∷ uri
    ∷ query
    ∷ (codes "host:" ++ host)
    ∷ (codes "x-amz-content-sha256:" ++ payload)
    ∷ (codes "x-amz-date:" ++ amz_date)
    ∷ []
    ∷ codes "host;x-amz-content-sha256;x-amz-date"
    ∷ payload
    ∷ []

canonical_request_lem :
    (method uri query host payload amz_date : Text)
    → canonical_request method uri query (headers_of host payload amz_date) payload
      ≡ join b'\n' (lines_of method uri query host payload amz_date)
unfolding canonical_request canonical_headers lines_of concat join
canonical_request_lem method uri query host payload amz_date =
    rw (signed_lem host payload amz_date, sorted_lem host payload amz_date)
      (unfold headers_of in simp (append_assoc) refl)

-- What a request is signed for: the parts of the URL, the body's digest and the time
pub record Parts : Type 0 where
  pub method : Text
  pub uri : Text
  pub query : Text
  pub host : Text
  pub payload : Text
  pub amz_date : Text

abbrev pub IsUnbroken : Parts → Type 0
IsUnbroken r =
    Lacks b'\n' r.method
    × Lacks b'\n' r.uri
    × Lacks b'\n' r.query
    × Lacks b'\n' r.host
    × Lacks b'\n' r.payload
    × Lacks b'\n' r.amz_date

abbrev pub canonical : Parts → Text
canonical r =
    canonical_request r.method r.uri r.query (headers_of r.host r.payload r.amz_date) r.payload

prefix-Lacks : (p s : Text) → Lacks b'\n' p → Lacks b'\n' s → Lacks b'\n' (p ++ s)
prefix-Lacks p s = All-append _ p s

unfoldable has_no_break : Text → Bool
has_no_break [] = true
has_no_break (c ∷ s) = not (c == b'\n') && has_no_break s

no_break-Lacks : (s : Text) → has_no_break s ≡ true → Lacks b'\n' s
unfolding has_no_break
no_break-Lacks [] h = tt
no_break-Lacks (c ∷ s) h = (ground arith, no_break-Lacks s (ground arith))

lines_of-Lacks :
    (r : Parts)
    → IsUnbroken r
    → All (Lacks b'\n') (lines_of r.method r.uri r.query r.host r.payload r.amz_date)
unfolding lines_of has_no_break
lines_of-Lacks r (m, u, q, h, p, d) = (
  m,
  (
    u,
    (
      q,
      (
        prefix-Lacks (codes "host:") r.host (no_break-Lacks (codes "host:") refl) h,
        (
          prefix-Lacks (codes "x-amz-content-sha256:") r.payload
              (no_break-Lacks (codes "x-amz-content-sha256:") refl) p,
          (
            prefix-Lacks (codes "x-amz-date:") r.amz_date
                (no_break-Lacks (codes "x-amz-date:") refl) d,
            (tt, (no_break-Lacks (codes "host;x-amz-content-sha256;x-amz-date") refl, (p, tt))),
          ),
        ),
      ),
    ),
  ),
)

join-injective :
    (ps qs : List Text)
    → ps ≢ []
    → qs ≢ []
    → All (Lacks b'\n') ps
    → All (Lacks b'\n') qs
    → join b'\n' ps ≡ join b'\n' qs
    → ps ≡ qs
join-injective ps qs n m h k e =
    sym (split-join b'\n' ps n h) ∙ ap (split b'\n') e ∙ split-join b'\n' qs m k

lines_of-injective :
    (r s : Parts)
    → lines_of r.method r.uri r.query r.host r.payload r.amz_date
      ≡ lines_of s.method s.uri s.query s.host s.payload s.amz_date
    → r ≡ s
unfolding lines_of
lines_of-injective r s e = cc

-- Two requests with the same canonical request are the same in method, path, query string, host, digest
-- of the body and time, if none of these has a line break.
pub canonical_request-injective :
    (r s : Parts) → IsUnbroken r → IsUnbroken s → canonical r ≡ canonical s → r ≡ s
unfolding lines_of
canonical_request-injective r s h k e = lines_of-injective r s (
    join-injective _ _ (λ f. ground arith) (λ f. ground arith) (lines_of-Lacks r h)
      (lines_of-Lacks s k)
      (sym (canonical_request_lem r.method r.uri r.query r.host r.payload r.amz_date)
        ∙ e
        ∙ canonical_request_lem s.method s.uri s.query s.host s.payload s.amz_date))
