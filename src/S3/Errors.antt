-- ===== src/S3/Errors.antt =====
-- Which exceptions leave the methods of the S3 store, whatever its HTTP client raises.
pub mod Rules
use gufo_blob.Base.{
  ℕ, zero, suc, [], codes, Bool, true, false, List, Option, none, some, ◌==◌, if◌then◌else◌, Text,
  Bytes, ◌≡◌, ◌≢◌, arith, refl, map,
}
use gufo_blob.Base.Result.{
  Result, ok, err, bind, lift, ◌>>=◌, ◌>>◌, Error, Exec, continue, blob_error, key_error,
  index_error, unicode_error, value_error, os_exception,
}
use gufo_blob.S3.{
  Service, S3Blob, Response, Method, http_put, http_get, http_head, http_delete, put, get, delete,
  delete_checked, exists, scan, scan_pages, page, then_next, prepend, next_url, list_url,
  endpoint_host, full_key, full_prefix, or_raise, after, strip_prefix, s3_ok, s3_created,
  s3_deleted, s3_not_found,
}
use gufo_blob.S3.Xml.{
  Expat, from_xml, list_objects, listed, error_of, Values, parse_xml_fields, error_fields,
  list_fields,
}
use gufo_blob.S3.Errors.Rules.{
  Allowed, AllowedScan, if-Allowed, from_xml-Allowed, list_objects-Allowed, recast-Allowed,
  continue-Allowed, bind-Allowed,
}
use gufo_blob.S3.Request.{Client, service, request, as_request_error, headers}
use gufo_blob.Url.{Urllib, quoted, encoded, encoded_of}
use gufo_blob.Ftp.Common.Utf8.{encode}

-- `fails` says of which texts `quote` may raise UnicodeEncodeError.
module _ (X : Service)
    (quiet : (method : Method) (url : Text) (u : Type 0) (s : X.State)
      → Allowed u none (X.request method url s).0)
    (opens : (s : X.State) → (X.open_client s).0 ≡ ok tt) (fails : Text → Type 0)
    (quotes : (safe s : Text) → Allowed (fails s) none (X.quote safe s)) (b : S3Blob) where
  failed :
      (A u : Type 0) (key : Option Text) (resp : Response)
      → Allowed {A = A} u key (err (from_xml X.parse_xml resp.content))
  failed A u key resp = from_xml-Allowed A u key X.parse_xml resp.content

  abbrev FailsAt : Text → Type 0
  FailsAt key = fails (full_key b.prefix key)

  -- A method that makes the URL of a key and a client before it sends
  opened-Allowed :
      {A : Type 0} (key : Text) (o : Option Text) (f : Text → Exec X.State A) (s : X.State)
      → ((url : Text) (t : X.State) → Allowed (FailsAt key) o (f url t).0)
      → Allowed
          (FailsAt key)
          o
          ((lift (endpoint_host X b key) >>= (λ url. X.open_client >>= (λ x. f url))) s).0
  unfolding endpoint_host
  opened-Allowed key o f s h =
      continue-Allowed (FailsAt key) o (endpoint_host X b key, s) _
        (bind-Allowed (FailsAt key) (X.quote (codes "/-_.~") (full_key b.prefix key)) _
          (quotes (codes "/-_.~") (full_key b.prefix key)) (λ q. tt))
        λ url t.
          continue-Allowed (FailsAt key) o (X.open_client t) _ (rw (opens t) tt) λ x q. h url q

  put-Allowed :
      (key : Text) (bytes : Bytes) (s : X.State)
      → Allowed (FailsAt key) none (put X b key bytes s).0
  unfolding put
  put-Allowed key bytes s = opened-Allowed key none _ s λ url t.
      continue-Allowed (FailsAt key) none (X.request (http_put bytes) url t) _
        (quiet (http_put bytes) url (FailsAt key) t)
        λ resp q.
          if-Allowed (FailsAt key) none (resp.status == s3_created) _ _ q tt
            (failed Unit (FailsAt key) none resp)

  get-Allowed : (key : Text) (s : X.State) → Allowed (FailsAt key) (some key) (get X b key s).0
  unfolding get
  get-Allowed key s = opened-Allowed key (some key) _ s λ url t.
      let u = FailsAt key in
      continue-Allowed u (some key) (X.request http_get url t) _ (quiet http_get url u t) λ resp q.
        if-Allowed u (some key) (resp.status == s3_ok) _ _ q tt (
          if-Allowed u (some key) (resp.status == s3_not_found) _ _ q refl
            (failed Bytes u (some key) resp))

  delete_checked-Allowed :
      (u : Type 0) (key : Option Text) (url : Text) (s : X.State)
      → Allowed u key (delete_checked X b url s).0
  unfolding delete_checked
  delete_checked-Allowed u key url s =
      continue-Allowed u key (X.request http_delete url s) _ (quiet http_delete url u s)
        λ resp t. if-Allowed u key (resp.status == s3_deleted) _ _ t tt (failed Unit u key resp)

  delete-Allowed :
      (key : Text) (s : X.State) → Allowed (FailsAt key) (some key) (delete X b key s).0
  unfolding delete
  delete-Allowed key s = opened-Allowed key (some key) _ s λ url t.
      let u = FailsAt key in
      continue-Allowed u (some key) (X.request http_head url t) _ (quiet http_head url u t)
        λ resp q. if-Allowed u (some key) (resp.status == s3_not_found) _ _ q refl (
          if-Allowed u (some key) (resp.status == s3_ok) _ _ q
            (delete_checked-Allowed u (some key) url q) (failed Unit u (some key) resp))

  exists-Allowed : (key : Text) (s : X.State) → Allowed (FailsAt key) none (exists X b key s).0
  unfolding exists
  exists-Allowed key s = opened-Allowed key none _ s λ url t.
      let u = FailsAt key in
      continue-Allowed u none (X.request http_head url t) _ (quiet http_head url u t) λ resp q.
        if-Allowed u none (resp.status == s3_ok) _ _ q tt
          (if-Allowed u none (resp.status == s3_not_found) _ _ q tt (failed Bool u none resp))

  page-Allowed : (url : Text) (s : X.State) → Allowed Unit none (page X b url s).0
  unfolding page
  page-Allowed url s =
      continue-Allowed Unit none (X.request http_get url s) _ (quiet http_get url Unit s) λ resp t.
        if-Allowed Unit none (resp.status == s3_ok) _ _ t
          (list_objects-Allowed Unit X.parse_xml resp.content)
          (failed (List Text × Option Text) Unit none resp)

  prepend-Allowed :
      (keys : List Text) (o : Option (Result (List Text) × X.State))
      → AllowedScan o
      → AllowedScan (prepend keys o)
  prepend-Allowed keys none h = tt
  prepend-Allowed keys (some (ok rest, t)) h = tt
  prepend-Allowed keys (some (err e, t)) h = h

  then_next-Allowed :
      (rest : Text → X.State → Option (Result (List Text) × X.State))
      (x : Result (List Text × Option Text) × X.State)
      → ((token : Text) (t : X.State) → AllowedScan (rest token t))
      → Allowed Unit none x.0
      → AllowedScan (then_next X b rest x)
  unfolding then_next
  then_next-Allowed rest (ok (keys, none), t) k h = tt
  then_next-Allowed rest (ok (keys, some token), t) k h =
      prepend-Allowed (map (strip_prefix b.prefix) keys) (rest token t) (k token t)
  then_next-Allowed rest (err e, t) k h =
      recast-Allowed (List Text × Option Text) (List Text) Unit none e h

  or_raise-Allowed :
      {A B : Type 0} (r : Result A) (next : A → X.State → Option (Result B × X.State)) (s : X.State)
      → Allowed Unit none r
      → ((a : A) → AllowedScan (next a s))
      → AllowedScan (or_raise r next s)
  or_raise-Allowed (ok a) next s h k = k a
  or_raise-Allowed {A = A} {B = B} (err e) next s h k = recast-Allowed A B Unit none e h

  any_quote : (safe s : Text) → Allowed Unit none (X.quote safe s)
  any_quote safe s = widened (X.quote safe s) (quotes safe s)
    where
      widened : (r : Result Text) → Allowed (fails s) none r → Allowed Unit none r
      widened (ok t) h = tt
      widened (err (blob_error x)) h = tt
      widened (err (key_error j)) h = h
      widened (err index_error) h = h
      widened (err unicode_error) h = tt
      widened (err value_error) h = h
      widened (err (os_exception kind)) h = h

  list_url-Allowed : (wanted : Text) → Allowed Unit none (list_url X b wanted)
  unfolding list_url
  list_url-Allowed wanted =
      bind-Allowed Unit (X.quote [] (full_prefix b.prefix wanted)) _
        (any_quote [] (full_prefix b.prefix wanted)) (λ q. tt)

  next_url-Allowed : (wanted token : Text) → Allowed Unit none (next_url X b wanted token)
  unfolding next_url
  next_url-Allowed wanted token =
      bind-Allowed Unit (X.quote [] token) _ (any_quote [] token)
        λ q. bind-Allowed Unit (list_url X b wanted) _ (list_url-Allowed wanted) (λ url. tt)

  scan_pages-Allowed :
      (fuel : ℕ) (wanted url : Text) (s : X.State) → AllowedScan (scan_pages X b fuel wanted url s)
  unfolding scan_pages
  scan_pages-Allowed zero wanted url s = tt
  scan_pages-Allowed (suc fuel) wanted url s =
      then_next-Allowed _ (page X b url s)
        (λ token t.
          or_raise-Allowed (next_url X b wanted token) _ t (next_url-Allowed wanted token)
            λ next. scan_pages-Allowed fuel wanted next t)
        (page-Allowed url s)

  scan-Allowed : (fuel : ℕ) (wanted : Text) (s : X.State) → AllowedScan (scan X b fuel wanted s)
  unfolding scan
  scan-Allowed fuel wanted s =
      or_raise-Allowed (list_url X b wanted) _ s (list_url-Allowed wanted)
        λ url. after-Allowed url (X.open_client s) (opens s)
    where
      after-Allowed :
          (url : Text) (x : Result (Unit {0}) × X.State)
          → x.0 ≡ ok tt
          → AllowedScan (after x (λ t. scan_pages X b fuel wanted url t))
      after-Allowed url (ok tt, t) h = scan_pages-Allowed fuel wanted url t
      after-Allowed url (err e, t) h = ground arith

as_request_error-Allowed :
    {S A : Type 0} (u : Type 0) (x : Result A × S) → Allowed u none (as_request_error x).0
as_request_error-Allowed u (ok a, s) = tt
as_request_error-Allowed u (err e, s) = tt

request-Allowed :
    (C : Client) (b : S3Blob) (method : Method) (url : Text) (u : Type 0) (s : C.State)
    → Allowed u none (request C b method url s).0
unfolding request
request-Allowed C b method url u s =
    as_request_error-Allowed u (continue (headers C b method url s, s) (λ h. C.send method url h))

quoted-Allowed : (U : Urllib) (safe s : Text) → Allowed (encode s ≡ none) none (quoted U s safe)
unfolding quoted encoded
quoted-Allowed U safe s = of_bytes (encode s) refl
  where
    of_bytes :
        (o : Option Bytes)
        → encode s ≡ o
        → Allowed (encode s ≡ none) none (bind (encoded_of o) λ bytes. ok (U.quote s safe))
    of_bytes none e = e
    of_bytes (some bytes) e = tt

-- Where the HTTP client can be made, whatever it raises in a request, and whatever the signing of a
-- request raises, no exception leaves the methods of the S3 store but BlobError, KeyError of the key that
-- `get` or `delete` is given, and UnicodeEncodeError: from put, get, delete and exists only where UTF-8
-- does not encode the key with its prefix.
pub service-Allowed :
    (C : Client)
    → ((s : C.State) → (C.open_client s).0 ≡ ok tt)
    → (b : S3Blob) (key : Text) (bytes : Bytes) (fuel : ℕ) (s : C.State)
    → let X = service C b in
      let unicode = encode (full_key b.prefix key) ≡ none in
      Allowed unicode none (put X b key bytes s).0
      × Allowed unicode (some key) (get X b key s).0
      × Allowed unicode (some key) (delete X b key s).0
      × Allowed unicode none (exists X b key s).0
      × AllowedScan (scan X b fuel key s)
service-Allowed C opens b key bytes fuel s =
    let quiet = request-Allowed C b in
    let X = service C b in
    let quotes = quoted-Allowed C.tools.urllib in
    (
      put-Allowed X quiet opens (λ t. encode t ≡ none) quotes b key bytes s,
      get-Allowed X quiet opens (λ t. encode t ≡ none) quotes b key s,
      delete-Allowed X quiet opens (λ t. encode t ≡ none) quotes b key s,
      exists-Allowed X quiet opens (λ t. encode t ≡ none) quotes b key s,
      scan-Allowed X quiet opens (λ t. encode t ≡ none) quotes b fuel key s,
    )
