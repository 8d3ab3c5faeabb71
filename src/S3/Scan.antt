-- ===== src/S3/Scan.antt =====
-- `scan` over a service that lists a bucket in pages.
use gufo_blob.Base.{
  ℕ, zero, suc, ◌≤◌, List, [], ◌∷◌, ◌++◌, Option, none, some, Text, Bytes, map, length, append-nil,
  ◌≡◌, refl, ap, arith,
}
use gufo_blob.Base.Result.{ok}
use gufo_blob.S3.Xml.{list_objects}
use gufo_blob.S3.{
  Service, S3Blob, http_get, page, next_url, then_next, scan_pages, scan, list_url, strip_prefix,
}

module _ (X : Service) (b : S3Blob) (wanted : Text) where
  -- From a state, the listing at a URL has these pages and leaves that state: each page is answered
  -- with status 200, and each but the last has a token, which can be put into the URL of the next one.
  pub data Pages : Text → X.State → List (List Text) → X.State → Type 0 where
    last_page :
        {url : Text} {s t : X.State} {keys : List Text} (body : Bytes)
        → X.request http_get url s ≡ (ok record { status = 200; content = body }, t)
        → list_objects X.parse_xml body ≡ ok (keys, none)
        → Pages url s (keys ∷ []) t
    more_pages :
        {url : Text} {s t u : X.State} {keys : List Text} {pages : List (List Text)} (token : Text)
        (next : Text) (body : Bytes)
        → X.request http_get url s ≡ (ok record { status = 200; content = body }, t)
        → list_objects X.parse_xml body ≡ ok (keys, some token)
        → next_url X b wanted token ≡ ok next
        → Pages next t pages u
        → Pages url s (keys ∷ pages) u

  abbrev pub all_keys : List (List Text) → List Text
  all_keys [] = []
  all_keys (keys ∷ pages) = map (strip_prefix b.prefix) keys ++ all_keys pages

  page-answer :
      (url : Text) (s t : X.State) (body : Bytes) (r : List Text × Option Text)
      → X.request http_get url s ≡ (ok record { status = 200; content = body }, t)
      → list_objects X.parse_xml body ≡ ok r
      → page X b url s ≡ (ok r, t)
  unfolding page
  page-answer url s t body r h k = rw h (ap (λ x. (x, t)) k)

  scan_pages-Pages :
      (url : Text) (s t : X.State) (pages : List (List Text)) (fuel : ℕ)
      → Pages url s pages t
      → length pages ≤ fuel
      → scan_pages X b fuel wanted url s ≡ some (ok (all_keys pages), t)
  unfolding scan_pages then_next
  scan_pages-Pages url s t _ zero (last_page body h e) k = absurd (omega (arith, k))
  scan_pages-Pages url s t [] (suc fuel) h k = elim h [ ]
  scan_pages-Pages url s t (keys ∷ []) (suc fuel) (last_page body h e) k =
      rw (page-answer url s t body (keys, none) h e, append-nil (map (strip_prefix b.prefix) keys))
        refl
  scan_pages-Pages url s u _ zero (more_pages token next body h e n rest) k =
      absurd (omega (arith, k))
  scan_pages-Pages url s u (keys ∷ pages) (suc fuel) (more_pages {t = t} token next body h e n rest)
        k =
      let more = scan_pages-Pages next t u pages fuel rest (omega (arith, k)) in
      rw (page-answer url s t body (keys, some token) h e, n, more) refl

  -- Where the prefix can be put into a URL, the HTTP client can be made, and the listing at that URL has
  -- some pages, however many, a `scan` that may ask for that many ends, and yields the keys of all pages
  -- in their order, the prefix of the store taken off.
  pub scan-Pages :
      (url : Text) (before s t : X.State) (pages : List (List Text)) (fuel : ℕ)
      → list_url X b wanted ≡ ok url
      → X.open_client before ≡ (ok tt, s)
      → Pages url s pages t
      → length pages ≤ fuel
      → scan X b fuel wanted before ≡ some (ok (all_keys pages), t)
  unfolding scan
  scan-Pages url before s t pages fuel l o h k = rw (l, o) (scan_pages-Pages url s t pages fuel h k)
