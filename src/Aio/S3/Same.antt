-- ===== src/Aio/S3/Same.antt =====
-- The asynchronous S3 store beside the synchronous one. A scan of the first makes an HTTP client for each
-- page, and one of the second makes one client for all pages.

use gufo_blob.Base.{ℕ, zero, suc, List, map, Option, none, some, Text, Bytes, ◌≡◌, refl, ap}
use gufo_blob.Base.Result.{Result, ok, err}
use gufo_blob.S3.{Service, S3Blob, or_raise, prepend}
use gufo_blob.S3 as Sync
use gufo_blob.Aio.S3 as Async

module _ (X : Service) (opens : (s : X.State) → X.open_client s ≡ (ok tt, s)) (b : S3Blob) where
  page_same : (url : Text) (s : X.State) → Async.page X b url s ≡ Sync.page X b url s
  unfolding Async.page Sync.page
  page_same url s = rw (opens s) refl

  then_next_same :
      (rest other : Text → X.State → Option (Result (List Text) × X.State))
      (x : Result (List Text × Option Text) × X.State)
      → ((token : Text) (t : X.State) → rest token t ≡ other token t)
      → Async.then_next X b rest x ≡ Sync.then_next X b other x
  unfolding Async.then_next Sync.then_next Async.strip_prefix Sync.strip_prefix
  then_next_same rest other (err e, t) h = refl
  then_next_same rest other (ok (keys, none), t) h = refl
  then_next_same rest other (ok (keys, some token), t) h =
      ap (prepend (map (Sync.strip_prefix b.prefix) keys)) (h token t)

  or_raise_same :
      {A : Type 0} (r : Result Text) (next other : Text → X.State → Option (Result A × X.State))
      (s : X.State)
      → ((url : Text) → next url s ≡ other url s)
      → or_raise r next s ≡ or_raise r other s
  or_raise_same (ok url) next other s h = h url
  or_raise_same (err e) next other s h = refl

  next_url_same :
      (wanted token : Text) → Async.next_url X b wanted token ≡ Sync.next_url X b wanted token
  unfolding Async.next_url Sync.next_url Async.list_url Sync.list_url
  next_url_same wanted token = refl

  scan_pages_same :
      (fuel : ℕ) (wanted url : Text) (s : X.State)
      → Async.scan_pages X b fuel wanted url s ≡ Sync.scan_pages X b fuel wanted url s
  unfolding Async.scan_pages Sync.scan_pages
  scan_pages_same zero wanted url s = refl
  scan_pages_same (suc fuel) wanted url s = rw (page_same url s) (
      then_next_same _ _ (Sync.page X b url s) λ token t. rw (next_url_same wanted token) (
        or_raise_same (Sync.next_url X b wanted token) _ _ t
          λ next. scan_pages_same fuel wanted next t))

  list_url_same : (wanted : Text) → Async.list_url X b wanted ≡ Sync.list_url X b wanted
  unfolding Async.list_url Sync.list_url
  list_url_same wanted = refl

  scan_same :
      (fuel : ℕ) (wanted : Text) (s : X.State)
      → Async.scan X b fuel wanted s ≡ Sync.scan X b fuel wanted s
  unfolding Async.scan Sync.scan
  scan_same fuel wanted s = rw (list_url_same wanted) (
      or_raise_same (Sync.list_url X b wanted) _ _ s
        λ url. rw (opens s) (scan_pages_same fuel wanted url s))

  -- Where making an HTTP client succeeds and leaves the service alone, the methods of the two S3 stores
  -- give the same values, raise the same exceptions and leave the same state, whatever the service
  -- answers; `scan` too, which makes a client for each page in the one and a single client in the other.
  pub methods_same :
      (key : Text) (bytes : Bytes) (fuel : ℕ) (s : X.State)
      → (Async.put X b key bytes s ≡ Sync.put X b key bytes s)
        × (Async.get X b key s ≡ Sync.get X b key s)
        × (Async.delete X b key s ≡ Sync.delete X b key s)
        × (Async.exists X b key s ≡ Sync.exists X b key s)
        × (Async.scan X b fuel key s ≡ Sync.scan X b fuel key s)
  unfolding Async.put Sync.put Async.get Sync.get Async.delete Sync.delete Async.exists Sync.exists
  methods_same key bytes fuel s = (refl, refl, refl, refl, scan_same fuel key s)
