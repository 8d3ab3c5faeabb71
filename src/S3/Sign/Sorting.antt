-- ===== src/S3/Sign/Sorting.antt =====
-- The order of the parameters in a query string does not matter to the signature.
use gufo_blob.Base.{
  true, ◌||◌, List, [], ◌∷◌, Option, none, some, Text, Bytes, text_eq_iff, map, ◌≡◌, refl, ap, ◌∙◌,
  arith,
}
use mathlib.Core.List.{Permᴰ}
use gufo_blob.Base.Result.{ok, bind}
use gufo_blob.Url.{Url}
use gufo_blob.S3.Sign.{
  Tools, text_leb, pair_leb, insert_sorted, sorted, quoted_param, canonical_query, request_of,
  sign_with, usable, sign_request,
}

text_leb_total : (s t : Text) → (text_leb s t || text_leb t s) ≡ true
unfolding text_leb
text_leb_total [] t = refl
text_leb_total (c ∷ s) [] = refl
text_leb_total (c ∷ s) (d ∷ t) = ground (arith, text_leb_total s t)

text_leb_antisym : (s t : Text) → text_leb s t ≡ true → text_leb t s ≡ true → s ≡ t
unfolding text_leb
text_leb_antisym [] [] h k = refl
text_leb_antisym [] (d ∷ t) h k = ground arith
text_leb_antisym (c ∷ s) [] h k = ground arith
text_leb_antisym (c ∷ s) (d ∷ t) h k = ground (arith, text_leb_antisym s t)

text_leb_trans : (s t u : Text) → text_leb s t ≡ true → text_leb t u ≡ true → text_leb s u ≡ true
unfolding text_leb
text_leb_trans [] t u h k = refl
text_leb_trans (c ∷ s) [] u h k = ground arith
text_leb_trans (c ∷ s) (d ∷ t) [] h k = ground arith
text_leb_trans (c ∷ s) (d ∷ t) (e ∷ u) h k = ground (arith, text_leb_trans s t u)

text_eq_refl_leb : (s : Text) → text_leb s s ≡ true
unfolding text_leb
text_eq_refl_leb [] = refl
text_eq_refl_leb (c ∷ s) = ground (arith, text_eq_refl_leb s)

pair_leb_total : (p q : Text × Text) → (pair_leb p q || pair_leb q p) ≡ true
unfolding pair_leb
pair_leb_total (k, v) (j, w) =
    ground (arith, text_eq_iff k j, text_eq_iff j k, text_leb_total k j, text_leb_total v w)

pair_leb_antisym : (p q : Text × Text) → pair_leb p q ≡ true → pair_leb q p ≡ true → p ≡ q
unfolding pair_leb
pair_leb_antisym (k, v) (j, w) h g =
    ground (arith, text_eq_iff k j, text_eq_iff j k, text_leb_antisym k j, text_leb_antisym v w)

pair_leb_trans :
    (p q r : Text × Text) → pair_leb p q ≡ true → pair_leb q r ≡ true → pair_leb p r ≡ true
unfolding pair_leb
pair_leb_trans (k, v) (j, w) (i, x) h g = ground (
  arith,
  text_eq_iff k j,
  text_eq_iff j i,
  text_eq_iff k i,
  text_leb_trans k j i,
  text_leb_trans v w x,
  text_leb_antisym k j,
)

insert_sorted_comm :
    (p q : Text × Text) (l : List (Text × Text))
    → insert_sorted pair_leb p (insert_sorted pair_leb q l)
      ≡ insert_sorted pair_leb q (insert_sorted pair_leb p l)
unfolding insert_sorted
insert_sorted_comm p q [] = ground (arith, pair_leb_total p q, pair_leb_antisym p q)
insert_sorted_comm p q (r ∷ l) = ground (
  arith,
  insert_sorted_comm p q l,
  pair_leb_total p q,
  pair_leb_antisym p q,
  pair_leb_trans p q r,
  pair_leb_trans q p r,
  pair_leb_total p r,
  pair_leb_total q r,
)

-- Sorting forgets the order.
sorted-Perm : {l m : List (Text × Text)} → Permᴰ l m → sorted pair_leb l ≡ sorted pair_leb m
unfolding sorted
sorted-Perm Permᴰ.nil = refl
sorted-Perm (Permᴰ.cons e p) = rw (e, sorted-Perm p) refl
sorted-Perm (Permᴰ.swap {a'} {b'} {l} e f) =
    rw (e, f) (insert_sorted_comm b' a' (sorted pair_leb l))
sorted-Perm (Permᴰ.trans p q) = sorted-Perm p ∙ sorted-Perm q

map-Perm : {A B : Type 0} (f : A → B) {l m : List A} → Permᴰ l m → Permᴰ (map f l) (map f m)
map-Perm f Permᴰ.nil = Permᴰ.nil
map-Perm f (Permᴰ.cons e p) = Permᴰ.cons (ap f e) (map-Perm f p)
map-Perm f (Permᴰ.swap e g) = Permᴰ.swap (ap f e) (ap f g)
map-Perm f (Permᴰ.trans p q) = Permᴰ.trans (map-Perm f p) (map-Perm f q)

module _ (T : Tools) (now : T.Time) where
  canonical_query-Perm :
      (query other : Text)
      → Permᴰ (T.urllib.parse_qsl true query) (T.urllib.parse_qsl true other)
      → canonical_query T.urllib query ≡ canonical_query T.urllib other
  unfolding canonical_query
  canonical_query-Perm query other p = rw (sorted-Perm (map-Perm (quoted_param T.urllib) p)) refl

  -- Two URLs with the same host and path whose query strings hold the same parameters in some order
  -- are signed alike, whatever the method, the body, the region and the credentials.
  pub sign_request-Perm :
      (method url other : Text) (body : Bytes) (region : Text) (keys : Option Text × Option Text)
      (u v : Url)
      → T.urllib.urlsplit url ≡ ok u
      → T.urllib.urlsplit other ≡ ok v
      → u.netloc ≡ v.netloc
      → u.path ≡ v.path
      → Permᴰ (T.urllib.parse_qsl true u.query) (T.urllib.parse_qsl true v.query)
      → sign_request T now method url body region keys
        ≡ sign_request T now method other body region keys
  unfolding sign_request
  sign_request-Perm method url other body region (access, secret) u v h k n e p =
      of_usable (usable access secret)
    where
      of_usable :
          (o : Option (Text × Text))
          → sign_with T now method url body region o ≡ sign_with T now method other body region o
      of_usable none = refl
      of_usable (some (a, s)) =
          rw (h, k, bind, request_of, n, e, canonical_query-Perm u.query v.query p) refl
