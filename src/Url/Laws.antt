-- ===== src/Url/Laws.antt =====
-- What Python documents of the parsers that `Urllib` stands for.
use gufo_blob.Base.{
  ℕ, Bool, false, ◌||◌, ◌&&◌, leb, ◌==◌, List, [], ◌∷◌, Option, none, some, Text, ◌≡◌, ◌≢◌, codes,
  refl,
}
use gufo_blob.Base.Dict.{lookup}
use gufo_blob.Base.Result.{
  Result, ok, err, Error, OsKind, value_error, unicode_error, os_exception, bind, blob_error,
  Reason,
}
use gufo_blob.Url.{Url, Urllib, get_first, first_value}

unfoldable pub has_code : ℕ → Text → Bool
has_code c [] = false
has_code c (d ∷ s) = d == c || has_code c s

-- `urlparse` and the property `port` raise ValueError alone, and no name of a query string that has
-- been parsed is without a value.
pub record IsUrllib (U : Urllib) : Type 0 where
  pub urlparse_raises : (s : Text) (e : Error) → U.urlparse s ≡ err e → e ≡ value_error
  pub port_raises :
      (s : Text) (u : Url) (e : Error) → U.urlparse s ≡ ok u → u.port ≡ err e → e ≡ value_error
  pub has_value : (keep : Bool) (query name : Text) → lookup name (U.parse_qs keep query) ≢ some []

-- The characters that `quote` leaves, and the `%` that it writes
unfoldable pub is_kept : ℕ → Text → Bool
unfolding has_code
is_kept c safe =
    has_code c safe
    || (leb b'a' c && leb c b'z')
    || (leb b'A' c && leb c b'Z')
    || (leb b'0' c && leb c b'9')
    || has_code c (codes "_.-~%")

-- A result that returns such a value, or raises BlobError, a ValueError, of which UnicodeEncodeError is one,
-- or an OSError
pub data Settles {ℓ} {A : Type ℓ} (P : A → Type 0) : Result A → Type ℓ where
  returns : (a : A) → P a → Settles P (ok a)
  raises_blob_error : (x : Reason) → Settles P (err (blob_error x))
  raises_value_error : Settles P (err value_error)
  raises_unicode_error : Settles P (err unicode_error)
  raises_os_error : (kind : OsKind) → Settles P (err (os_exception kind))

module _ {ℓ κ} {A : Type ℓ} {B : Type κ} (P : A → Type 0) (Q : B → Type 0) where
  -- What follows a settled result settles as well.
  pub Settles-bind :
      (m : Result A) (next : A → Result B)
      → Settles P m
      → ((a : A) → P a → Settles Q (next a))
      → Settles Q (bind m next)
  Settles-bind _ next (returns a h) k = k a h
  Settles-bind _ next (raises_blob_error x) k = raises_blob_error x
  Settles-bind _ next raises_value_error k = raises_value_error
  Settles-bind _ next raises_unicode_error k = raises_unicode_error
  Settles-bind _ next (raises_os_error kind) k = raises_os_error kind

abbrev pub Any {ℓ} : {A : Type ℓ} → A → Type 0
Any a = Unit

first_value-Settles :
    (default : Text) (o : Option (List Text)) → o ≢ some [] → Settles Any (first_value default o)
first_value-Settles default none h = returns default tt
first_value-Settles default (some []) h = absurd (h refl)
first_value-Settles default (some (v ∷ vs)) h = returns v tt

raised : {A : Type 0} (P : A → Type 0) (e : Error) → e ≡ value_error → Settles P (err e)
raised P e h = rw h raises_value_error

module _ (U : Urllib) (L : IsUrllib U) where
  pub get_first-Settles :
      (keep : Bool) (query name default : Text)
      → Settles Any (get_first (U.parse_qs keep query) name default)
  unfolding get_first
  get_first-Settles keep query name default =
      first_value-Settles default (lookup name (U.parse_qs keep query))
        (L.has_value keep query name)

  pub urlparse-Settles : (s : Text) → Settles (λ u. U.urlparse s ≡ ok u) (U.urlparse s)
  urlparse-Settles s = of_result (U.urlparse s) refl
    where
      of_result : (r : Result Url) → U.urlparse s ≡ r → Settles (λ u. U.urlparse s ≡ ok u) r
      of_result (ok u) h = returns u h
      of_result (err e) h = raised _ e (L.urlparse_raises s e h)

  pub port-Settles : (s : Text) (u : Url) → U.urlparse s ≡ ok u → Settles Any u.port
  port-Settles s u h = of_result u.port refl
    where
      of_result : (r : Result (Option ℕ)) → u.port ≡ r → Settles Any r
      of_result (ok o) k = returns o tt
      of_result (err e) k = raised _ e (L.port_raises s u e h k)
