-- ===== src/Url.antt =====
-- What the `parse_url` methods use of urllib, as a parameter: the parts of a URL, percent encoding and
-- the query string; beside it `int(s)` of a text.
pub mod Laws
pub mod Encoding
pub mod Sample
use gufo_blob.Base.{ℕ, Bool, List, [], ◌∷◌, Option, none, some, Text, Bytes}
use gufo_blob.Base.Int.{ℤ}
use gufo_blob.Base.Dict.{Dict, lookup}
use gufo_blob.Base.Result.{Result, ok, err, bind, index_error, unicode_error}
use gufo_blob.Ftp.Common.Utf8.{encode}

-- What `urlparse` and `urlsplit` return. The property `port` raises ValueError where it is no port.
pub record Url : Type 0 where
  pub scheme : Text
  pub netloc : Text
  pub hostname : Option Text
  pub port : Result (Option ℕ)
  pub username : Option Text
  pub password : Option Text
  pub path : Text
  pub query : Text

-- `urlparse` and `urlsplit` raise ValueError for some texts. The Boolean is `keep_blank_values`.
-- `quote` is what `quote` returns, for a text that UTF-8 encodes.
pub record Urllib : Type 0 where
  pub urlparse : Text → Result Url
  pub urlsplit : Text → Result Url
  pub quote : Text → Text → Text
  pub unquote : Text → Text
  pub parse_qs : Bool → Text → Dict (List Text)
  pub parse_qsl : Bool → Text → List (Text × Text)
  pub int_text : Text → Option ℤ

-- `s.encode()`, and `quote(s, safe)`, which encodes the text first: both raise UnicodeEncodeError where
-- UTF-8 does not encode it.
abbrev pub encoded_of : Option Bytes → Result Bytes
encoded_of none = err unicode_error
encoded_of (some s) = ok s

unfoldable pub encoded : Text → Result Bytes
unfolding encode
encoded s = encoded_of (encode s)

unfoldable pub quoted : Urllib → Text → Text → Result Text
unfolding encoded
quoted U s safe = bind (encoded s) λ bytes. ok (U.quote s safe)

-- `s or default`
abbrev pub text_or : Text → Text → Text
text_or [] default = default
text_or (c ∷ s) default = c ∷ s

abbrev pub option_or : Option Text → Text → Text
option_or none default = default
option_or (some s) default = text_or s default

-- `s or None`
abbrev pub or_none : Text → Option Text
or_none [] = none
or_none (c ∷ s) = some (c ∷ s)

-- `qs.get(name, [default])[0]`
abbrev pub first_value : Text → Option (List Text) → Result Text
first_value default none = ok default
first_value default (some []) = err index_error
first_value default (some (v ∷ vs)) = ok v

unfoldable pub get_first : Dict (List Text) → Text → Text → Result Text
unfolding lookup
get_first qs name default = first_value default (lookup name qs)
