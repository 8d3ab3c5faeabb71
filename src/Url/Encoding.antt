-- ===== src/Url/Encoding.antt =====
-- What Python documents of `quote` and `unquote`, and of `urlparse` and `parse_qs` on the texts that
-- `S3Info.url` writes.
use gufo_blob.Base.{
  ℕ, Bool, true, ◌&&◌, ◌||◌, ◌==◌, leb, List, [], ◌∷◌, ◌++◌, Option, none, some, Text, Bytes, All,
  map, ◌≡◌, ◌≢◌, codes,
}
use gufo_blob.Base.Dict.{Dict, lookup, NodupKeys}
use gufo_blob.Base.Result.{Result, ok}
use gufo_blob.Ftp.Common.Methods.{join}
use gufo_blob.Ftp.Common.Methods.Laws.{Lacks}
use gufo_blob.Ftp.Common.Utf8.{encode}
use gufo_blob.Url.{Url, Urllib}
use gufo_blob.Url.Laws.{is_kept}

-- Lower case letters, digits, dots and hyphens
abbrev pub is_host_char : ℕ → Bool
is_host_char c =
    leb b'a' c && leb c b'z' || (leb b'0' c && leb c b'9') || (c == b'.') || (c == b'-')

abbrev pub IsHost : Text → Type 0
IsHost = All (λ c. is_host_char c ≡ true)

-- The characters that `quote` may write if it leaves the slash and these, and the colon
abbrev pub IsQuoted : Text → Type 0
IsQuoted = All (λ c. is_kept c (codes "-_.~!*()*'/:") ≡ true)

abbrev pub IsPath : Text → Type 0
IsPath [] = Unit
IsPath (c ∷ path) = (c ≡ b'/') × IsQuoted path

-- Characters of a query string
abbrev pub IsQuery : Text → Type 0
IsQuery = All (λ c. is_kept c (codes "-_.~!*()*'/:&=") ≡ true)

abbrev pub IsParam : Text × Text → Type 0
IsParam (name, value) = IsQuoted name × Lacks b'%' name × IsQuoted value

abbrev pub param : Text × Text → Text
param (name, value) = name ++ b'=' ∷ value

abbrev pub Parsed : Result Url → Text → Text → Text → Type 0
Parsed r host path query =
    (u : Url) × (r ≡ ok u)
    × (u.scheme ≡ codes "s3")
    × (u.hostname ≡ some host)
    × (u.path ≡ path)
    × (u.query ≡ query)

-- Texts that UTF-8 encodes: those without a lone surrogate
abbrev pub IsEncodable : Text → Type 0
IsEncodable s = (bytes : Bytes) × (encode s ≡ some bytes)

abbrev pub unquoted : (Text → Text) → Option Text → Option (List Text)
unquoted unquote none = none
unquoted unquote (some v) = some (unquote v ∷ [])

pub record IsEncoding (U : Urllib) : Type 0 where
  pub unquote_quote :
      (s safe : Text) → Lacks b'%' safe → IsEncodable s → U.unquote (U.quote s safe) ≡ s
  pub unquote_plain : (s : Text) → Lacks b'%' s → U.unquote s ≡ s
  pub quote_kept : (s safe : Text) → All (λ c. is_kept c safe ≡ true) (U.quote s safe)
  pub quote_nil : (safe : Text) → U.quote [] safe ≡ []
  pub quote_first :
      (c : ℕ) (s safe : Text)
      → c ≢ b'/'
      → (d : ℕ) × (r : Text) × (U.quote (c ∷ s) safe ≡ d ∷ r) × (d ≢ b'/')
  pub urlparse_s3 :
      (host path query : Text)
      → IsHost host
      → IsPath path
      → IsQuery query
      → host ≢ []
      → Parsed (U.urlparse (codes "s3://" ++ host ++ path ++ b'?' ∷ query)) host path query
  pub parse_qs_join :
      (params : Dict Text) (name : Text)
      → params ≢ []
      → All IsParam params
      → NodupKeys params
      → lookup name (U.parse_qs true (join b'&' (map param params)))
        ≡ unquoted U.unquote (lookup name params)
