-- ===== src/Url/Sample.antt =====
-- A small urllib for the examples: no user, no port, no fragment, and percent encoding in which the
-- letters `A` behind a `%` count up to the character.
pub mod Encodes
use gufo_blob.Base.{
  ℕ, zero, suc, true, false, ◌&&◌, List, [], ◌∷◌, ◌++◌, Option, none, some, ◌==◌, if◌then◌else◌,
  Text, ◌≡◌, ◌≢◌, refl, not, arith, sym, ◌∙◌,
}
use gufo_blob.Base.Dict.{Dict, lookup}
use gufo_blob.Base.Result.{Result, ok, err, Error}
use gufo_blob.Ftp.Common.Methods.{split, join}
use gufo_blob.Url.{Url, Urllib}
use gufo_blob.Url.Laws.{IsUrllib, is_kept}

-- What stands before the first `sep`, and behind it
abbrev pub cut_parts : ℕ → List Text → Text × Text
cut_parts sep [] = ([], [])
cut_parts sep (p ∷ ps) = (p, join sep ps)

unfoldable pub cut : ℕ → Text → Text × Text
unfolding split join
cut sep s = cut_parts sep (split sep s)

unfoldable pub repeat_A : ℕ → Text
repeat_A zero = b'Z' ∷ []
repeat_A (suc n) = b'A' ∷ repeat_A n

unfoldable pub quote : Text → Text → Text
unfolding repeat_A is_kept
quote [] safe = []
quote (c ∷ s) safe =
    let rest = quote s safe in
    if is_kept c safe && not (c == b'%') then c ∷ rest else b'%' ∷ repeat_A c ++ rest

unfoldable pub decode : Option ℕ → Text → Text
decode n [] = []
decode none (c ∷ s) = elim (c == b'%') [ true ↦ decode (some 0) s | false ↦ c ∷ decode none s ]
decode (some n) (c ∷ s) = elim (c == b'A') [
  | true ↦ decode (some (suc n)) s
  | false ↦ n ∷ decode none s
]

unfoldable pub unquote : Text → Text
unfolding decode
unquote s = decode none s

unfoldable pub pairs : List Text → Dict (List Text)
unfolding cut unquote
pairs [] = []
pairs (p ∷ ps) = (unquote (cut b'=' p).0, unquote (cut b'=' p).1 ∷ []) ∷ pairs ps

unfoldable pub flat_pairs : List Text → List (Text × Text)
unfolding cut unquote
flat_pairs [] = []
flat_pairs (p ∷ ps) = (unquote (cut b'=' p).0, unquote (cut b'=' p).1) ∷ flat_pairs ps

unfoldable pub path_of : List Text → Text
unfolding join
path_of [] = []
path_of (p ∷ ps) = b'/' ∷ join b'/' (p ∷ ps)

abbrev pub url_of : Text → Option Text → Text → Text → Url
url_of scheme hostname path query = record {
  scheme = scheme;
  netloc = [];
  hostname = hostname;
  port = ok none;
  username = none;
  password = none;
  path = path;
  query = query;
}

unfoldable pub with_parts : Text → Text → Text → List Text → Url
unfolding join path_of
with_parts scheme query rest ([] ∷ [] ∷ host ∷ ps) = url_of scheme (some host) (path_of ps) query
with_parts scheme query rest parts = url_of scheme none rest query

unfoldable pub with_scheme : Text → List Text → Url
unfolding join split with_parts
with_scheme query [] = url_of [] none [] query
with_scheme query (path ∷ []) = url_of [] none path query
with_scheme query (scheme ∷ p ∷ ps) =
    let rest = join b':' (p ∷ ps) in with_parts scheme query rest (split b'/' rest)

unfoldable pub urlparse : Text → Result Url
unfolding cut split join with_scheme
urlparse s = let (front, query) = cut b'?' s in ok (with_scheme query (split b':' front))

unfoldable pub sample : Urllib
unfolding pairs flat_pairs split urlparse quote unquote
sample = record {
  urlparse = urlparse;
  urlsplit = urlparse;
  quote = quote;
  unquote = unquote;
  parse_qs = λ keep query. pairs (split b'&' query);
  parse_qsl = λ keep query. flat_pairs (split b'&' query);
  int_text = λ s. none;
}

with_parts-port :
    (scheme query rest : Text) (parts : List Text)
    → (with_parts scheme query rest parts).port ≡ ok none
unfolding with_parts
with_parts-port scheme query rest [] = refl
with_parts-port scheme query rest ((c ∷ p) ∷ ps) = refl
with_parts-port scheme query rest ([] ∷ []) = refl
with_parts-port scheme query rest ([] ∷ (c ∷ p) ∷ ps) = refl
with_parts-port scheme query rest ([] ∷ [] ∷ []) = refl
with_parts-port scheme query rest ([] ∷ [] ∷ host ∷ ps) = refl

with_scheme-port : (query : Text) (parts : List Text) → (with_scheme query parts).port ≡ ok none
unfolding with_scheme
with_scheme-port query [] = refl
with_scheme-port query (path ∷ []) = refl
with_scheme-port query (scheme ∷ p ∷ ps) =
    with_parts-port scheme query (join b':' (p ∷ ps)) (split b'/' (join b':' (p ∷ ps)))

lookup-pairs : (name : Text) (ps : List Text) → lookup name (pairs ps) ≢ some []
unfolding lookup pairs
lookup-pairs name [] h = absurd (ground arith)
lookup-pairs name (p ∷ ps) h = ground (arith, lookup-pairs name ps)

ok_ne_err : {A : Type 0} (a : A) (e : Error) → (Result.ok a) ≢ err e
ok_ne_err a e h = ground arith

port-urlparse : (s : Text) (u : Url) → urlparse s ≡ ok u → u.port ≡ ok none
unfolding urlparse
port-urlparse s u h = ground (arith, with_scheme-port (cut b'?' s).1 (split b':' (cut b'?' s).0))

pub sample-IsUrllib : IsUrllib sample
unfolding sample urlparse
sample-IsUrllib = record {
  urlparse_raises =
      λ s e h. absurd (ok_ne_err (with_scheme (cut b'?' s).1 (split b':' (cut b'?' s).0)) e h);
  port_raises = λ s u e h k. absurd (ok_ne_err none e (sym (port-urlparse s u h) ∙ k));
  has_value = λ keep query name. lookup-pairs name (split b'&' query);
}
