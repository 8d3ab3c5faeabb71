-- ===== src/Blob/Open.antt =====
-- `from_url`, `open_blob` and the context manager of src/gufo/blob/sync/base.py; those of
-- src/gufo/blob/aio/base.py differ in `await` alone. `loader` is gufo.loader, a parameter.
use gufo_blob.Base.{ℕ, [], ◌∷◌, Option, none, some, ◌==◌, if◌then◌else◌, Text, codes, ◌≡◌, refl}
use gufo_blob.Base.Result.{Result, ok, err, bind, Exec, blob_error, key_error, invalid_schema}

-- `from_url` of a backend: `parse_url`, then the constructor with its keyword arguments
unfoldable pub from_url {ℓ} : {K A : Type ℓ} → (Text → Result K) → (K → Result A) → Text → Result A
from_url parse_url construct url = bind (parse_url url) construct

abbrev pub behind : ℕ → Option Text → Option Text
behind c none = none
behind c (some p) = some (c ∷ p)

-- `url.split(":", 1)[0]`, with `none` if there is no colon
unfoldable pub before_colon : Text → Option Text
before_colon [] = none
before_colon (c ∷ s) = let rest = behind c (before_colon s) in if c == b':' then some [] else rest

abbrev pub schema_or_file : Option Text → Text
schema_or_file none = codes "file"
schema_or_file (some s) = s

unfoldable pub schema_of : Text → Text
unfolding before_colon
schema_of url = schema_or_file (before_colon url)

-- `loader[schema]`: the `from_url` of a backend, or a KeyError
abbrev pub Loader {ℓ} : Type ℓ → Type ℓ
Loader A = Text → Option (Text → Result A)

abbrev pub load {ℓ} : {A : Type ℓ} → Option (Text → Result A) → Text → Text → Result A
load none schema url = err (key_error schema)
load (some backend) schema url = backend url

-- `except KeyError`
abbrev pub as_invalid {ℓ} : {A : Type ℓ} → Result A → Result A
as_invalid (err (key_error k)) = err (blob_error invalid_schema)
as_invalid r = r

unfoldable pub open_blob {ℓ} : {A : Type ℓ} → Loader A → Text → Result A
unfolding schema_of
open_blob loader url = let schema = schema_of url in as_invalid (load (loader schema) schema url)

-- `with blob: body`, between `__enter__` and `__exit__`: the body runs if `open` returns, and then
-- `close` on every path; an exception of `close` takes the place of the result.
abbrev pub exit : {S A : Type 0} → Result A → Result (Unit {0}) × S → Result A × S
exit r (ok u, s) = (r, s)
exit r (err e, s) = (err e, s)

pub exit_state : {S A : Type 0} (r : Result A) (x : Result (Unit {0}) × S) → (exit r x).1 ≡ x.1
exit_state r (ok u, c) = refl
exit_state r (err e, c) = refl

abbrev pub enter :
    {S A : Type 0} → Exec S A → Exec S (Unit {0}) → Result (Unit {0}) × S → Result A × S
enter body close (ok u, s) = let (r, t) = body s in exit r (close t)
enter body close (err e, s) = (err e, s)

unfoldable pub with_blob :
    {S A : Type 0} → Exec S (Unit {0}) → Exec S (Unit {0}) → Exec S A → Exec S A
with_blob open_it close body s = enter body close (open_it s)
