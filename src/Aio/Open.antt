-- ===== src/Aio/Open.antt =====
-- `from_url`, `open_blob` and the asynchronous context manager of src/gufo/blob/aio/base.py. `loader` is
-- gufo.loader, a parameter.
use gufo_blob.Base.{Text}
use gufo_blob.Base.Result.{Result, ok, err, bind, Exec, pure}
use gufo_blob.Blob.Open.{Loader, load, as_invalid, schema_of}

-- `from_url` of a backend
unfoldable pub from_url {ℓ} : {K A : Type ℓ} → (Text → Result K) → (K → Result A) → Text → Result A
from_url parse_url construct url = bind (parse_url url) construct

unfoldable pub open_blob {ℓ} : {A : Type ℓ} → Loader A → Text → Result A
unfolding schema_of
open_blob loader url = let schema = schema_of url in as_invalid (load (loader schema) schema url)

-- `open` and `close`, where a backend does not define its own
unfoldable pub open_default : {S : Type 0} → Exec S (Unit {0})
open_default = pure tt

unfoldable pub close_default : {S : Type 0} → Exec S (Unit {0})
close_default = pure tt

-- `async with blob: body`, between `__aenter__` and `__aexit__`
abbrev pub aexit : {S A : Type 0} → Result A → Result (Unit {0}) × S → Result A × S
aexit r (ok u, s) = (r, s)
aexit r (err e, s) = (err e, s)

abbrev pub aenter :
    {S A : Type 0} → Exec S A → Exec S (Unit {0}) → Result (Unit {0}) × S → Result A × S
aenter body close (ok u, s) = let (r, t) = body s in aexit r (close t)
aenter body close (err e, s) = (err e, s)

unfoldable pub async_with :
    {S A : Type 0} → Exec S (Unit {0}) → Exec S (Unit {0}) → Exec S A → Exec S A
async_with open_it close body s = aenter body close (open_it s)
