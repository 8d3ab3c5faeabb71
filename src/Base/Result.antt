-- ===== src/Base/Result.antt =====
-- The exceptions of the program (error.py and the built-in ones that can leave it), results of code
-- that may raise, and the state monad in which its methods run.
use mathlib.Core.Path.{◌≡◌, refl}
use mathlib.Core.Logic.{◌⊎◌, inl, inr}
use gufo_blob.Base.Words.{Text}

-- Why a `BlobError` is raised: one constructor for each raise site. Only an S3 error keeps what
-- its message is made of, the code and the message of the reply.
pub data Reason : Type 0 where
  max_objects_exceeded max_size_exceeded : Reason
  expecting_integer too_low too_large octet_out_of_bounds : Reason
  invalid_pasv unrecognized_format failed_to_decode : Reason
  invalid_identifier : Reason
  invalid_root invalid_key key_escapes : Reason
  invalid_scheme invalid_schema no_hostname : Reason
  connect_failed login_failed cwd_failed type_failed : Reason
  timed_out os_error server_closed response_too_short send_error : Reason
  unexpected_code pasv_failed data_connection_failed unexpected_response : Reason
  mkdir_failed dele_failed : Reason
  bucket_required invalid_bucket invalid_int : Reason
  keys_not_together unparsable_error unparsable_list : Reason
  s3_request_failed : Reason
  s3_error : Text → Text → Reason

-- The exceptions of the operating system that the program lets through.
pub data OsKind : Type 0 where
  file_not_found name_too_long is_a_directory not_a_directory file_exists connection_lost : OsKind

pub data Error : Type 0 where
  blob_error : Reason → Error
  key_error : Text → Error
  index_error unicode_error value_error : Error
  os_exception : OsKind → Error

pub data Result {ℓ} (A : Type ℓ) : Type ℓ where
  ok : A → Result A
  err : Error → Result A

pub Result-cases {ℓ} :
    {A : Type ℓ} (r : Result A) → ((a : A) × (r ≡ ok a)) ⊎ ((e : Error) × (r ≡ err e))
Result-cases (ok a) = inl (a, refl)
Result-cases (err e) = inr (e, refl)

abbrev pub bind {ℓ κ} : {A : Type ℓ} {B : Type κ} → Result A → (A → Result B) → Result B
bind (ok a) f = f a
bind (err e) f = err e

-- A method reads and writes its object and may raise: what was written before a raise stays.
abbrev pub Exec {ℓ κ} : Type ℓ → Type κ → Type (ℓ ⊔ κ)
Exec S A = S → Result A × S

abbrev pub pure {ℓ κ} : {S : Type ℓ} {A : Type κ} → A → Exec S A
pure a s = (ok a, s)

abbrev pub raise {ℓ κ} : {S : Type ℓ} {A : Type κ} → Error → Exec S A
raise e s = (err e, s)

abbrev pub lift {ℓ κ} : {S : Type ℓ} {A : Type κ} → Result A → Exec S A
lift r s = (r, s)

abbrev pub continue {ℓ κ} :
    {S A : Type ℓ} {B : Type κ} → Result A × S → (A → Exec S B) → Result B × S
continue (ok a, s) f = f a s
continue (err e, s) f = (err e, s)

infixl 10 ◌>>=◌ ◌>>◌
abbrev pub ◌>>=◌ {ℓ κ} : {S A : Type ℓ} {B : Type κ} → Exec S A → (A → Exec S B) → Exec S B
◌>>=◌ m f s = continue (m s) f

abbrev pub ◌>>◌ {ℓ κ} : {S A : Type ℓ} {B : Type κ} → Exec S A → Exec S B → Exec S B
m >> n = m >>= λ _. n
