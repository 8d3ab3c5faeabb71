-- ===== src/Memory/Url.antt =====
-- `parse_url` of src/gufo/blob/sync/memory.py, with `from_url`.
use gufo_blob.Base.{
  Bool, false, ◌||◌, List, [], ◌∷◌, Option, none, some, if◌then◌else◌, Text, codes, text_eq,
}
use gufo_blob.Base.Int.{ℤ}
use gufo_blob.Base.Dict.{Dict, lookup}
use gufo_blob.Base.Result.{Result, ok, err, bind, blob_error, invalid_scheme, invalid_int}
use gufo_blob.Blob.Open
use gufo_blob.Url.{Urllib}
use gufo_blob.Memory.{MemoryBlob, init}

-- The keyword arguments
pub record Kwargs : Type 0 where
  pub max_objects : Option ℤ
  pub max_size : Option ℤ

module _ (U : Urllib) where
  abbrev pub int_param : Option ℤ → Result (Option ℤ)
  int_param none = err (blob_error invalid_int)
  int_param (some n) = ok (some n)

  abbrev pub get_int_of : Option (List Text) → Result (Option ℤ)
  get_int_of none = ok none
  get_int_of (some []) = ok none
  get_int_of (some (v ∷ vs)) = int_param (U.int_text v)

  -- `get_int`
  unfoldable pub get_int : Dict (List Text) → Text → Result (Option ℤ)
  unfolding lookup
  get_int params name = get_int_of (lookup name params)

  abbrev pub is_memory : Text → Bool
  is_memory scheme = text_eq scheme (codes "memory") || text_eq scheme []

  unfoldable pub kwargs : Dict (List Text) → Result Kwargs
  unfolding get_int
  kwargs params =
      bind (get_int params (codes "max_objects")) λ n.
        bind (get_int params (codes "max_size")) λ m. ok record { max_objects = n; max_size = m }

  unfoldable pub parse_url : Text → Result Kwargs
  unfolding kwargs
  parse_url url = bind (U.urlparse url) λ parsed.
      if is_memory parsed.scheme
      then kwargs (U.parse_qs false parsed.query)
      else err (blob_error invalid_scheme)

  -- `from_url`
  unfoldable pub from_url : Text → Result MemoryBlob
  unfolding parse_url Open.from_url
  from_url = Open.from_url parse_url (λ k. ok (init k.max_objects k.max_size))
