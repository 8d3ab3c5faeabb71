-- ===== src/S3/Errors/Rules.antt =====
-- Results that only some exceptions may end, for the methods of the S3 store.
use gufo_blob.Base.{
  Bool, true, false, Option, none, some, if◌then◌else◌, Text, Bytes, ◌≡◌, ◌≢◌, arith,
}
use gufo_blob.Base.Result.{
  Result, ok, err, bind, Error, Exec, continue, blob_error, key_error, index_error, unicode_error,
  value_error, os_exception,
}
use gufo_blob.S3.Xml.{
  Expat, from_xml, list_objects, listed, error_of, Values, parse_xml_fields, error_fields,
  list_fields,
}

-- A value, BlobError, the KeyError of one key, if there is such a key, or UnicodeEncodeError where the
-- condition `unicode` holds
abbrev pub Allowed {ℓ} : {A : Type ℓ} → Type 0 → Option Text → Result A → Type 0
Allowed unicode key (ok a) = Unit
Allowed unicode key (err (blob_error x)) = Unit
Allowed unicode key (err (key_error j)) = key ≡ some j
Allowed unicode key (err unicode_error) = unicode
Allowed unicode key (err _) = ⊥

-- The same of a generator that is run, perhaps not to its end
abbrev pub AllowedScan : {S A : Type 0} → Option (Result A × S) → Type 0
AllowedScan none = Unit
AllowedScan (some (r, t)) = Allowed Unit none r

pub if-Allowed :
    {S A : Type 0} (u : Type 0) (key : Option Text) (t : Bool) (m n : Exec S A) (s : S)
    → Allowed u key (m s).0
    → Allowed u key (n s).0
    → Allowed u key ((if t then m else n) s).0
if-Allowed u key true m n s h k = h
if-Allowed u key false m n s h k = k

pub from_xml-Allowed :
    (A u : Type 0) (key : Option Text) (expat : Expat) (body : Bytes)
    → Allowed {A = A} u key (err (from_xml expat body))
unfolding from_xml
from_xml-Allowed A u key expat body = of_values (parse_xml_fields expat body error_fields)
  where
    of_values : (o : Option Values) → Allowed {A = A} u key (err (error_of o))
    of_values none = tt
    of_values (some values) = tt

pub list_objects-Allowed :
    (u : Type 0) (expat : Expat) (body : Bytes) → Allowed u none (list_objects expat body)
unfolding list_objects
list_objects-Allowed u expat body = of_values (parse_xml_fields expat body list_fields)
  where
    of_values : (o : Option Values) → Allowed u none (listed o)
    of_values none = tt
    of_values (some values) = tt

none_ne_some : (j : Text) → ◌≢◌ {A = Option Text} none (some j)
none_ne_some j e = ground arith

-- An exception that may leave a method with no key may leave one with a key, whatever is returned.
pub recast-Allowed :
    (A B u : Type 0) (key : Option Text) (e : Error)
    → Allowed {A = A} u none (err e)
    → Allowed {A = B} u key (err e)
recast-Allowed A B u key (blob_error x) h = tt
recast-Allowed A B u key (key_error j) h = absurd (none_ne_some j h)
recast-Allowed A B u key index_error h = absurd h
recast-Allowed A B u key unicode_error h = h
recast-Allowed A B u key value_error h = absurd h
recast-Allowed A B u key (os_exception kind) h = absurd h

pub continue-Allowed :
    {S A B : Type 0} (u : Type 0) (key : Option Text) (x : Result A × S) (f : A → Exec S B)
    → Allowed u none x.0
    → ((a : A) (t : S) → Allowed u key (f a t).0)
    → Allowed u key (continue x f).0
continue-Allowed u key (ok a, t) f h k = k a t
continue-Allowed {A = A} {B = B} u key (err e, t) f h k = recast-Allowed A B u key e h

pub bind-Allowed :
    {A B : Type 0} (u : Type 0) (r : Result A) (f : A → Result B)
    → Allowed u none r
    → ((a : A) → Allowed u none (f a))
    → Allowed u none (bind r f)
bind-Allowed u (ok a) f h k = k a
bind-Allowed {A = A} {B = B} u (err e) f h k = recast-Allowed A B u none e h
