-- ===== src/S3/Xml.antt =====
-- src/gufo/blob/common/s3.py: the readers of XML replies, as a fold over the calls that expat makes of
-- its handlers. Expat itself is a parameter: what it makes of a body, or `none` for an ExpatError.
use gufo_blob.Base.{
  ◌-◌, Bool, true, false, ◌&&◌, List, [], ◌∷◌, ◌++◌, Option, none, some, if◌then◌else◌, leb, Text,
  Bytes, codes, text_eq, length, drop,
}
use gufo_blob.Base.Result.{
  Result, ok, err, Error, blob_error, s3_error, unparsable_error, unparsable_list,
}
use gufo_blob.Ftp.Common.Methods.{split, but_last, last_or}

pub data Event : Type 0 where
  start characters finish : Text → Event

abbrev pub Expat : Type 0
Expat = Bytes → Option (List Event)

abbrev pub Field : Type 0
Field = List Text

abbrev pub Values : Type 0
Values = List (Field × List Text)

-- The variables that the handlers share.
pub record Reader : Type 0 where
  pub path : List Text
  pub active_field : Option Field
  pub text : Text
  pub values : Values

-- `tag.rsplit("}", 1)[-1]`
unfoldable pub local_name : Text → Text
unfolding split last_or
local_name tag = last_or [] (split b'}' tag)

unfoldable pub names_eq : List Text → List Text → Bool
names_eq [] [] = true
names_eq (a ∷ p) (b ∷ q) = text_eq a b && names_eq p q
names_eq _ _ = false

-- `path[-len(field):] == list(field)`; no field is empty.
unfoldable pub ends_at : List Text → Field → Bool
unfolding names_eq
ends_at path field = names_eq (drop (length path - length field) path) field

-- The loop over the fields, to the first that matches
unfoldable pub find_field : List Field → List Text → Option Field
unfolding ends_at
find_field [] path = none
find_field (field ∷ fields) path =
    let rest = find_field fields path in
    if leb (length field) (length path) && ends_at path field then some field else rest

unfoldable pub add_value : Field → Text → Values → Values
unfolding names_eq
add_value field v [] = []
add_value field v ((f, vs) ∷ rest) =
    if names_eq f field then (f, vs ++ v ∷ []) ∷ rest else (f, vs) ∷ add_value field v rest

unfoldable pub values_of : Field → Values → List Text
unfolding names_eq
values_of field [] = []
values_of field ((f, vs) ∷ rest) = if names_eq f field then vs else values_of field rest

-- `_start`
abbrev pub on_match : Option Field → Reader → Reader
on_match none r = r
on_match (some field) r = record r { active_field = some field; text = [] }

unfoldable pub on_start : List Field → Text → Reader → Reader
unfolding local_name find_field
on_start fields tag r =
    let path = r.path ++ local_name tag ∷ [] in
    on_match (find_field fields path) (record r { path = path })

-- `_data`
abbrev pub add_text : Option Field → Text → Reader → Reader
add_text none value r = r
add_text (some field) value r = record r { text = r.text ++ value }

-- `_end`
abbrev pub close_field : Option Field → Reader → Reader
close_field none r = r
close_field (some field) r =
    if ends_at r.path field
    then record r { values = add_value field r.text r.values; active_field = none; text = [] }
    else r

unfoldable pub on_end : Reader → Reader
unfolding ends_at add_value but_last
on_end r = let q = close_field r.active_field r in record q { path = but_last q.path }

unfoldable pub handle : List Field → Event → Reader → Reader
unfolding on_start on_end
handle fields (start tag) r = on_start fields tag r
handle fields (characters value) r = add_text r.active_field value r
handle fields (finish tag) r = on_end r

unfoldable pub handle_all : List Field → List Event → Reader → Reader
unfolding handle
handle_all fields [] r = r
handle_all fields (e ∷ events) r = handle_all fields events (handle fields e r)

unfoldable pub no_values : List Field → Values
no_values [] = []
no_values (field ∷ fields) = (field, []) ∷ no_values fields

unfoldable pub first_reader : List Field → Reader
unfolding no_values
first_reader fields = record {
  path = [];
  active_field = none;
  text = [];
  values = no_values fields;
}

-- `_parse_xml_fields`
unfoldable pub parse_xml_fields : Expat → Bytes → List Field → Option Values
unfolding handle_all first_reader
parse_xml_fields expat body fields = elim (expat body) [
  | none ↦ none
  | some events ↦ some (handle_all fields events (first_reader fields)).values
]

abbrev pub key_field : Field
key_field = codes "Contents" ∷ codes "Key" ∷ []

abbrev pub token_field : Field
token_field = codes "ListBucketResult" ∷ codes "NextContinuationToken" ∷ []

abbrev pub list_fields : List Field
list_fields = key_field ∷ token_field ∷ []

-- `[key for key in … if key]`
unfoldable pub not_empty : List Text → List Text
not_empty [] = []
not_empty ([] ∷ keys) = not_empty keys
not_empty ((c ∷ key) ∷ keys) = (c ∷ key) ∷ not_empty keys

-- `tokens[0] if tokens and tokens[0] else None`
unfoldable pub first_token : List Text → Option Text
first_token [] = none
first_token ([] ∷ tokens) = none
first_token ((c ∷ token) ∷ tokens) = some (c ∷ token)

-- `S3Xml.list_objects`
abbrev pub listed : Option Values → Result (List Text × Option Text)
listed none = err (blob_error unparsable_list)
listed (some values) =
    ok (not_empty (values_of key_field values), first_token (values_of token_field values))

unfoldable pub list_objects : Expat → Bytes → Result (List Text × Option Text)
unfolding parse_xml_fields values_of not_empty first_token
list_objects expat body = listed (parse_xml_fields expat body list_fields)

abbrev pub code_field : Field
code_field = codes "Error" ∷ codes "Code" ∷ []

abbrev pub message_field : Field
message_field = codes "Error" ∷ codes "Message" ∷ []

abbrev pub error_fields : List Field
error_fields = code_field ∷ message_field ∷ []

-- `next(iter(values), "")`
abbrev pub first_or_empty : List Text → Text
first_or_empty [] = []
first_or_empty (v ∷ vs) = v

abbrev pub or_unknown : Text → Text
or_unknown [] = codes "Unknown"
or_unknown (c ∷ code) = c ∷ code

-- `S3Error.from_xml`
abbrev pub error_of : Option Values → Error
error_of none = blob_error unparsable_error
error_of (some values) = blob_error (
    s3_error (or_unknown (first_or_empty (values_of code_field values)))
      (first_or_empty (values_of message_field values)))

unfoldable pub from_xml : Expat → Bytes → Error
unfolding parse_xml_fields values_of
from_xml expat body = error_of (parse_xml_fields expat body error_fields)
