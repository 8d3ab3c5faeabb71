-- ===== src/Sqlite/Identifiers.antt =====
-- Which names may be spliced into a statement.
use gufo_blob.Base.{ℕ, true, [], ◌∷◌, Text, All, ◌≡◌, ◌↔◌, ◌≤◌, ◌⊎◌, arith, Bool-cases, inl, inr}
use gufo_blob.Base.Result.{ok, err, blob_error, invalid_identifier}
use gufo_blob.Sqlite.{is_letter, is_word, all_word, fullmatch_db_item, clean_db_item}

-- An ASCII letter or the underscore; or also a digit.
abbrev pub Letter : ℕ → Type 0
Letter c = ((b'A' ≤ c) × (c ≤ b'Z')) ⊎ (((b'a' ≤ c) × (c ≤ b'z')) ⊎ (c ≡ b'_'))

abbrev pub Word : ℕ → Type 0
Word c = Letter c ⊎ ((b'0' ≤ c) × (c ≤ b'9'))

abbrev pub IsIdentifier : Text → Type 0
IsIdentifier [] = ⊥
IsIdentifier (c ∷ cs) = Letter c × All Word cs

is_letter_iff : (c : ℕ) → (is_letter c ≡ true) ↔ Letter c
is_letter_iff c = ground arith

is_word_iff : (c : ℕ) → (is_word c ≡ true) ↔ Word c
is_word_iff c = ground arith

all_word_iff : (cs : Text) → (all_word cs ≡ true) ↔ All Word cs
unfolding all_word
all_word_iff [] = ground arith
all_word_iff (c ∷ cs) = ground (arith, is_word_iff c, all_word_iff cs)

fullmatch_iff : (cs : Text) → (fullmatch_db_item cs ≡ true) ↔ IsIdentifier cs
unfolding fullmatch_db_item
fullmatch_iff [] = ground arith
fullmatch_iff (c ∷ cs) = ground (arith, is_letter_iff c, all_word_iff cs)

-- A name is accepted, and unchanged, exactly when it is an ASCII letter or `_` followed by ASCII
-- letters, digits and `_`; every other name, the empty one included, raises.
pub clean_db_item_iff :
    (name : Text)
    → ((clean_db_item name ≡ ok name) ↔ IsIdentifier name)
      × ((clean_db_item name ≡ err (blob_error invalid_identifier)) ↔ (¬ IsIdentifier name))
unfolding clean_db_item
clean_db_item_iff name = elim (Bool-cases (fullmatch_db_item name)) [
  | inl e ↦ ground (arith, e, fullmatch_iff name)
  | inr e ↦ ground (arith, e, fullmatch_iff name)
]
