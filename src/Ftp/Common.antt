-- ===== src/Ftp/Common.antt =====
-- src/gufo/blob/common/ftp.py: reply codes, features and the parsers of reply and listing lines. The
-- helpers are the string methods that the parsers call.
pub mod Methods
pub mod Utf8
pub mod Pasv
pub mod Parents
use gufo_blob.Base.{
  ℕ, ◌+◌, ◌-◌, ◌*◌, Bool, true, false, ◌&&◌, ◌||◌, List, [], ◌∷◌, ◌++◌, Option, none, some, ltb,
  leb, ◌==◌, if◌then◌else◌, Text, Bytes, codes, text_eq, starts_with, length, map,
}
use gufo_blob.Base.Result.{
  Result, ok, err, bind, blob_error, index_error, unrecognized_format, failed_to_decode,
}
use Methods.{split, split_space, strip_left, strip_right, strip, upper, join, last_or, but_last}
use Utf8.{decode}

-- FTP reply codes
abbrev pub transfer_ready : ℕ
transfer_ready = 125

abbrev pub transfer_already_open : ℕ
transfer_already_open = 150

abbrev pub ftp_ok : ℕ
ftp_ok = 200

abbrev pub status : ℕ
status = 211

abbrev pub size_ok : ℕ
size_ok = 213

abbrev pub ready : ℕ
ready = 220

abbrev pub transfer_done : ℕ
transfer_done = 226

abbrev pub pasv : ℕ
pasv = 227

abbrev pub login_ok : ℕ
login_ok = 230

abbrev pub action_ok : ℕ
action_ok = 250

abbrev pub created : ℕ
created = 257

abbrev pub user_ok : ℕ
user_ok = 331

abbrev pub not_found : ℕ
not_found = 550

pub record FtpFeatures : Type 0 where
  pub supports_mlsd : Bool
  pub supports_mlst : Bool
  pub supports_size : Bool

abbrev pub no_features : FtpFeatures
no_features = record { supports_mlsd = false; supports_mlst = false; supports_size = false }

-- One round of the loop over the lines: `parts[0]` raises IndexError where the split is empty.
unfoldable pub add_feature : FtpFeatures → List Bytes → Result FtpFeatures
add_feature f [] = err index_error
add_feature f (name ∷ parts) =
    if text_eq (upper name) (codes "MLSD")
    then ok (record f { supports_mlst = true; supports_mlsd = true })
    else if text_eq (upper name) (codes "SIZE")
    then ok (record f { supports_size = true })
    else ok f

unfoldable pub read_features : List Bytes → FtpFeatures → Result FtpFeatures
unfolding add_feature
read_features [] f = ok f
read_features ([] ∷ lines) f = read_features lines f
read_features ((c ∷ line) ∷ lines) f =
    bind (add_feature f (split_space (c ∷ line))) (read_features lines)

unfoldable pub from_feat : List Bytes → Result FtpFeatures
unfolding read_features
from_feat feat = read_features feat no_features

-- `[\-d]([\-r][\-w][\-x]){3}` at the start of the line
abbrev one_of : ℕ → ℕ → Bool
one_of letter c = c == b'-' || c == letter

unfoldable pub has_unix_perm : Bytes → Bool
has_unix_perm (t ∷ a ∷ b ∷ c ∷ d ∷ e ∷ f ∷ g ∷ h ∷ i ∷ rest) =
    one_of b'd' t
    && (one_of b'r' a && one_of b'w' b && one_of b'x' c)
    && (one_of b'r' d && one_of b'w' e && one_of b'x' f)
    && (one_of b'r' g && one_of b'w' h && one_of b'x' i)
has_unix_perm _ = false

-- `name` decoded, with the failure that both parsers raise
unfoldable pub decoded : Bytes → Bool → Result (Text × Bool)
decoded name is_dir = elim (decode name) [
  | none ↦ err (blob_error failed_to_decode)
  | some t ↦ ok (t, is_dir)
]

unfoldable pub parse_list_line : Bytes → Result (Text × Bool)
unfolding has_unix_perm decoded
parse_list_line line =
    if has_unix_perm line
    then decoded (last_or [] (split_space line)) (starts_with line (codes "d"))
    else err (blob_error unrecognized_format)

unfoldable pub any_eq : Bytes → List Bytes → Bool
any_eq x [] = false
any_eq x (p ∷ ps) = text_eq p x || any_eq x ps

unfoldable pub parse_mlsd_line : Bytes → Result (Text × Bool)
unfolding any_eq decoded
parse_mlsd_line line =
    let parts = split b';' line in
    decoded (strip_right b'/' (strip_left b' ' (last_or [] parts)))
      (any_eq (codes "type=dir") (but_last parts))

-- The loop over `parts[:-1]`; `current` is the joined list so far.
unfoldable pub parents : List Text → List Text → List Text
parents [] current = []
parents (part ∷ parts) current =
    let longer = current ++ part ∷ [] in join b'/' longer ∷ parents parts longer

unfoldable pub iter_parent_dirs : Text → List Text
unfolding parents
iter_parent_dirs key = parents (but_last (split b'/' (strip b'/' key))) []
