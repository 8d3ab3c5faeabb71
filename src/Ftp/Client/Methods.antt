-- ===== src/Ftp/Client/Methods.antt =====
-- `delete`, `features`, `exists` and `scan` of sync/ftp.py. A generator is a function into the list of
-- what it yields up to the first key at which its consumer stops.
use gufo_blob.Base.{
  ℕ, Bool, true, false, ◌||◌, List, [], ◌∷◌, ◌++◌, Option, none, some, ◌==◌, if◌then◌else◌, Text,
  Bytes, codes, text_eq, starts_with,
}
use gufo_blob.Base.Result.{
  Result, ok, err, pure, raise, lift, ◌>>=◌, blob_error, key_error, dele_failed,
}
use gufo_blob.Ftp.Common.{
  FtpFeatures, no_features, from_feat, parse_list_line, parse_mlsd_line, not_found, action_ok,
  status, size_ok,
}
use gufo_blob.Ftp.Common.Methods.{split, strip_right}
use gufo_blob.Ftp.Client.{Ftp, FtpBlob, is_code, cmd}
use gufo_blob.Ftp.Client.Transfer.{pasv_cmd}

unfoldable pub delete : Text → Ftp (Unit {0})
unfolding cmd is_code
delete key = do
  (code, _) ← cmd (codes "DELE " ++ key)
  if is_code code not_found
      then raise (key_error key)
      else if is_code code action_ok
      then pure tt
      else raise (blob_error dele_failed)

-- What `cached_property` stores when the body has returned.
abbrev pub remember : Result FtpFeatures × FtpBlob → Result FtpFeatures × FtpBlob
remember (ok f, b) = (ok f, record b { cached_features = some f })
remember (err e, b) = (err e, b)

unfoldable pub probe : Ftp FtpFeatures
unfolding cmd is_code from_feat
probe = do
  (code, lines) ← cmd (codes "FEAT")
  if is_code code status then lift (from_feat lines) else pure no_features

abbrev pub features_of : Option FtpFeatures → Option FtpFeatures → Ftp FtpFeatures
features_of (some f) pending b = (ok f, b)
features_of none (some f) b = remember (ok f, b)
features_of none none b = remember (probe b)

unfoldable pub features : Ftp FtpFeatures
unfolding probe
features b = features_of b.cached_features b.pending_features b

pub data LineByte : Type 0 where
  line_feed carriage_return plain : LineByte

unfoldable pub line_byte : ℕ → LineByte
line_byte c = if c == 10 then line_feed else if c == 13 then carriage_return else plain

-- `bytes.splitlines()`: a line ends at LF, CR or CR LF; the flag says that a CR has just ended one.
unfoldable pub split_lines : Bytes → Bytes → Bool → List Bytes
unfolding line_byte
split_lines [] [] after_cr = []
split_lines [] (c ∷ line) after_cr = (c ∷ line) ∷ []
split_lines (c ∷ s) line after_cr = elim (line_byte c) [
  | line_feed ↦ let rest = split_lines s [] false in if after_cr then rest else line ∷ rest
  | carriage_return ↦ line ∷ split_lines s [] true
  | plain ↦ split_lines s (line ++ c ∷ []) false
]

-- What a generator has yielded, and whether its consumer has stopped.
abbrev pub Yields : Type 0
Yields = List Text × Bool

abbrev pub Parser : Type 0
Parser = Bytes → Result (Text × Bool)

abbrev pub join_path : Text → Text → Text
join_path [] name = name
join_path (c ∷ path) name = (c ∷ path) ++ b'/' ∷ name

-- The branches for one entry: descend, yield, or pass over it.
pub data Visit : Type 0 where
  descend yield pass : Visit

-- `rest` is shown by its first element.
unfoldable pub visit : Option Text → Text → Bool → Visit
visit none name is_dir = if is_dir then pass else yield
visit (some first) name is_dir =
    if text_eq name first then (if is_dir then descend else yield) else pass

module _ (stop : Text → Bool) (parser : Parser) (path : Text) (first : Option Text)
    (enter : Text → Ftp Yields) where
  -- One entry; `enter` lists the directory that it names.
  unfoldable pub entry : Text × Bool → Ftp Yields
  unfolding visit
  entry (name, is_dir) =
      let full_path = join_path path name in
      elim (visit first name is_dir) [
        | descend ↦ enter full_path
        | yield ↦ pure (full_path ∷ [], stop full_path)
        | pass ↦ pure ([], false)
      ]

  -- The loop over the lines of a listing.
  unfoldable pub entries : List Bytes → Ftp Yields
  unfolding entry
  entries [] = pure ([], false)
  entries (line ∷ lines) = do
    found ← lift (parser line)
    (keys, stopped) ← entry found
    let rest = entries lines >>= λ (more, s). pure (keys ++ more, s)
    if stopped then pure (keys, true) else rest

-- `f"{cmd} {path}" if path else cmd`
abbrev pub list_command : Text → Text → Text
list_command name [] = name
list_command name (c ∷ path) = name ++ 32 ∷ c ∷ path

-- `except KeyError: return`
abbrev pub or_empty : Result Bytes × FtpBlob → Result (Option Bytes) × FtpBlob
or_empty (ok bytes, b) = (ok (some bytes), b)
or_empty (err (key_error k), b) = (ok none, b)
or_empty (err e, b) = (err e, b)

abbrev pub listing : Text → Text → Ftp (Option Bytes)
listing name path b = or_empty (pasv_cmd (list_command name path) b)

module _ (stop : Text → Bool) (name : Text) (parser : Parser) where
  abbrev pub each : Text → Option Text → (Text → Ftp Yields) → Option Bytes → Ftp Yields
  each path first enter none = pure ([], false)
  each path first enter (some bytes) =
      entries stop parser path first enter (split_lines bytes [] false)

  -- `list_dir`; the recursion follows the parts of the prefix.
  unfoldable pub list_dir : List Text → Text → Ftp Yields
  unfolding entries split_lines pasv_cmd
  list_dir [] path =
      let p = strip_right b'/' path in listing name p >>= each p none (λ _. pure ([], false))
  list_dir (part ∷ parts) path =
      let p = strip_right b'/' path in listing name p >>= each p (some part) (list_dir parts)

-- `[p for p in prefix.split("/") if p]`
unfoldable pub full_parts : List Text → List Text
full_parts [] = []
full_parts ([] ∷ ps) = full_parts ps
full_parts ((c ∷ p) ∷ ps) = (c ∷ p) ∷ full_parts ps

-- `_scan`
unfoldable pub scan_with : (Text → Bool) → Text → Text → Parser → Ftp Yields
unfolding list_dir full_parts
scan_with stop prefix name parser = list_dir stop name parser (full_parts (split b'/' prefix)) []

unfoldable pub scan_until : (Text → Bool) → Text → Ftp Yields
unfolding features scan_with parse_mlsd_line parse_list_line
scan_until stop prefix = do
  f ← features
  if f.supports_mlsd
      then scan_with stop prefix (codes "MLSD") parse_mlsd_line
      else scan_with stop prefix (codes "LIST") parse_list_line

-- `scan`, consumed to its end
unfoldable pub scan : Text → Ftp (List Text)
unfolding scan_until
scan prefix = scan_until (λ _. false) prefix >>= λ (keys, _). pure keys

-- `b in line` of bytes
unfoldable pub has_infix : Bytes → Bytes → Bool
unfolding starts_with
has_infix x [] = starts_with [] x
has_infix x (c ∷ s) = starts_with (c ∷ s) x || has_infix x s

unfoldable pub any_infix : Bytes → List Bytes → Bool
unfolding has_infix
any_infix x [] = false
any_infix x (l ∷ ls) = has_infix x l || any_infix x ls

-- An answer, or nothing where the next method is tried.
unfoldable pub exists_by_size : FtpFeatures → Text → Ftp (Option Bool)
unfolding cmd is_code
exists_by_size f key =
    if f.supports_size
    then (do
      (code, _) ← cmd (codes "SIZE " ++ key)
      if is_code code size_ok
          then pure (some true)
          else if is_code code not_found
          then pure (some false)
          else pure none)
    else pure none

unfoldable pub exists_by_mlst : FtpFeatures → Text → Ftp (Option Bool)
unfolding cmd is_code any_infix
exists_by_mlst f key =
    if f.supports_mlst
    then (do
      (code, lines) ← cmd (codes "MLST " ++ key)
      if is_code code action_ok
          then pure (some (any_infix (codes "type=file") lines))
          else if is_code code not_found
          then pure (some false)
          else pure none)
    else pure none

-- `any(k == key for k in self.scan(key))` stops at the first match.
unfoldable pub exists_by_scan : Text → Ftp Bool
unfolding scan_until
exists_by_scan key = scan_until (λ k. text_eq k key) key >>= λ (_, stopped). pure stopped

abbrev pub otherwise : Option Bool → Ftp Bool → Ftp Bool
otherwise (some answer) m = pure answer
otherwise none m = m

unfoldable pub exists : Text → Ftp Bool
unfolding features exists_by_size exists_by_mlst exists_by_scan
exists key = do
  f ← features
  by_size ← exists_by_size f key
  otherwise by_size (do by_mlst ← exists_by_mlst f key; otherwise by_mlst (exists_by_scan key))
