-- ===== src/Aio/Ftp/Methods.antt =====
-- src/gufo/blob/aio/ftp.py: `delete`, `features`, `exists` and `scan`. An asynchronous generator is a
-- function into the list of what it yields up to the first key at which its consumer stops.
use gufo_blob.Base.{
  Bool, true, false, List, [], ◌∷◌, ◌++◌, Option, none, some, if◌then◌else◌, Text, Bytes, codes,
  text_eq,
}
use gufo_blob.Base.Result.{
  Result, ok, err, pure, raise, lift, ◌>>=◌, blob_error, key_error, dele_failed,
}
use gufo_blob.Ftp.Common.{
  FtpFeatures, no_features, from_feat, parse_list_line, parse_mlsd_line, not_found, action_ok,
  status, size_ok,
}
use gufo_blob.Ftp.Common.Methods.{split, strip_right}
use gufo_blob.Ftp.Client.{is_code}
use gufo_blob.Ftp.Client.Methods.{
  split_lines, Yields, Parser, join_path, Visit, descend, yield, pass, list_command, full_parts,
  any_infix,
}
use gufo_blob.Aio.Ftp.{AsyncFtp, AsyncFtpBlob, cmd}
use gufo_blob.Aio.Ftp.Transfer.{pasv_cmd}

unfoldable pub delete : Text → AsyncFtp (Unit {0})
unfolding cmd is_code
delete key = do
  (code, _) ← cmd (codes "DELE " ++ key)
  if is_code code not_found
      then raise (key_error key)
      else if is_code code action_ok
      then pure tt
      else raise (blob_error dele_failed)

-- `self._pending_features = …; return …`
abbrev pub remember : Result FtpFeatures × AsyncFtpBlob → Result FtpFeatures × AsyncFtpBlob
remember (ok f, b) = (ok f, record b { pending_features = some f })
remember (err e, b) = (err e, b)

unfoldable pub probe : AsyncFtp FtpFeatures
unfolding cmd is_code from_feat
probe = do
  (code, lines) ← cmd (codes "FEAT")
  if is_code code status then lift (from_feat lines) else pure no_features

abbrev pub features_of : Option FtpFeatures → AsyncFtp FtpFeatures
features_of (some f) b = (ok f, b)
features_of none b = remember (probe b)

unfoldable pub features : AsyncFtp FtpFeatures
unfolding probe
features b = features_of b.pending_features b

-- The branches for one entry, in the order of this client; `rest` is shown by its first element.
unfoldable pub visit : Option Text → Text → Bool → Visit
visit none name is_dir = if is_dir then pass else yield
visit (some first) name is_dir =
    if text_eq name first then (if is_dir then descend else yield) else pass

module _ (stop : Text → Bool) (parser : Parser) (path : Text) (first : Option Text)
    (enter : Text → AsyncFtp Yields) where
  unfoldable pub entry : Text × Bool → AsyncFtp Yields
  unfolding visit
  entry (name, is_dir) =
      let full_path = join_path path name in
      elim (visit first name is_dir) [
        | descend ↦ enter full_path
        | yield ↦ pure (full_path ∷ [], stop full_path)
        | pass ↦ pure ([], false)
      ]

  -- The loop over the lines of a listing.
  unfoldable pub entries : List Bytes → AsyncFtp Yields
  unfolding entry
  entries [] = pure ([], false)
  entries (line ∷ lines) = do
    found ← lift (parser line)
    (keys, stopped) ← entry found
    let rest = entries lines >>= λ (more, s). pure (keys ++ more, s)
    if stopped then pure (keys, true) else rest

-- `except KeyError: return`
abbrev pub or_empty : Result Bytes × AsyncFtpBlob → Result (Option Bytes) × AsyncFtpBlob
or_empty (ok bytes, b) = (ok (some bytes), b)
or_empty (err (key_error k), b) = (ok none, b)
or_empty (err e, b) = (err e, b)

abbrev pub listing : Text → Text → AsyncFtp (Option Bytes)
listing name path b = or_empty (pasv_cmd (list_command name path) b)

module _ (stop : Text → Bool) (name : Text) (parser : Parser) where
  abbrev pub each : Text → Option Text → (Text → AsyncFtp Yields) → Option Bytes → AsyncFtp Yields
  each path first enter none = pure ([], false)
  each path first enter (some bytes) =
      entries stop parser path first enter (split_lines bytes [] false)

  -- `list_dir`; the recursion follows the parts of the prefix.
  unfoldable pub list_dir : List Text → Text → AsyncFtp Yields
  unfolding entries split_lines pasv_cmd
  list_dir [] path =
      let p = strip_right b'/' path in listing name p >>= each p none (λ _. pure ([], false))
  list_dir (part ∷ parts) path =
      let p = strip_right b'/' path in listing name p >>= each p (some part) (list_dir parts)

-- `_scan`
unfoldable pub scan_with : (Text → Bool) → Text → Text → Parser → AsyncFtp Yields
unfolding list_dir full_parts
scan_with stop prefix name parser = list_dir stop name parser (full_parts (split b'/' prefix)) []

unfoldable pub scan_until : (Text → Bool) → Text → AsyncFtp Yields
unfolding features scan_with parse_mlsd_line parse_list_line
scan_until stop prefix = do
  f ← features
  if f.supports_mlsd
      then scan_with stop prefix (codes "MLSD") parse_mlsd_line
      else scan_with stop prefix (codes "LIST") parse_list_line

-- `scan`, consumed to its end
unfoldable pub scan : Text → AsyncFtp (List Text)
unfolding scan_until
scan prefix = scan_until (λ _. false) prefix >>= λ (keys, _). pure keys

-- An answer, or nothing where the next method is tried.
unfoldable pub exists_by_size : FtpFeatures → Text → AsyncFtp (Option Bool)
unfolding cmd is_code
exists_by_size f key =
    if f.supports_size
    then (do
      (code, _) ← cmd (codes "SIZE " ++ key)
      if is_code code size_ok
          then pure (some true)
          else if is_code code not_found
          then pure (some false)
          else pure none)
    else pure none

unfoldable pub exists_by_mlst : FtpFeatures → Text → AsyncFtp (Option Bool)
unfolding cmd is_code any_infix
exists_by_mlst f key =
    if f.supports_mlst
    then (do
      (code, lines) ← cmd (codes "MLST " ++ key)
      if is_code code action_ok
          then pure (some (any_infix (codes "type=file") lines))
          else if is_code code not_found
          then pure (some false)
          else pure none)
    else pure none

-- `async for k in self.scan(key)` returns at the first match.
unfoldable pub exists_by_scan : Text → AsyncFtp Bool
unfolding scan_until
exists_by_scan key = scan_until (λ k. text_eq k key) key >>= λ (_, stopped). pure stopped

abbrev pub otherwise : Option Bool → AsyncFtp Bool → AsyncFtp Bool
otherwise (some answer) m = pure answer
otherwise none m = m

unfoldable pub exists : Text → AsyncFtp Bool
unfolding features exists_by_size exists_by_mlst exists_by_scan
exists key = do
  f ← features
  by_size ← exists_by_size f key
  otherwise by_size (do by_mlst ← exists_by_mlst f key; otherwise by_mlst (exists_by_scan key))
