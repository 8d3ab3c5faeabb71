-- ===== src/Ftp/Client/Calls.antt =====
-- Any sequence of calls on one object.
use gufo_blob.Base.{
  ◌≡◌, refl, arith, Bool, false, List, [], ◌∷◌, ◌++◌, Option, none, some, Text, Bytes, codes,
  text_eq,
}
use gufo_blob.Base.Result.{
  os_exception, Result, ok, err, pure, lift, blob_error, key_error, index_error, unicode_error,
  value_error,
}
use gufo_blob.Ftp.Common.{
  FtpFeatures, status, not_found, action_ok, size_ok, parse_mlsd_line, parse_list_line,
}
use gufo_blob.Ftp.Common.Methods.{strip_right, split}
use gufo_blob.Ftp.Client.{FtpBlob, Ftp, raw_cmd, open_blob, cmd, suppress, finish, close, is_code}
use gufo_blob.Ftp.Client.Transfer.{pasv_cmd, get, put}
use gufo_blob.Ftp.Client.Methods.{
  descend, yield, pass, Visit, join_path, split_lines, delete, features, features_of, remember,
  probe, Yields, Parser, entry, entries, visit, listing, or_empty, list_command, each, list_dir,
  full_parts, scan_with, scan_until, scan, exists, exists_by_size, exists_by_mlst, exists_by_scan,
  otherwise,
}
use gufo_blob.Ftp.Client.Keeps.{Keeps}
use gufo_blob.Ftp.Client.Bracket.{test-Balanced, pasv_cmd-Balanced, put-Balanced, suppress-Balanced}
use gufo_blob.Ftp.Client.Balance.{
  opens, releases, Balanced, bind-Balanced, if-Balanced, raw_cmd-Balanced, connection-Balanced,
  cmd-Balanced,
}

delete-Balanced : (key : Text) → Keeps Balanced (delete key)
unfolding delete
delete-Balanced key = bind-Balanced (cmd (codes "DELE " ++ key)) _ (cmd-Balanced _) λ (code, _).
    test-Balanced (is_code code not_found) _ _ (λ b. refl)
      (test-Balanced (is_code code action_ok) _ _ (λ b. refl) (λ b. refl))

probe-Balanced : Keeps Balanced probe
unfolding probe
probe-Balanced =
    bind-Balanced (cmd (codes "FEAT")) _ (cmd-Balanced _)
      λ (code, lines). test-Balanced (is_code code status) _ _ (λ b. refl) (λ b. refl)

remember-Balanced :
    (b : FtpBlob) (x : Result FtpFeatures × FtpBlob) → Balanced b x.1 → Balanced b (remember x).1
remember-Balanced b (ok f, c) h = h
remember-Balanced b (err e, c) h = h

features_of-Balanced :
    (cached pending : Option FtpFeatures) → Keeps Balanced (features_of cached pending)
features_of-Balanced (some f) pending b = refl
features_of-Balanced none (some f) b = refl
features_of-Balanced none none b = remember-Balanced b (probe b) (probe-Balanced b)

features-Balanced : Keeps Balanced features
unfolding features
features-Balanced b = features_of-Balanced b.cached_features b.pending_features b

or_empty-Balanced :
    (b : FtpBlob) (x : Result Bytes × FtpBlob) → Balanced b x.1 → Balanced b (or_empty x).1
or_empty-Balanced b (ok bytes, c) h = h
or_empty-Balanced b (err (blob_error x), c) h = h
or_empty-Balanced b (err (key_error x), c) h = h
or_empty-Balanced b (err index_error, c) h = h
or_empty-Balanced b (err unicode_error, c) h = h
or_empty-Balanced b (err value_error, c) h = h
or_empty-Balanced b (err (os_exception kind), c) h = h

module _ (stop : Text → Bool) (parser : Parser) (path : Text) (first : Option Text)
    (enter : Text → Ftp Yields) (enters : (p : Text) → Keeps Balanced (enter p)) where
  visit-Balanced :
      (full_path : Text) (v : Visit)
      → Keeps Balanced (elim v as (λ _. Ftp Yields) [
        | descend ↦ enter full_path
        | yield ↦ pure (full_path ∷ [], stop full_path)
        | pass ↦ pure ([], false)
      ])
  visit-Balanced full_path descend = enters full_path
  visit-Balanced full_path yield = λ b. refl
  visit-Balanced full_path pass = λ b. refl

  entry-Balanced : (found : Text × Bool) → Keeps Balanced (entry stop parser path first enter found)
  unfolding entry
  entry-Balanced (name, is_dir) = visit-Balanced (join_path path name) (visit first name is_dir)

  entries-Balanced :
      (lines : List Bytes) → Keeps Balanced (entries stop parser path first enter lines)
  unfolding entries
  entries-Balanced [] = λ b. refl
  entries-Balanced (line ∷ lines) =
      bind-Balanced (lift (parser line)) _ (λ b. refl)
        λ found.
          bind-Balanced (entry stop parser path first enter found) _ (entry-Balanced found)
            λ (keys, stopped).
              test-Balanced stopped _ _ (λ b. refl)
                (bind-Balanced (entries stop parser path first enter lines) _
                  (entries-Balanced lines) (λ _ b. refl))

module _ (stop : Text → Bool) (name : Text) (parser : Parser) where
  listing-Balanced : (path : Text) → Keeps Balanced (listing name path)
  listing-Balanced path b =
      or_empty-Balanced b (pasv_cmd (list_command name path) b)
        (pasv_cmd-Balanced (list_command name path) b)

  each-Balanced :
      (path : Text) (first : Option Text) (enter : Text → Ftp Yields)
      → ((p : Text) → Keeps Balanced (enter p))
      → (o : Option Bytes) → Keeps Balanced (each stop name parser path first enter o)
  each-Balanced path first enter h none = λ b. refl
  each-Balanced path first enter h (some bytes) =
      entries-Balanced stop parser path first enter h (split_lines bytes [] false)

  list_dir-Balanced :
      (parts : List Text) (path : Text) → Keeps Balanced (list_dir stop name parser parts path)
  unfolding list_dir
  list_dir-Balanced [] path =
      let p = strip_right b'/' path in
      bind-Balanced (listing name p) (each stop name parser p none (λ _. pure ([], false)))
        (listing-Balanced p) (each-Balanced p none (λ _. pure ([], false)) (λ _ b. refl))
  list_dir-Balanced (part ∷ parts) path =
      let p = strip_right b'/' path in
      bind-Balanced (listing name p)
        (each stop name parser p (some part) (list_dir stop name parser parts)) (listing-Balanced p)
        (each-Balanced p (some part) (list_dir stop name parser parts) (list_dir-Balanced parts))

scan_until-Balanced : (stop : Text → Bool) (prefix : Text) → Keeps Balanced (scan_until stop prefix)
unfolding scan_until scan_with
scan_until-Balanced stop prefix = bind-Balanced features _ features-Balanced λ f.
    test-Balanced f.supports_mlsd _ _
      (list_dir-Balanced stop (codes "MLSD") parse_mlsd_line (full_parts (split b'/' prefix)) [])
      (list_dir-Balanced stop (codes "LIST") parse_list_line (full_parts (split b'/' prefix)) [])

scan-Balanced : (prefix : Text) → Keeps Balanced (scan prefix)
unfolding scan
scan-Balanced prefix =
    bind-Balanced (scan_until (λ _. false) prefix) _ (scan_until-Balanced (λ _. false) prefix)
      (λ _ b. refl)

by_size-Balanced : (f : FtpFeatures) (key : Text) → Keeps Balanced (exists_by_size f key)
unfolding exists_by_size
by_size-Balanced f key =
    test-Balanced f.supports_size _ _
      (bind-Balanced (cmd (codes "SIZE " ++ key)) _ (cmd-Balanced _) (λ (code, _).
        test-Balanced (is_code code size_ok) _ _ (λ b. refl)
          (test-Balanced (is_code code not_found) _ _ (λ b. refl) (λ b. refl))))
      (λ b. refl)

by_mlst-Balanced : (f : FtpFeatures) (key : Text) → Keeps Balanced (exists_by_mlst f key)
unfolding exists_by_mlst
by_mlst-Balanced f key =
    test-Balanced f.supports_mlst _ _
      (bind-Balanced (cmd (codes "MLST " ++ key)) _ (cmd-Balanced _) (λ (code, lines).
        test-Balanced (is_code code action_ok) _ _ (λ b. refl)
          (test-Balanced (is_code code not_found) _ _ (λ b. refl) (λ b. refl))))
      (λ b. refl)

otherwise-Balanced :
    (o : Option Bool) (m : Ftp Bool) → Keeps Balanced m → Keeps Balanced (otherwise o m)
otherwise-Balanced none m h = h
otherwise-Balanced (some answer) m h = λ b. refl

exists-Balanced : (key : Text) → Keeps Balanced (exists key)
unfolding exists exists_by_scan
exists-Balanced key = bind-Balanced features _ features-Balanced λ f.
    bind-Balanced (exists_by_size f key) _ (by_size-Balanced f key) λ by_size.
      otherwise-Balanced by_size _ (
        bind-Balanced (exists_by_mlst f key) _ (by_mlst-Balanced f key) (λ by_mlst.
          otherwise-Balanced by_mlst (exists_by_scan key) (
            bind-Balanced (scan_until (λ k. text_eq k key) key) (λ (_, stopped). pure stopped)
              (scan_until-Balanced (λ k. text_eq k key) key) (λ _ b. refl))))

finish-Balanced :
    (b : FtpBlob) (x : Result (Unit {0}) × FtpBlob) → Balanced b x.1 → Balanced b (finish x).1
unfolding opens releases
finish-Balanced b (ok u, c) h = h
finish-Balanced b (err e, c) h = h

pub close-Balanced : Keeps Balanced close
unfolding close
close-Balanced b =
    if-Balanced b b.sock (finish (suppress (raw_cmd (codes "QUIT") b))) (ok tt, b)
      (finish-Balanced b _
        (suppress-Balanced b (raw_cmd (codes "QUIT") b) (raw_cmd-Balanced (codes "QUIT") b)))
      refl

-- One call of a method.
pub data Call : Type 0 where
  open_call close_call : Call
  put_call : Text → Bytes → Call
  get_call delete_call exists_call scan_call : Text → Call

unfoldable pub step : Call → FtpBlob → FtpBlob
unfolding open_blob close put get delete exists scan
step open_call b = (open_blob b).1
step close_call b = (close b).1
step (put_call key bytes) b = (put key bytes b).1
step (get_call key) b = (get key b).1
step (delete_call key) b = (delete key b).1
step (exists_call key) b = (exists key b).1
step (scan_call prefix) b = (scan prefix b).1

unfoldable pub run : List Call → FtpBlob → FtpBlob
unfolding step
run [] b = b
run (c ∷ cs) b = run cs (step c b)

step-Balanced : (c : Call) (b : FtpBlob) → Balanced b (step c b)
unfolding step
step-Balanced open_call b = unfold open_blob in connection-Balanced b
step-Balanced close_call b = close-Balanced b
step-Balanced (put_call key bytes) b = put-Balanced key bytes b
step-Balanced (get_call key) b = unfold get in pasv_cmd-Balanced _ b
step-Balanced (delete_call key) b = delete-Balanced key b
step-Balanced (exists_call key) b = exists-Balanced key b
step-Balanced (scan_call prefix) b = scan-Balanced prefix b

-- Whatever calls are made and whatever the network answers, errors and timeouts included, as many
-- data connections are released as are opened, if this was so at the start.
pub run-Balanced :
    (calls : List Call) (b : FtpBlob)
    → opens b.net.log ≡ releases b.net.log
    → opens (run calls b).net.log ≡ releases (run calls b).net.log
unfolding run
run-Balanced [] b h = h
run-Balanced (c ∷ cs) b h = run-Balanced cs (step c b) (omega (arith, step-Balanced c b))
