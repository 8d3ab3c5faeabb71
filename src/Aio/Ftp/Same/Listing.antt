-- ===== src/Aio/Ftp/Same/Listing.antt =====
-- Deletions, features and listings are alike.
use gufo_blob.Base.{
  Bool, true, false, List, [], ◌∷◌, ◌++◌, Option, none, some, if◌then◌else◌, Text, Bytes, codes,
  ◌≡◌, refl,
}
use gufo_blob.Base.Result.{
  Result, ok, err, pure, raise, lift, ◌>>=◌, blob_error, key_error, index_error, unicode_error,
  value_error, os_exception, dele_failed,
}
use gufo_blob.Blob.Simulation.{Matches, blob_errors, same_error}
use gufo_blob.Ftp.Common.{FtpFeatures, no_features, from_feat, not_found, action_ok, status}
use gufo_blob.Ftp.Common.Methods.{strip_right}
use gufo_blob.Ftp.Client.{FtpBlob, Ftp, is_code}
use gufo_blob.Ftp.Client
use gufo_blob.Ftp.Client.Transfer
use gufo_blob.Ftp.Client.Methods.{
  split_lines, Yields, Parser, join_path, Visit, descend, yield, pass, list_command, full_parts,
  any_infix,
}
use gufo_blob.Ftp.Client.Methods
use gufo_blob.Aio.Ftp.{AsyncFtpBlob, AsyncFtp}
use gufo_blob.Aio.Ftp as Async
use gufo_blob.Aio.Ftp.Transfer as AsyncTransfer
use gufo_blob.Aio.Ftp.Methods as Other
use gufo_blob.Aio.Ftp.Same.{
  known, to_async, SameState, SameMethod, bind-Same, pure-Same, raise-Same, lift-Same, if-Same,
}
use gufo_blob.Aio.Ftp.Same.Session.{cmd-Same}
use gufo_blob.Aio.Ftp.Same.Data.{pasv_cmd-Same}

pub delete-Same : (key : Text) → SameMethod (Methods.delete key) (Other.delete key)
unfolding Methods.delete Other.delete
delete-Same key =
    let refused = blob_error dele_failed in
    bind-Same (Client.cmd (codes "DELE " ++ key)) (Async.cmd (codes "DELE " ++ key)) _ _
      (cmd-Same (codes "DELE " ++ key))
      (λ (code, _).
        if-Same (is_code code not_found) (raise (key_error key))
          (if is_code code action_ok then pure tt else raise refused) (raise (key_error key))
          (if is_code code action_ok then pure tt else raise refused)
          (raise-Same (Unit {0}) (key_error key))
          (if-Same (is_code code action_ok) (pure tt) (raise refused) (pure tt) (raise refused)
            (pure-Same tt) (raise-Same (Unit {0}) refused)))

probe-Same : SameMethod Methods.probe Other.probe
unfolding Methods.probe Other.probe
probe-Same =
    bind-Same (Client.cmd (codes "FEAT")) (Async.cmd (codes "FEAT")) _ _ (cmd-Same (codes "FEAT"))
      (λ (code, lines).
        if-Same (is_code code status) (lift (from_feat lines)) (pure no_features)
          (lift (from_feat lines)) (pure no_features) (lift-Same (from_feat lines))
          (pure-Same no_features))

remember-Matches :
    (x : Result FtpFeatures × FtpBlob) (y : Result FtpFeatures × AsyncFtpBlob)
    → Matches SameState x y
    → Matches SameState (Methods.remember x) (Other.remember y)
remember-Matches (ok f, b) (ok g, c) (e, h) = rw (← h, ← e) (refl, refl)
remember-Matches (ok f, b) (err d, c) (e, h) = absurd e
remember-Matches (err d, b) (ok g, c) (e, h) = absurd e
remember-Matches (err d, b) (err d', c) (e, h) = (e, h)

features_at :
    (cached pending : Option FtpFeatures) (b : FtpBlob)
    → known b.cached_features b.pending_features ≡ known cached pending
    → Matches SameState
        (Methods.features_of cached pending b)
        (Other.features_of (known cached pending) (to_async b))
features_at (some f) pending b e = (refl, refl)
features_at none (some f) b e = (refl, cc)
features_at none none b e =
    remember-Matches (Methods.probe b) (Other.probe (to_async b)) (probe-Same b)

pub features-Same : SameMethod Methods.features Other.features
unfolding Methods.features Other.features
features-Same b = features_at b.cached_features b.pending_features b refl

or_empty-Matches :
    (x : Result Bytes × FtpBlob) (y : Result Bytes × AsyncFtpBlob)
    → Matches SameState x y
    → Matches SameState (Methods.or_empty x) (Other.or_empty y)
or_empty-Matches (ok a, b) (ok a', c) (e, h) = (rw e refl, h)
or_empty-Matches (ok a, b) (err d, c) (e, h) = absurd e
or_empty-Matches (err d, b) (ok a, c) (e, h) = absurd e
or_empty-Matches (err _, b) (err _, c) (blob_errors x y, h) = (blob_errors x y, h)
or_empty-Matches (err _, b) (err _, c) (same_error (blob_error x), h) = (blob_errors x x, h)
or_empty-Matches (err _, b) (err _, c) (same_error (key_error k), h) = (refl, h)
or_empty-Matches (err _, b) (err _, c) (same_error index_error, h) = (same_error index_error, h)
or_empty-Matches (err _, b) (err _, c) (same_error unicode_error, h) = (same_error unicode_error, h)
or_empty-Matches (err _, b) (err _, c) (same_error value_error, h) = (same_error value_error, h)
or_empty-Matches (err _, b) (err _, c) (same_error (os_exception k), h) =
    (same_error (os_exception k), h)

module _ (stop : Text → Bool) (parser : Parser) (path : Text) (first : Option Text)
    (enter : Text → Ftp Yields) (other : Text → AsyncFtp Yields)
    (alike : (p : Text) → SameMethod (enter p) (other p)) where
  visit-Same :
      (full_path : Text) (v w : Visit)
      → v ≡ w
      → SameMethod
          (elim v as (λ _. Ftp Yields) [
            | descend ↦ enter full_path
            | yield ↦ pure (full_path ∷ [], stop full_path)
            | pass ↦ pure ([], false)
          ])
          (elim w as (λ _. AsyncFtp Yields) [
            | descend ↦ other full_path
            | yield ↦ pure (full_path ∷ [], stop full_path)
            | pass ↦ pure ([], false)
          ])
  visit-Same full_path descend w e = rw (← e) (alike full_path)
  visit-Same full_path yield w e = rw (← e) (pure-Same (full_path ∷ [], stop full_path))
  visit-Same full_path pass w e = rw (← e) (pure-Same ([], false))

  visit-eq :
      (rest : Option Text) (name : Text) (is_dir : Bool)
      → Methods.visit rest name is_dir ≡ Other.visit rest name is_dir
  unfolding Methods.visit Other.visit
  visit-eq none name is_dir = refl
  visit-eq (some f) name is_dir = refl

  entry-Same :
      (found : Text × Bool)
      → SameMethod
          (Methods.entry stop parser path first enter found)
          (Other.entry stop parser path first other found)
  unfolding Methods.entry Other.entry
  entry-Same (name, is_dir) =
      visit-Same (join_path path name) (Methods.visit first name is_dir)
        (Other.visit first name is_dir) (visit-eq first name is_dir)

  entries-Same :
      (lines : List Bytes)
      → SameMethod
          (Methods.entries stop parser path first enter lines)
          (Other.entries stop parser path first other lines)
  unfolding Methods.entries Other.entries
  entries-Same [] = pure-Same ([], false)
  entries-Same (line ∷ lines) =
      bind-Same (lift (parser line)) (lift (parser line)) _ _ (lift-Same (parser line)) (λ found.
        bind-Same (Methods.entry stop parser path first enter found)
          (Other.entry stop parser path first other found) _ _ (entry-Same found)
          (λ (keys, stopped).
            if-Same stopped (pure (keys, true))
              (Methods.entries stop parser path first enter lines >>= λ (more, s).
                pure (keys ++ more, s))
              (pure (keys, true))
              (Other.entries stop parser path first other lines >>= λ (more, s).
                pure (keys ++ more, s))
              (pure-Same (keys, true))
              (bind-Same (Methods.entries stop parser path first enter lines)
                (Other.entries stop parser path first other lines)
                (λ (more, s). pure (keys ++ more, s)) (λ (more, s). pure (keys ++ more, s))
                (entries-Same lines) (λ (more, s). pure-Same (keys ++ more, s)))))

module _ (stop : Text → Bool) (name : Text) (parser : Parser) where
  listing-Same : (path : Text) → SameMethod (Methods.listing name path) (Other.listing name path)
  listing-Same path b =
      or_empty-Matches (Transfer.pasv_cmd (list_command name path) b)
        (AsyncTransfer.pasv_cmd (list_command name path) (to_async b))
        (pasv_cmd-Same (list_command name path) b)

  each-Same :
      (path : Text) (first : Option Text) (enter : Text → Ftp Yields)
      (other : Text → AsyncFtp Yields)
      → ((p : Text) → SameMethod (enter p) (other p))
      → (o : Option Bytes)
      → SameMethod
          (Methods.each stop name parser path first enter o)
          (Other.each stop name parser path first other o)
  each-Same path first enter other h none = pure-Same ([], false)
  each-Same path first enter other h (some bytes) =
      entries-Same stop parser path first enter other h (split_lines bytes [] false)

  pub list_dir-Same :
      (parts : List Text) (path : Text)
      → SameMethod
          (Methods.list_dir stop name parser parts path)
          (Other.list_dir stop name parser parts path)
  unfolding Methods.list_dir Other.list_dir
  list_dir-Same [] path =
      let p = strip_right b'/' path in
      bind-Same (Methods.listing name p) (Other.listing name p)
        (Methods.each stop name parser p none (λ _. pure ([], false)))
        (Other.each stop name parser p none (λ _. pure ([], false))) (listing-Same p)
        (each-Same p none (λ _. pure ([], false)) (λ _. pure ([], false))
          (λ _. pure-Same ([], false)))
  list_dir-Same (part ∷ parts) path =
      let p = strip_right b'/' path in
      let enter = Methods.list_dir stop name parser parts in
      let other = Other.list_dir stop name parser parts in
      bind-Same (Methods.listing name p) (Other.listing name p)
        (Methods.each stop name parser p (some part) enter)
        (Other.each stop name parser p (some part) other) (listing-Same p)
        (each-Same p (some part) enter other (list_dir-Same parts))
