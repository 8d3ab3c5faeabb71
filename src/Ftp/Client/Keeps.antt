-- ===== src/Ftp/Client/Keeps.antt =====
-- Relations between the object before and after a method, by one rule for each way to build a method.
use gufo_blob.Base.{ℕ, Bool, true, false, [], ◌∷◌, ◌++◌, if◌then◌else◌, Text, codes}
use gufo_blob.Base.Result.{
  Result, ok, err, Error, pure, raise, lift, continue, ◌>>=◌, blob_error, unexpected_code,
  login_failed, cwd_failed, type_failed,
}
use gufo_blob.Base.Int.{ℤ}
use gufo_blob.Ftp.Common.{user_ok, login_ok, ready, ftp_ok, action_ok}
use gufo_blob.Ftp.Wire.{read_response}
use gufo_blob.Ftp.Client.{
  FtpBlob, Ftp, send_command, on_stream, raw_cmd, expect, send_password, enter_path, enter_root,
  login, demand, is_code,
}

-- `m` moves along `R`, whether it returns or raises.
abbrev pub Keeps : {A : Type 0} → (FtpBlob → FtpBlob → Type 0) → Ftp A → Type 0
Keeps R m = (b : FtpBlob) → R b (m b).1

module _ (R : FtpBlob → FtpBlob → Type 0) (R-refl : (b : FtpBlob) → R b b)
    (R-trans : (a b c : FtpBlob) → R a b → R b c → R a c) where
  continue-Keeps :
      {A B : Type 0} (b : FtpBlob) (x : Result A × FtpBlob) (f : A → Ftp B)
      → R b x.1
      → ((a : A) → Keeps R (f a))
      → R b (continue x f).1
  continue-Keeps b (ok a, c) f h k = R-trans b c (f a c).1 h (k a c)
  continue-Keeps b (err e, c) f h k = h

  pub Keeps-bind :
      {A B : Type 0} (m : Ftp A) (f : A → Ftp B)
      → Keeps R m
      → ((a : A) → Keeps R (f a))
      → Keeps R (m >>= f)
  Keeps-bind m f h k b = continue-Keeps b (m b) f (h b) k

  pub Keeps-pure : {A : Type 0} (a : A) → Keeps R (pure a)
  Keeps-pure a b = R-refl b

  pub Keeps-raise : (A : Type 0) (e : Error) → Keeps R (raise {A = A} e)
  Keeps-raise A e b = R-refl b

  pub Keeps-lift : {A : Type 0} (r : Result A) → Keeps R (lift r)
  Keeps-lift r b = R-refl b

  pub Keeps-if :
      {A : Type 0} (t : Bool) (m n : Ftp A) → Keeps R m → Keeps R n → Keeps R (if t then m else n)
  Keeps-if true m n h k = h
  Keeps-if false m n h k = k

  pub Keeps-if_at :
      {A : Type 0} (t : Bool) (m n : Ftp A) (b : FtpBlob)
      → R b (m b).1
      → R b (n b).1
      → R b (if t then m b else n b).1
  Keeps-if_at true m n b h k = h
  Keeps-if_at false m n b h k = k

  -- The commands of the login keep a relation that sending and reading keep.
  module _ (sends : (text : Text) → Keeps R (send_command text))
      (reads : Keeps R (on_stream read_response)) where
    pub raw_cmd-Keeps : (text : Text) → Keeps R (raw_cmd text)
    unfolding raw_cmd
    raw_cmd-Keeps text =
        Keeps-bind (send_command text) (λ _. on_stream read_response) (sends text) (λ _. reads)

    demand-Keeps : (got : ℤ) (code : ℕ) (e : Error) → Keeps R (demand got code e)
    demand-Keeps got code e =
        Keeps-if (is_code got code) (pure tt) (raise e) (Keeps-pure tt) (Keeps-raise (Unit {0}) e)

    pub expect-Keeps : (code : ℕ) → Keeps R (expect code)
    unfolding expect
    expect-Keeps code =
        Keeps-bind (on_stream read_response) _ reads
          (λ (got, _). demand-Keeps got code (blob_error unexpected_code))

    send_password-Keeps : (code : ℤ) → Keeps R (send_password code)
    unfolding send_password
    send_password-Keeps code b =
        Keeps-if_at (is_code code user_ok)
          (raw_cmd (codes "PASS " ++ b.password) >>= λ (answer, _). pure answer) (pure code) b
          (Keeps-bind (raw_cmd (codes "PASS " ++ b.password)) (λ (answer, _). pure answer)
            (raw_cmd-Keeps _) (λ (answer, _). Keeps-pure answer) b)
          (R-refl b)

    enter_path-Keeps : (path : Text) → Keeps R (enter_path path)
    unfolding enter_path
    enter_path-Keeps [] = Keeps-pure tt
    enter_path-Keeps (c ∷ path) =
        Keeps-bind (raw_cmd (codes "CWD /" ++ c ∷ path)) _ (raw_cmd-Keeps _)
          (λ (code, _). demand-Keeps code action_ok (blob_error cwd_failed))

    enter_root-Keeps : Keeps R enter_root
    unfolding enter_root
    enter_root-Keeps b = enter_path-Keeps b.root b

    type-Keeps :
        Keeps R
          (raw_cmd (codes "TYPE I") >>= λ (mode, _). demand mode ftp_ok (blob_error type_failed))
    type-Keeps =
        Keeps-bind (raw_cmd (codes "TYPE I")) _ (raw_cmd-Keeps _)
          (λ (mode, _). demand-Keeps mode ftp_ok (blob_error type_failed))

    pub login-Keeps : Keeps R login
    unfolding login
    login-Keeps b =
        Keeps-bind (expect ready) _ (expect-Keeps ready)
          (λ _. Keeps-bind (raw_cmd (codes "USER " ++ b.user)) _ (raw_cmd-Keeps _) (λ (first, _).
            Keeps-bind (send_password first) _ (send_password-Keeps first) (λ code.
              Keeps-bind (demand code login_ok (blob_error login_failed)) _
                (demand-Keeps code login_ok (blob_error login_failed))
                (λ _. Keeps-bind enter_root _ enter_root-Keeps (λ _. type-Keeps)))))
          b
