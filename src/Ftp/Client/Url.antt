-- ===== src/Ftp/Client/Url.antt =====
-- `parse_url` of src/gufo/blob/sync/ftp.py, with `from_url`.
use gufo_blob.Base.{ℕ, zero, suc, [], ◌∷◌, Option, none, some, Text, codes}
use gufo_blob.Base.Result.{Result, ok, err, bind, blob_error, no_hostname}
use gufo_blob.Ftp.Common.Methods.{strip}
use gufo_blob.Ftp.Client.{FtpBlob, Network, init}
use gufo_blob.Blob.Open
use gufo_blob.Url.{Url, Urllib, option_or}

abbrev pub default_user : Text
default_user = codes "anonymous"

abbrev pub default_password : Text
default_password = codes "anonymous@"

abbrev pub default_retries : ℕ
default_retries = 3

-- The keyword arguments
pub record Kwargs : Type 0 where
  pub host : Text
  pub port : ℕ
  pub user : Text
  pub password : Text
  pub root : Text

-- `u.port or 21`
abbrev pub port_or : Option ℕ → ℕ
port_or none = 21
port_or (some zero) = 21
port_or (some (suc n)) = suc n

module _ (U : Urllib) where
  unfoldable pub kwargs : Text → Url → Result Kwargs
  unfolding strip
  kwargs host u = bind u.port λ port. ok record {
    host = host;
    port = port_or port;
    user = U.unquote (option_or u.username default_user);
    password = U.unquote (option_or u.password default_password);
    root = strip b'/' u.path;
  }

  -- `if not u.hostname`
  unfoldable pub with_host : Option Text → Url → Result Kwargs
  unfolding kwargs
  with_host none u = err (blob_error no_hostname)
  with_host (some []) u = err (blob_error no_hostname)
  with_host (some (c ∷ host)) u = kwargs (c ∷ host) u

  unfoldable pub parse_url : Text → Result Kwargs
  unfolding with_host
  parse_url url = bind (U.urlparse url) λ u. with_host u.hostname u

  -- `from_url`; `network` is what answers at a host and port.
  unfoldable pub from_url : (Text → ℕ → Network) → Text → Result FtpBlob
  unfolding parse_url Open.from_url
  from_url network =
      Open.from_url parse_url
        (λ k. ok (init k.user k.password k.root default_retries none (network k.host k.port)))
