-- ===== src/Aio/Ftp/Url.antt =====
-- `parse_url` of src/gufo/blob/aio/ftp.py, with `from_url`.
use gufo_blob.Base.{ℕ, Bool, List, [], ◌∷◌, Option, none, some, Text}
use gufo_blob.Base.Result.{Result, ok, err, bind, blob_error, no_hostname}
use gufo_blob.Ftp.Common.Methods.{strip}
use gufo_blob.Ftp.Client.{Network}
use gufo_blob.Ftp.Client.Url.{Kwargs, default_user, default_password, default_retries, port_or}
use gufo_blob.Aio.Ftp.{AsyncFtpBlob, init}
use gufo_blob.Aio.Open
use gufo_blob.Url.{Url, Urllib, option_or}

module _ (U : Urllib) where
  unfoldable pub kwargs : Text → Url → Result Kwargs
  unfolding strip
  kwargs host u = bind u.port λ port. ok record {
    host = host;
    port = port_or port;
    user = U.unquote (option_or u.username default_user);
    password = U.unquote (option_or u.password default_password);
    root = strip b'/' u.path;
  }

  -- `if not u.hostname`
  unfoldable pub with_host : Option Text → Url → Result Kwargs
  unfolding kwargs
  with_host none u = err (blob_error no_hostname)
  with_host (some []) u = err (blob_error no_hostname)
  with_host (some (c ∷ host)) u = kwargs (c ∷ host) u

  unfoldable pub parse_url : Text → Result Kwargs
  unfolding with_host
  parse_url url = bind (U.urlparse url) λ u. with_host u.hostname u

  -- `from_url`; `network` is what answers at a host and port, with the outcomes of closing.
  unfoldable pub from_url : (Text → ℕ → Network × List Bool) → Text → Result AsyncFtpBlob
  unfolding parse_url Open.from_url
  from_url network = Open.from_url parse_url λ k.
      let (net, closes) = network k.host k.port in
      ok (init k.user k.password k.root default_retries none net closes)
