-- ===== src/Aio/S3/Url.antt =====
-- `parse_url` of src/gufo/blob/aio/s3.py, with `from_url`.
use gufo_blob.Base.{Text}
use gufo_blob.Base.Result.{Result}
use gufo_blob.Url.{Urllib}
use gufo_blob.S3.{S3Blob}
use gufo_blob.S3.Url as S3Url
use gufo_blob.Aio.Open
use gufo_blob.Aio.S3.{init}

module _ (U : Urllib) where
  unfoldable pub parse_url : Text → Result S3Url.Kwargs
  unfolding S3Url.parse_url
  parse_url url = S3Url.parse_url U url

  -- `from_url`
  unfoldable pub from_url : Text → Result S3Blob
  unfolding parse_url Open.from_url init
  from_url =
      Open.from_url parse_url
        λ k. init k.bucket k.prefix k.endpoint k.region k.access_key k.secret_key
