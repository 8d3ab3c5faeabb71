-- ===== src/Aio/S3/Request.antt =====
-- `_headers` and `_request` of src/gufo/blob/aio/s3.py, over the same parameter.
use gufo_blob.Base.{Text, Bytes}
use gufo_blob.Base.Dict.{Dict}
use gufo_blob.Base.Result.{Result, ok, err, Exec, blob_error, s3_request_failed, continue}
use gufo_blob.S3.{S3Blob, Method, Response, Service}
use gufo_blob.Url.{quoted}
use gufo_blob.S3.Sign.{sign_request}
use gufo_blob.S3.Request.{Client, method_name, body_of}

-- `except Exception`
abbrev pub as_request_error : {S A : Type 0} → Result A × S → Result A × S
as_request_error (ok a, s) = (ok a, s)
as_request_error (err e, s) = (err (blob_error s3_request_failed), s)

module _ (C : Client) (b : S3Blob) where
  -- `_headers`
  unfoldable pub headers : Method → Text → C.State → Result (Dict Bytes)
  unfolding sign_request
  headers method url s =
      sign_request C.tools (C.now s) (method_name method) url (body_of method) b.region
        (b.access_key, b.secret_key)

  -- `_request`
  unfoldable pub request : Method → Text → Exec C.State Response
  unfolding headers
  request method url s =
      as_request_error (continue (headers method url s, s) (λ h. C.send method url h))

  abbrev pub service : Service
  service = record {
    State = C.State;
    open_client = C.open_client;
    request = request;
    quote = λ safe s. quoted C.tools.urllib s safe;
    parse_xml = C.parse_xml;
  }
