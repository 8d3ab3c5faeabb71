-- ===== src/S3/Request.antt =====
-- `_headers` and `_request` of src/gufo/blob/sync/s3.py: the `Service` that the store uses, made of an HTTP
-- client that is a parameter.
use gufo_blob.Base.{[], Text, Bytes, codes}
use gufo_blob.Base.Dict.{Dict}
use gufo_blob.Base.Result.{Result, ok, err, Exec, blob_error, s3_request_failed, continue}
use gufo_blob.S3.{S3Blob, Method, http_put, http_get, http_head, http_delete, Response, Service}
use gufo_blob.S3.Xml.{Expat}
use gufo_blob.Url.{quoted}
use gufo_blob.S3.Sign.{Tools, sign_request}

-- What is not read here: the tools that sign, the clock, the parser, and making, entering and one request
-- of the HTTP client, which may raise anything.
pub record Client : Type 1 where
  pub tools : Tools
  pub parse_xml : Expat
  pub State : Type 0
  pub now : State → tools.Time
  pub open_client : Exec State (Unit {0})
  pub send : Method → Text → Dict Bytes → Exec State Response

abbrev pub method_name : Method → Text
method_name (http_put bytes) = codes "PUT"
method_name http_get = codes "GET"
method_name http_head = codes "HEAD"
method_name http_delete = codes "DELETE"

abbrev pub body_of : Method → Bytes
body_of (http_put bytes) = bytes
body_of http_get = []
body_of http_head = []
body_of http_delete = []

-- `except Exception`
abbrev pub as_request_error : {S A : Type 0} → Result A × S → Result A × S
as_request_error (ok a, s) = (ok a, s)
as_request_error (err e, s) = (err (blob_error s3_request_failed), s)

module _ (C : Client) (b : S3Blob) where
  -- `_headers`
  unfoldable pub headers : Method → Text → C.State → Result (Dict Bytes)
  unfolding sign_request
  headers method url s =
      sign_request C.tools (C.now s) (method_name method) url (body_of method) b.region
        (b.access_key, b.secret_key)

  -- `_request`
  unfoldable pub request : Method → Text → Exec C.State Response
  unfolding headers
  request method url s =
      as_request_error (continue (headers method url s, s) (λ h. C.send method url h))

  abbrev pub service : Service
  service = record {
    State = C.State;
    open_client = C.open_client;
    request = request;
    quote = λ safe s. quoted C.tools.urllib s safe;
    parse_xml = C.parse_xml;
  }
