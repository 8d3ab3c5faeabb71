-- ===== src/File/Url.antt =====
-- `parse_url` of src/gufo/blob/sync/file.py, with `from_url`.
use gufo_blob.Base.{Bool, ◌||◌, List, [], if◌then◌else◌, Text, codes, text_eq}
use gufo_blob.Base.Dict.{Dict}
use gufo_blob.Base.Result.{Result, ok, err, bind, blob_error, invalid_scheme}
use gufo_blob.Blob.Open
use gufo_blob.Url.{Urllib, text_or}
use gufo_blob.File.{FileBlob, Node, init}

-- What the file system says of a path: the names on the way to it, links followed, whether a directory
-- is there, each of which may raise instead, and what is below it.
pub record Place : Type 0 where
  pub names : Result (List Text)
  pub is_dir : Result Bool
  pub nodes : Dict Node

module _ (U : Urllib) where
  -- The keyword argument `root`
  unfoldable pub parse_url : Text → Result Text
  parse_url url = bind (U.urlparse url) λ parsed.
      if text_eq parsed.scheme (codes "file") || text_eq parsed.scheme []
      then ok (text_or parsed.path (codes "/"))
      else err (blob_error invalid_scheme)

  abbrev pub init_at : Place → Result FileBlob
  init_at p = init p.names p.is_dir p.nodes

  -- `from_url`
  unfoldable pub from_url : (Text → Place) → Text → Result FileBlob
  unfolding parse_url Open.from_url init
  from_url place = Open.from_url parse_url (λ root. init_at (place root))
