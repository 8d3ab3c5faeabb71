-- ===== src/Stores/Tests.antt =====
-- `open_blob` over a small urllib, an engine that keeps nothing, a file system with the directory `/`
-- alone and a network where nobody answers.
use gufo_blob.Base.{
  true, ◌∷◌, Bool, leb, length, false, [], none, some, if◌then◌else◌, Text, codes, text_eq,
}
use gufo_blob.Base.Result.{Result, ok, err, os_exception, name_too_long}
use gufo_blob.Url.Sample.{sample}
use gufo_blob.Sqlite.{Engine}
use gufo_blob.Ftp.Client.{Network}
use gufo_blob.Blob.Open.{Loader}
use gufo_blob.File.Url.{Place}
use gufo_blob.Stores.{World, Store, open_memory, open_file, open_sqlite, open_ftp, open_s3}

abbrev nothing : Engine
nothing = record {
  Db = Unit;
  pragma = λ p d. d;
  create_table = λ n d. d;
  insert_row = λ n c k v d. d;
  select_rows = λ n cs d. [];
  delete_rows = λ n cs d. (0, d);
}

abbrev silence : Network
silence = record {
  connects = [];
  sends = [];
  script = [];
  data_connects = [];
  data_script = [];
  data_sends = [];
  log = [];
}

-- A path of more than 255 characters is too long.
abbrev is_dir_at : Text → Bool → Result Bool
is_dir_at path long = elim long [
  | true ↦ err (os_exception name_too_long)
  | false ↦ ok (text_eq path (codes "/"))
]

abbrev place_at : Text → Place
place_at path = record {
  names = ok (path ∷ []);
  is_dir = is_dir_at path (leb 255 (length path));
  nodes = [];
}

abbrev world : World
world = record {
  urllib = sample;
  place = place_at;
  engine = nothing;
  database = λ path. tt;
  network = λ host port. silence;
}

abbrev backends : Loader (Store world)
backends schema =
    if text_eq schema (codes "memory")
    then some (open_memory world)
    else if text_eq schema (codes "file")
    then some (open_file world)
    else if text_eq schema (codes "sqlite")
    then some (open_sqlite world)
    else if text_eq schema (codes "ftp")
    then some (open_ftp world)
    else if text_eq schema (codes "s3")
    then some (open_s3 world)
    else none
