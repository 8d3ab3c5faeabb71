-- ===== src/S3/Tests.antt =====
-- The stores of src/gufo/blob/sync/s3.py and src/gufo/blob/aio/s3.py over a service that answers with one page after the other.
use gufo_blob.Base.{
  ℕ, zero, suc, List, [], ◌∷◌, ◌++◌, arith, none, some, ◌≡◌, refl, Text, All, codes, text_eq,
}
use gufo_blob.Base.Result.{ok}
use gufo_blob.S3.{Service, S3Blob, scan, list_url, next_url, full_prefix}
use gufo_blob.Ftp.Common.Methods.{split, last_or, strip_right}
use gufo_blob.S3.Xml.{Expat, local_name, list_objects, not_empty, first_token}
use gufo_blob.S3.Listing.{
  Item, contents, next_token, other_node, char_data, element, no_nodes, and_node, IsOther, IsTag,
  IsItem, page_events, flat, item_keys, item_tokens,
}
use gufo_blob.S3.Pages.{list_objects-page}
use gufo_blob.Aio.S3 as Async
use gufo_blob.S3 as Sync
use gufo_blob.Aio.S3.Same.{methods_same}
use gufo_blob.S3.Scan.{last_page, more_pages, all_keys, scan-Pages}

abbrev bucket_blob : S3Blob
bucket_blob = record {
  bucket = codes "b";
  prefix = codes "p";
  endpoint = codes "http://127.0.0.1:5555/";
  region = codes "us-east-1";
  access_key = none;
  secret_key = none;
}

abbrev tagged : Text → Text
tagged name = codes "http://s3/}" ++ name

tagged-IsTag : IsTag tagged
unfolding local_name split last_or
tagged-IsTag = record { of_root = refl; of_entry = refl; of_key = refl; of_token = refl }

-- The token stands before the entries here, and there are white space and nested elements.
abbrev first_page : List Item
first_page =
    other_node (element (tagged (codes "Name")) (and_node (char_data (codes "bucket")) no_nodes))
    ∷ next_token (codes "t" ∷ [])
    ∷ other_node (char_data (b'\n' ∷ []))
    ∷ contents record {
      before = no_nodes;
      key = codes "p/" ∷ codes "a" ∷ [];
      after =
          and_node
            (element (tagged (codes "Owner")) (
              and_node (element (tagged (codes "ID")) (and_node (char_data (codes "3")) no_nodes))
                no_nodes))
            no_nodes;
    }
    ∷ []

abbrev second_page : List Item
second_page = contents record { before = no_nodes; key = codes "p/b" ∷ []; after = no_nodes } ∷ []

first_page-IsItem : All IsItem first_page
unfolding local_name split last_or text_eq IsOther
first_page-IsItem = (
  ((refl, refl), (tt, tt)),
  (tt, (tt, ((tt, (((refl, refl), (((refl, refl), (tt, tt)), tt)), tt)), tt))),
)

second_page-IsItem : All IsItem second_page
unfolding IsOther
second_page-IsItem = ((tt, tt), tt)

-- The body of a page is its number.
abbrev expat : Expat
expat (zero ∷ []) = some (page_events tagged first_page)
expat (suc n ∷ []) = some (page_events tagged second_page)
expat body = none

list_objects-page_example :
    list_objects expat (0 ∷ [])
    ≡ ok (not_empty (item_keys first_page), first_token (item_tokens first_page))
list_objects-page_example =
    list_objects-page tagged tagged-IsTag expat (0 ∷ []) first_page first_page-IsItem refl

-- Every request is answered with the next page.
abbrev pager : Service
pager = record {
  State = ℕ;
  open_client = λ s. (ok tt, s);
  request = λ method url s. (ok record { status = 200; content = s ∷ [] }, suc s);
  quote = λ safe s. ok s;
  parse_xml = expat;
}

first_listed : list_objects expat (0 ∷ []) ≡ ok (codes "p/a" ∷ [], some (codes "t"))
unfolding not_empty first_token flat item_keys item_tokens
first_listed =
    list_objects-page tagged tagged-IsTag expat (0 ∷ []) first_page first_page-IsItem refl

second_listed : list_objects expat (1 ∷ []) ≡ ok (codes "p/b" ∷ [], none)
unfolding not_empty first_token flat item_keys item_tokens
second_listed =
    list_objects-page tagged tagged-IsTag expat (1 ∷ []) second_page second_page-IsItem refl

abbrev two_pages : List (List Text)
two_pages = (codes "p/a" ∷ []) ∷ (codes "p/b" ∷ []) ∷ []

abbrev first_url : Text
first_url = codes "http://127.0.0.1:5555/b?list-type=2&prefix=p/"

abbrev second_url : Text
second_url = first_url ++ codes "&continuation-token=t"

first_listing : list_url pager bucket_blob [] ≡ ok first_url
unfolding list_url strip_right full_prefix
first_listing = refl

second_listing : next_url pager bucket_blob [] (codes "t") ≡ ok second_url
unfolding next_url list_url strip_right full_prefix
second_listing = refl

scan-Pages_example :
    scan pager bucket_blob 2 [] 0 ≡ some (ok (all_keys pager bucket_blob [] two_pages), 2)
scan-Pages_example =
    scan-Pages pager bucket_blob [] first_url 0 0 2 two_pages 2 first_listing refl
      (more_pages (codes "t") second_url (0 ∷ []) refl first_listed second_listing
        (last_page (1 ∷ []) refl second_listed))
      (omega arith)

abbrev first_key : Text
first_key = codes "a"

methods_same_example :
    (Async.put pager bucket_blob first_key [] 0 ≡ Sync.put pager bucket_blob first_key [] 0)
    × (Async.get pager bucket_blob first_key 0 ≡ Sync.get pager bucket_blob first_key 0)
    × (Async.delete pager bucket_blob first_key 0 ≡ Sync.delete pager bucket_blob first_key 0)
    × (Async.exists pager bucket_blob first_key 0 ≡ Sync.exists pager bucket_blob first_key 0)
    × (Async.scan pager bucket_blob 2 first_key 0 ≡ Sync.scan pager bucket_blob 2 first_key 0)
methods_same_example = methods_same pager (λ s. refl) bucket_blob first_key [] 2 0
