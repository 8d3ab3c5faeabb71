-- ===== src/S3/Listing.antt =====
-- A page of a listing as a service writes it, and that `list_objects` reads just its keys and its token.
pub mod Reading
use gufo_blob.Base.{
  true, false, List, [], ◌∷◌, ◌++◌, none, some, Text, codes, text_eq, map, append_assoc, append-nil,
  ◌≡◌, refl, ap, ◌∙◌,
}
use gufo_blob.Ftp.Common.Methods.Laws.{but_last-append}
use gufo_blob.S3.Xml.{
  Event, start, characters, finish, Field, Values, Reader, local_name, find_field, ends_at,
  add_value, handle, handle_all, on_start, on_end,
}

-- Text, and an element with what stands in it
mutual
  pub data Node : Type 0 where
    char_data : Text → Node
    element : Text → Nodes → Node

  pub data Nodes : Type 0 where
    no_nodes : Nodes
    and_node : Node → Nodes → Nodes

-- An element Contents: its key, whose text expat may cut into pieces, among others
pub record Entry : Type 0 where
  pub before : Nodes
  pub key : List Text
  pub after : Nodes

-- What stands in a page, in any order
pub data Item : Type 0 where
  contents : Entry → Item
  next_token : List Text → Item
  other_node : Node → Item

unfoldable pub flat : List Text → Text
flat [] = []
flat (piece ∷ pieces) = piece ++ flat pieces

unfoldable pub leaf_events : Text → List Text → List Event
leaf_events tag pieces = start tag ∷ (map characters pieces ++ finish tag ∷ [])

unfoldable mutual
  pub node_events : Node → List Event
  node_events (char_data s) = characters s ∷ []
  node_events (element tag nodes) = start tag ∷ (nodes_events nodes ++ finish tag ∷ [])

  pub nodes_events : Nodes → List Event
  nodes_events no_nodes = []
  nodes_events (and_node node nodes) = node_events node ++ nodes_events nodes

-- The namespace that expat puts before each name of the reply is in `tag`.
module _ (tag : Text → Text) where
  unfoldable pub entry_events : Entry → List Event
  unfolding nodes_events leaf_events
  entry_events e =
      start (tag (codes "Contents"))
      ∷ (nodes_events e.before
          ++ (leaf_events (tag (codes "Key")) e.key
              ++ (nodes_events e.after ++ finish (tag (codes "Contents")) ∷ [])))

  unfoldable pub item_events : Item → List Event
  unfolding entry_events leaf_events node_events
  item_events (contents e) = entry_events e
  item_events (next_token pieces) = leaf_events (tag (codes "NextContinuationToken")) pieces
  item_events (other_node node) = node_events node

  unfoldable pub items_events : List Item → List Event
  unfolding item_events
  items_events [] = []
  items_events (item ∷ items) = item_events item ++ items_events items

  unfoldable pub page_events : List Item → List Event
  unfolding items_events
  page_events items =
      start (tag (codes "ListBucketResult"))
      ∷ (items_events items ++ finish (tag (codes "ListBucketResult")) ∷ [])

abbrev pub IsTagged : (Text → Text) → Text → Type 0
IsTagged tag name = local_name (tag name) ≡ name

-- The four names behind their namespace
pub record IsTag (tag : Text → Text) : Type 0 where
  pub of_root : IsTagged tag (codes "ListBucketResult")
  pub of_entry : IsTagged tag (codes "Contents")
  pub of_key : IsTagged tag (codes "Key")
  pub of_token : IsTagged tag (codes "NextContinuationToken")

-- A name that is neither that of a key nor that of a token
abbrev pub IsOtherName : Text → Type 0
IsOtherName name =
    (text_eq name (codes "Key") ≡ false) × (text_eq name (codes "NextContinuationToken") ≡ false)

-- No element here or in it has the name of a key or of a token.
unfoldable mutual
  pub IsOther : Node → Type 0
  IsOther (char_data s) = Unit
  IsOther (element tag nodes) = IsOtherName (local_name tag) × AreOthers nodes

  pub AreOthers : Nodes → Type 0
  AreOthers no_nodes = Unit
  AreOthers (and_node node nodes) = IsOther node × AreOthers nodes

abbrev pub IsItem : Item → Type 0
IsItem (contents e) = AreOthers e.before × AreOthers e.after
IsItem (next_token pieces) = Unit
IsItem (other_node node) = IsOther node

-- The keys and the tokens of a page
unfoldable pub item_keys : List Item → List Text
unfolding flat
item_keys [] = []
item_keys (contents e ∷ items) = flat e.key ∷ item_keys items
item_keys (next_token pieces ∷ items) = item_keys items
item_keys (other_node node ∷ items) = item_keys items

unfoldable pub item_tokens : List Item → List Text
unfolding flat
item_tokens [] = []
item_tokens (contents e ∷ items) = item_tokens items
item_tokens (next_token pieces ∷ items) = flat pieces ∷ item_tokens items
item_tokens (other_node node ∷ items) = item_tokens items
