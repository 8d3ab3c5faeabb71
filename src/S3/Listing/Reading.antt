-- ===== src/S3/Listing/Reading.antt =====
-- What the handlers of `_parse_xml_fields` make of the events of one element.
use gufo_blob.Base.{
  true, List, [], ◌∷◌, ◌++◌, none, some, Text, map, append_assoc, append-nil, ◌≡◌, refl, ap, ◌∙◌,
}
use gufo_blob.Ftp.Common.Methods.Laws.{but_last-append}
use gufo_blob.S3.Xml.{
  Event, start, characters, finish, Field, Values, Reader, local_name, find_field, ends_at,
  add_value, handle, handle_all, on_start, on_end,
}
use gufo_blob.S3.Listing.{
  Node, Nodes, char_data, element, no_nodes, and_node, flat, leaf_events, node_events, nodes_events,
  IsOtherName, IsOther, AreOthers,
}

abbrev pub idle : List Text → Values → Reader
idle path values = record { path = path; active_field = none; text = []; values = values }

pub handle_all-append :
    (fields : List Field) (es fs : List Event) (r : Reader)
    → handle_all fields (es ++ fs) r ≡ handle_all fields fs (handle_all fields es r)
unfolding handle_all
handle_all-append fields [] fs r = refl
handle_all-append fields (e ∷ es) fs r = handle_all-append fields es fs (handle fields e r)

-- Text in a field is collected.
collect-pieces :
    (fields : List Field) (f : Field) (pieces path : List Text) (t : Text) (vs : Values)
    → handle_all fields
        (map characters pieces)
        (record { path = path; active_field = some f; text = t; values = vs })
      ≡ record { path = path; active_field = some f; text = t ++ flat pieces; values = vs }
unfolding handle_all handle flat
collect-pieces fields f [] path t vs = rw (append-nil t) refl
collect-pieces fields f (piece ∷ pieces) path t vs =
    rw (collect-pieces fields f pieces path (t ++ piece) vs, append_assoc t piece (flat pieces))
      refl

-- One event
pub handle_all-cons :
    (fields : List Field) (e : Event) (es : List Event) (r : Reader)
    → handle_all fields (e ∷ es) r ≡ handle_all fields es (handle fields e r)
unfolding handle_all
handle_all-cons fields e es r = refl

pub handle_all-last :
    (fields : List Field) (e : Event) (r : Reader)
    → handle_all fields (e ∷ []) r ≡ handle fields e r
unfolding handle_all
handle_all-last fields e r = refl

pub start_skipped :
    (fields : List Field) (tag : Text) (path : List Text) (vs : Values)
    → find_field fields (path ++ local_name tag ∷ []) ≡ none
    → handle fields (start tag) (idle path vs) ≡ idle (path ++ local_name tag ∷ []) vs
unfolding handle on_start
start_skipped fields tag path vs h = rw h refl

pub finish_skipped :
    (fields : List Field) (tag name : Text) (path : List Text) (vs : Values)
    → handle fields (finish tag) (idle (path ++ name ∷ []) vs) ≡ idle path vs
unfolding handle on_end
finish_skipped fields tag name path vs = rw (but_last-append path name) refl

start_collected :
    (fields : List Field) (f : Field) (tag : Text) (path : List Text) (vs : Values)
    → find_field fields (path ++ local_name tag ∷ []) ≡ some f
    → handle fields (start tag) (idle path vs)
      ≡ record { path = path ++ local_name tag ∷ []; active_field = some f; text = []; values = vs }
unfolding handle on_start
start_collected fields f tag path vs h = rw h refl

finish_collected :
    (fields : List Field) (f : Field) (tag name t : Text) (path : List Text) (vs : Values)
    → ends_at (path ++ name ∷ []) f ≡ true
    → handle fields
        (finish tag)
        (record { path = path ++ name ∷ []; active_field = some f; text = t; values = vs })
      ≡ idle path (add_value f t vs)
unfolding handle on_end
finish_collected fields f tag name t path vs h = rw (h, but_last-append path name) refl

element_skipped :
    (fields : List Field) (tag : Text) (es : List Event) (path : List Text) (vs : Values)
    → find_field fields (path ++ local_name tag ∷ []) ≡ none
    → handle_all fields es (idle (path ++ local_name tag ∷ []) vs)
      ≡ idle (path ++ local_name tag ∷ []) vs
    → handle_all fields (start tag ∷ (es ++ finish tag ∷ [])) (idle path vs) ≡ idle path vs
element_skipped fields tag es path vs h k =
    let p = path ++ local_name tag ∷ [] in
    rw
      (
        handle_all-cons fields (start tag) (es ++ finish tag ∷ []) (idle path vs),
        start_skipped fields tag path vs h,
        handle_all-append fields es (finish tag ∷ []) (idle p vs),
        k,
        handle_all-last fields (finish tag) (idle p vs),
      )
      (finish_skipped fields tag (local_name tag) path vs)

-- Nodes for none of whose elements there is a field are skipped.
mutual
  unfolding node_events handle_all handle IsOther

  pub node_skipped :
      (fields : List Field)
      (find : (path : List Text) (name : Text)
        → IsOtherName name
        → find_field fields (path ++ name ∷ []) ≡ none)
      (node : Node) (path : List Text) (vs : Values)
      → IsOther node
      → handle_all fields (node_events node) (idle path vs) ≡ idle path vs
  node_skipped fields find (char_data s) path vs h = refl
  node_skipped fields find (element tag nodes) path vs (h, hs) =
      element_skipped fields tag (nodes_events nodes) path vs (find path (local_name tag) h)
        (nodes_skipped fields find nodes (path ++ local_name tag ∷ []) vs hs)

  pub nodes_skipped :
      (fields : List Field)
      (find : (path : List Text) (name : Text)
        → IsOtherName name
        → find_field fields (path ++ name ∷ []) ≡ none)
      (nodes : Nodes) (path : List Text) (vs : Values)
      → AreOthers nodes
      → handle_all fields (nodes_events nodes) (idle path vs) ≡ idle path vs
  nodes_skipped fields find no_nodes path vs h = refl
  nodes_skipped fields find (and_node node nodes) path vs (h, hs) =
      handle_all-append fields (node_events node) (nodes_events nodes) (idle path vs)
      ∙ ap (handle_all fields (nodes_events nodes)) (node_skipped fields find node path vs h)
      ∙ nodes_skipped fields find nodes path vs hs

pub leaf_collected :
    (fields : List Field) (f : Field) (tag : Text) (pieces path : List Text) (vs : Values)
    → find_field fields (path ++ local_name tag ∷ []) ≡ some f
    → ends_at (path ++ local_name tag ∷ []) f ≡ true
    → handle_all fields (leaf_events tag pieces) (idle path vs)
      ≡ idle path (add_value f (flat pieces) vs)
unfolding leaf_events
leaf_collected fields f tag pieces path vs h k =
    let p = path ++ local_name tag ∷ [] in
    handle_all-cons fields (start tag) (map characters pieces ++ finish tag ∷ []) (idle path vs)
    ∙ ap (handle_all fields (map characters pieces ++ finish tag ∷ []))
        (start_collected fields f tag path vs h)
    ∙ handle_all-append fields (map characters pieces) (finish tag ∷ []) _
    ∙ ap (handle_all fields (finish tag ∷ [])) (collect-pieces fields f pieces p [] vs)
    ∙ handle_all-last fields (finish tag) _
    ∙ finish_collected fields f tag (local_name tag) (flat pieces) path vs k
