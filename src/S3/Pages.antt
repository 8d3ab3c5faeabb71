-- ===== src/S3/Pages.antt =====
-- `list_objects` on a page of a listing.
use gufo_blob.Base.{
  true, false, ◌&&◌, leb, length, length-append, ◌-◌, suc, arith, List, [], ◌∷◌, ◌++◌, none, some,
  Text, Bytes, codes, text_eq, All, append_assoc, append-nil, ◌≡◌, refl, ap, ◌∙◌,
}
use gufo_blob.Base.Result.{ok}
use gufo_blob.S3.Xml.{
  Event, start, finish, Expat, Values, Reader, find_field, ends_at, names_eq, add_value, handle,
  handle_all, list_objects, list_fields, key_field, token_field, not_empty, first_token,
  parse_xml_fields, listed, first_reader, values_of, no_values,
}
use gufo_blob.S3.Listing.{
  Entry, Item, contents, next_token, other_node, flat, leaf_events, node_events, nodes_events,
  entry_events, item_events, items_events, page_events, IsTag, IsOtherName, AreOthers, IsItem,
  item_keys, item_tokens,
}
use gufo_blob.S3.Listing.Reading.{
  idle, handle_all-append, node_skipped, nodes_skipped, leaf_collected, handle_all-cons,
  handle_all-last, start_skipped, finish_skipped,
}

abbrev values : List Text → List Text → Values
values ks ts = (key_field, ks) ∷ (token_field, ts) ∷ []

abbrev at_root : List Text
at_root = codes "ListBucketResult" ∷ []

abbrev at_entry : List Text
at_entry = codes "ListBucketResult" ∷ codes "Contents" ∷ []

same_contents : text_eq (codes "Contents") (codes "Contents") ≡ true
unfolding text_eq
same_contents = refl

same_root : text_eq (codes "ListBucketResult") (codes "ListBucketResult") ≡ true
unfolding text_eq
same_root = refl

contents_root : text_eq (codes "Contents") (codes "ListBucketResult") ≡ false
unfolding text_eq
contents_root = refl

root_contents : text_eq (codes "ListBucketResult") (codes "Contents") ≡ false
unfolding text_eq
root_contents = refl

-- Where the two fields are found
find_root : find_field list_fields at_root ≡ none
unfolding find_field ends_at names_eq text_eq
find_root = refl

find_entry : find_field list_fields at_entry ≡ none
unfolding find_field ends_at names_eq text_eq
find_entry = refl

find_key : find_field list_fields (at_entry ++ codes "Key" ∷ []) ≡ some key_field
unfolding find_field ends_at names_eq text_eq
find_key = refl

find_token :
    find_field list_fields (at_root ++ codes "NextContinuationToken" ∷ []) ≡ some token_field
unfolding find_field ends_at names_eq text_eq
find_token = refl

shorter :
    (path : List Text) (name : Text)
    → let n = length (path ++ name ∷ []) in suc (suc n) - 2 ≡ suc (suc n - 2)
shorter path name = omega (arith, length-append path (name ∷ []))

last_two_differ :
    (path : List Text) (p name a b : Text)
    → text_eq name b ≡ false
    → ends_at (p ∷ (path ++ name ∷ [])) (a ∷ b ∷ []) ≡ false
unfolding ends_at names_eq
last_two_differ [] p name a b h = ground arith
last_two_differ (q ∷ path) p name a b h = rw (shorter path name) (last_two_differ path q name a b h)

last_name_differs :
    (path : List Text) (name a b : Text)
    → text_eq name b ≡ false
    → leb 2 (length (path ++ name ∷ [])) && ends_at (path ++ name ∷ []) (a ∷ b ∷ []) ≡ false
last_name_differs [] name a b h = refl
last_name_differs (p ∷ path) name a b h = ground (arith, last_two_differ path p name a b h)

find_other :
    (path : List Text) (name : Text)
    → IsOtherName name
    → find_field list_fields (path ++ name ∷ []) ≡ none
unfolding find_field
find_other path name (h, k) =
    rw
      (
        last_name_differs path name (codes "Contents") (codes "Key") h,
        last_name_differs path name (codes "ListBucketResult") (codes "NextContinuationToken") k,
      )
      refl

ends_key : ends_at (at_entry ++ codes "Key" ∷ []) key_field ≡ true
unfolding ends_at names_eq text_eq
ends_key = refl

ends_token : ends_at (at_root ++ codes "NextContinuationToken" ∷ []) token_field ≡ true
unfolding ends_at names_eq text_eq
ends_token = refl

add_key :
    (k : Text) (ks ts : List Text) → add_value key_field k (values ks ts) ≡ values (ks ++ k ∷ []) ts
unfolding add_value names_eq text_eq
add_key k ks ts = refl

add_token :
    (t : Text) (ks ts : List Text)
    → add_value token_field t (values ks ts) ≡ values ks (ts ++ t ∷ [])
unfolding add_value names_eq text_eq
add_token t ks ts = refl

listed_values :
    (ks ts : List Text) → listed (some (values ks ts)) ≡ ok (not_empty ks, first_token ts)
unfolding values_of names_eq text_eq
listed_values ks ts = refl

-- What a row of events makes of the variables
abbrev Reads : List Event → Reader → Reader → Type 0
Reads es r q = handle_all list_fields es r ≡ q

both : (es fs : List Event) (r q s : Reader) → Reads es r q → Reads fs q s → Reads (es ++ fs) r s
both es fs r q s h k = handle_all-append list_fields es fs r ∙ ap (handle_all list_fields fs) h ∙ k

first :
    (e : Event) (es : List Event) (r q s : Reader)
    → handle list_fields e r ≡ q
    → Reads es q s
    → Reads (e ∷ es) r s
first e es r q s h k = handle_all-cons list_fields e es r ∙ ap (handle_all list_fields es) h ∙ k

module _ (tag : Text → Text) (T : IsTag tag) where
  key_read :
      (pieces ks ts : List Text)
      → Reads
          (leaf_events (tag (codes "Key")) pieces)
          (idle at_entry (values ks ts))
          (idle at_entry (values (ks ++ flat pieces ∷ []) ts))
  key_read pieces ks ts =
      leaf_collected list_fields key_field (tag (codes "Key")) pieces at_entry (values ks ts)
        (rw T.of_key find_key) (rw T.of_key ends_key)
      ∙ ap (idle at_entry) (add_key (flat pieces) ks ts)

  token_read :
      (pieces ks ts : List Text)
      → Reads
          (leaf_events (tag (codes "NextContinuationToken")) pieces)
          (idle at_root (values ks ts))
          (idle at_root (values ks (ts ++ flat pieces ∷ [])))
  token_read pieces ks ts =
      leaf_collected list_fields token_field (tag (codes "NextContinuationToken")) pieces at_root
        (values ks ts) (rw T.of_token find_token) (rw T.of_token ends_token)
      ∙ ap (idle at_root) (add_token (flat pieces) ks ts)

  entry_read :
      (e : Entry) (ks ts : List Text)
      → AreOthers e.before × AreOthers e.after
      → Reads
          (entry_events tag e)
          (idle at_root (values ks ts))
          (idle at_root (values (ks ++ flat e.key ∷ []) ts))
  unfolding entry_events
  entry_read e ks ts (h, k) =
      let t = tag (codes "Contents") in
      let more = ks ++ flat e.key ∷ [] in
      let enter =
        start_skipped list_fields t at_root (values ks ts) (rw T.of_entry find_entry)
        ∙ ap (λ n. idle (at_root ++ n ∷ []) (values ks ts)) T.of_entry in
      let leave =
        handle_all-last list_fields (finish t) (idle at_entry (values more ts))
        ∙ finish_skipped list_fields t (codes "Contents") at_root (values more ts) in
      first (start t) _ _ _ _ enter (
        both (nodes_events e.before) _ _ _ _
          (nodes_skipped list_fields find_other e.before at_entry (values ks ts) h)
          (both (leaf_events (tag (codes "Key")) e.key) _ _ _ _ (key_read e.key ks ts) (
            both (nodes_events e.after) (finish t ∷ []) _ _ _
              (nodes_skipped list_fields find_other e.after at_entry (values more ts) k) leave)))

  items_read :
      (items : List Item) (ks ts : List Text)
      → All IsItem items
      → Reads
          (items_events tag items)
          (idle at_root (values ks ts))
          (idle at_root (values (ks ++ item_keys items) (ts ++ item_tokens items)))
  unfolding items_events item_events item_keys item_tokens handle_all
  items_read [] ks ts h = rw (append-nil ks, append-nil ts) refl
  items_read (contents e ∷ items) ks ts (h, hs) =
      both (entry_events tag e) (items_events tag items) (idle at_root (values ks ts)) _ _
        (entry_read e ks ts h) (items_read items (ks ++ flat e.key ∷ []) ts hs)
      ∙ ap (λ l. idle at_root (values l (ts ++ item_tokens items)))
          (append_assoc ks (flat e.key ∷ []) (item_keys items))
  items_read (next_token pieces ∷ items) ks ts (h, hs) =
      both (leaf_events (tag (codes "NextContinuationToken")) pieces) (items_events tag items)
        (idle at_root (values ks ts)) _ _ (token_read pieces ks ts)
        (items_read items ks (ts ++ flat pieces ∷ []) hs)
      ∙ ap (λ l. idle at_root (values (ks ++ item_keys items) l))
          (append_assoc ts (flat pieces ∷ []) (item_tokens items))
  items_read (other_node node ∷ items) ks ts (h, hs) =
      both (node_events node) (items_events tag items) (idle at_root (values ks ts)) _ _
        (node_skipped list_fields find_other node at_root (values ks ts) h)
        (items_read items ks ts hs)

  page_read :
      (items : List Item)
      → All IsItem items
      → Reads
          (page_events tag items)
          (first_reader list_fields)
          (idle [] (values (item_keys items) (item_tokens items)))
  unfolding page_events first_reader no_values
  page_read items h =
      let t = tag (codes "ListBucketResult") in
      let enter =
        start_skipped list_fields t [] (values [] []) (rw T.of_root find_root)
        ∙ ap (λ n. idle (n ∷ []) (values [] [])) T.of_root in
      let leave =
        handle_all-last list_fields (finish t)
          (idle at_root (values (item_keys items) (item_tokens items)))
        ∙ finish_skipped list_fields t (codes "ListBucketResult") []
            (values (item_keys items) (item_tokens items)) in
      first (start t) _ _ _ _ enter
        (both (items_events tag items) (finish t ∷ []) _ _ _ (items_read items [] [] h) leave)

  parsed :
      (expat : Expat) (body : Bytes) (items : List Item)
      → All IsItem items
      → expat body ≡ some (page_events tag items)
      → parse_xml_fields expat body list_fields
        ≡ some (values (item_keys items) (item_tokens items))
  unfolding parse_xml_fields
  parsed expat body items h k =
      rw (parse_xml_fields, k) (ap (λ r. some r.values) (page_read items h))

  -- From the events of a page that a service writes, with the entries, the continuation token and any
  -- other elements and text in any order, a namespace before every name, elements that are nested, and
  -- texts cut into pieces, `list_objects` reads the keys in their order, the empty ones left out, and
  -- the continuation token if there is one and it is not empty; provided that the elements beside have
  -- neither the name of a key nor that of a token, and that those two hold text only.
  pub list_objects-page :
      (expat : Expat) (body : Bytes) (items : List Item)
      → All IsItem items
      → expat body ≡ some (page_events tag items)
      → list_objects expat body ≡ ok (not_empty (item_keys items), first_token (item_tokens items))
  unfolding list_objects
  list_objects-page expat body items h k =
      ap listed (parsed expat body items h k) ∙ listed_values (item_keys items) (item_tokens items)
