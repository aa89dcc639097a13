-- ===== src/Publisher/Headers.antt =====
-- The headers of a webhook call.
use gqueue.Common.{
  String, ◌≡◌, Option, Dict, lookup, overlay, UniqueKeys, lookup-insert_all, string_Eq,
}
use gqueue.Publisher.{merge_headers, or_map}

-- A header of the consumer, whose map has each name once, wins over one of the same name in the
-- payload; every other header of the payload stays; a nil map counts as empty.
pub lookup-merge_headers :
    (own headers : Option (Dict String String)) (name : String)
    → UniqueKeys (or_map headers)
    → lookup name (merge_headers own headers)
      ≡ overlay (lookup name (or_map headers)) (lookup name (or_map own))
unfolding merge_headers
lookup-merge_headers own headers name h = lookup-insert_all name (or_map headers) (or_map own) h
