-- ===== src/Publication/Refs.antt =====
-- The references to objects in a content.json of src/quantara/publication.py.
use quantara.Prelude.{Option, none, some, List, [], ◌∷◌, ◌&&◌, if◌then◌else◌}
use quantara.Text.{Text, codes, text_eq}
use quantara.Json.{
  Json, Items, Fields, null, float, foreign, bool, int, string, array, object, no_items, item,
  no_fields, entry, get,
}
use quantara.Errors.{Result, ok, err, publication_error, ◌>>=◌}

-- A reference to an object: kind and digest.
abbrev pub Ref : Type 0
Ref = Text × Text

-- The test on one entry of `object_refs`: exactly the two keys, with strings.
pub ref_of : Json → Result Ref
ref_of (object (entry k (string v) (entry l (string w) no_fields))) =
    if text_eq k (codes "kind") && text_eq l (codes "sha256")
    then ok (v, w)
    else if text_eq k (codes "sha256") && text_eq l (codes "kind")
    then ok (w, v)
    else err publication_error
ref_of _ = err publication_error

pub refs_of_items : Items → Result (List Ref)
unfolding ref_of
refs_of_items no_items = ok []
refs_of_items (item value items) = do
  ref ← ref_of value
  refs ← refs_of_items items
  ok (ref ∷ refs)

-- `content.get("object_refs", [])`, a list or refused.
pub refs_of_value : Option Json → Result (List Ref)
unfolding refs_of_items
refs_of_value none = ok []
refs_of_value (some (array items)) = refs_of_items items
refs_of_value (some null) = err publication_error
refs_of_value (some float) = err publication_error
refs_of_value (some foreign) = err publication_error
refs_of_value (some (bool b)) = err publication_error
refs_of_value (some (int n)) = err publication_error
refs_of_value (some (string t)) = err publication_error
refs_of_value (some (object content)) = err publication_error

unfoldable pub refs_of : Fields → Result (List Ref)
unfolding get refs_of_value
refs_of content = refs_of_value (get (codes "object_refs") content)
