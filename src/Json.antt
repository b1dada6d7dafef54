-- ===== src/Json.antt =====
-- The values that json.loads gives and that src/quantara/jcs.py serializes. A dictionary is its entries in
-- order; Python keeps each key once. `foreign` stands for a value of any other Python type.
use quantara.Prelude.{Bool, Option, none, some, if◌then◌else◌}
use quantara.Prelude.Int.{ℤ}
use quantara.Text.{Text, text_eq}

mutual
  pub data Json : Type 0 where
    null float foreign : Json
    bool : Bool → Json
    int : ℤ → Json
    string : Text → Json
    array : Items → Json
    object : Fields → Json

  pub data Items : Type 0 where
    no_items : Items
    item : Json → Items → Items

  pub data Fields : Type 0 where
    no_fields : Fields
    entry : Text → Json → Fields → Fields

-- `content.get(key)`
unfoldable pub get : Text → Fields → Option Json
get key no_fields = none
get key (entry name value more) = if text_eq key name then some value else get key more
