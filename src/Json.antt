-- ===== src/Json.antt =====
-- JSON values as Go holds them in `any`. A number is kept as the text that fmt.Sprint prints.
pub mod Members
use ngd_ngg_scheduling.Base.{
  Bool, true, false, List, [], ◌∷◌, Option, none, some, if◌then◌else◌, ◌==◌,
}
use ngd_ngg_scheduling.Text.{Text, text_Eq}

mutual
  pub data Json : Type 0 where
    null : Json
    bool : Bool → Json
    number : Text → Json
    text : Text → Json
    array : Items → Json
    object : Fields → Json

  pub data Items : Type 0 where
    nil : Items
    cons : Json → Items → Items

  pub data Fields : Type 0 where
    end : Fields
    field : Text → Json → Fields → Fields

-- `object[key]`, where a key that is absent reads as nil.
unfoldable pub member : Text → Fields → Json
member key end = null
member key (field k v rest) = if key == k then v else member key rest

-- `_, ok := object[key]`
unfoldable pub has_member : Text → Fields → Bool
has_member key end = false
has_member key (field k v rest) = if key == k then true else has_member key rest

-- `value.(map[string]any)`
unfoldable pub as_object : Json → Option Fields
as_object (object fields) = some fields
as_object _ = none

-- `value.(string)`
unfoldable pub as_text : Json → Option Text
as_text (text s) = some s
as_text _ = none

-- `value.([]any)`
unfoldable pub as_array : Json → Option Items
as_array (array items) = some items
as_array _ = none

-- `value.(bool)`
unfoldable pub as_bool : Json → Option Bool
as_bool (bool b) = some b
as_bool _ = none

-- `object[key] = value`
unfoldable pub set_member : Text → Json → Fields → Fields
set_member key value end = field key value end
set_member key value (field k v rest) =
    if key == k then field key value rest else field k v (set_member key value rest)

-- A slice of values as a list.
unfoldable pub elements : Items → List Json
elements nil = []
elements (cons v rest) = v ∷ elements rest

-- A list of strings as a JSON array.
unfoldable pub text_items : List Text → Items
text_items [] = nil
text_items (s ∷ rest) = cons (text s) (text_items rest)

-- `delete(object, key)`
unfoldable pub delete_member : Text → Fields → Fields
delete_member key end = end
delete_member key (field k v rest) =
    let others = delete_member key rest in if key == k then others else field k v others
