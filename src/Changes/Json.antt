-- ===== src/Changes/Json.antt =====
-- The values of a structured snapshot, as `json` reads them.
use canvas_watcher.Base.{
  Bool, true, false, ◌||◌, [], ◌∷◌, Text, ◌==◌, text_eq, strip, if◌then◌else◌,
}

mutual
  -- A number that is no integer is kept as its digits.
  pub data Json : Type 0 where
    null : Json
    boolean : Bool → Json
    number : Text → Json
    string : Text → Json
    array : Items → Json
    object : Fields → Json

  pub data Items : Type 0 where
    end_items : Items
    item : Json → Items → Items

  pub data Fields : Type 0 where
    end_fields : Fields
    field : Text → Json → Fields → Fields

abbrev is_empty : Text → Bool
is_empty [] = true
is_empty (c ∷ t) = false

unfoldable mutual
  unfolding strip

  pub meaningful_value : Json → Bool
  meaningful_value null = false
  meaningful_value (boolean b) = true
  meaningful_value (number n) = true
  meaningful_value (string t) = if is_empty (strip t) then false else true
  meaningful_value (array xs) = any_item xs
  meaningful_value (object fs) = any_field fs

  pub any_item : Items → Bool
  any_item end_items = false
  any_item (item x xs) = meaningful_value x || any_item xs

  pub any_field : Fields → Bool
  any_field end_fields = false
  any_field (field k x fs) = meaningful_value x || any_field fs

-- `value.get(key)` of a dict, whose keys differ; a missing key gives None.
unfoldable pub get : Text → Fields → Json
get key end_fields = null
get key (field k x fs) = let rest = get key fs in if k == key then x else rest

abbrev pub is_boolean : Bool → Json → Bool
is_boolean b (boolean c) = if b then c else if c then false else true
is_boolean b _ = false

-- `isinstance(value, dict) and value.get("hidden") is b`
unfoldable pub hidden_is : Text → Bool → Json → Bool
unfolding get
hidden_is key b (object fs) = is_boolean b (get key fs)
hidden_is key b _ = false
