-- ===== src/Dashboard/Values.antt =====
-- The JSON that dashboard/app.py reads, as Python's `json` gives it: a dict has each key once. A
-- number is in millionths, exact where Python has a float.
use ims_prakash.Base.{zero, Bool, true, false, Option, none, some, List, [], ◌∷◌, if◌then◌else◌}
use ims_prakash.Base.Int.{ℤ, pos}
use ims_prakash.Text.{Text, text_eq, truthy}
use ims_prakash.Errors.{Result, ok, err, attribute_error, key_error, type_error, value_error}

mutual
  pub data Json : Type 0 where
    null : Json
    boolean : Bool → Json
    number : ℤ → Json
    text : Text → Json
    array : Items → Json
    object : Members → Json

  pub data Items : Type 0 where
    no_items : Items
    item : Json → Items → Items

  pub data Members : Type 0 where
    no_members : Members
    member : Text → Json → Members → Members

-- `bool(j)`.
unfoldable pub truthy_json : Json → Bool
truthy_json null = false
truthy_json (boolean b) = b
truthy_json (number (pos zero)) = false
truthy_json (number _) = true
truthy_json (text t) = truthy t
truthy_json (array no_items) = false
truthy_json (array (item _ _)) = true
truthy_json (object no_members) = false
truthy_json (object (member _ _ _)) = true

unfoldable pub find_member : Text → Members → Option Json
find_member key no_members = none
find_member key (member k v rest) =
    let later = find_member key rest in if text_eq k key then some v else later

-- `j.get(key, default)`.
unfoldable pub get : Json → Text → Json → Result Json
unfolding find_member
get (object ms) key default = elim (find_member key ms) [ none ↦ ok default | some v ↦ ok v ]
get _ key default = err attribute_error

-- `j[key]` with a text as the key.
unfoldable pub get_item : Json → Text → Result Json
unfolding find_member
get_item (object ms) key = elim (find_member key ms) [ none ↦ err key_error | some v ↦ ok v ]
get_item _ key = err type_error

abbrev list_of : Items → List Json
list_of no_items = []
list_of (item j rest) = j ∷ list_of rest

abbrev keys_of : Members → List Json
keys_of no_members = []
keys_of (member k v rest) = text k ∷ keys_of rest

abbrev characters : Text → List Json
characters [] = []
characters (c ∷ s) = text (c ∷ []) ∷ characters s

-- What `for i in j` goes over.
unfoldable pub iterate : Json → Result (List Json)
iterate (array items) = ok (list_of items)
iterate (object ms) = ok (keys_of ms)
iterate (text t) = ok (characters t)
iterate _ = err type_error

abbrev pub of_bool : Bool → ℤ
of_bool true = pos 1000000
of_bool false = pos 0

-- `float(j)`, in millionths; `parse` is `float` on a text.
unfoldable pub float_of : (Text → Option ℤ) → Json → Result ℤ
float_of parse (number n) = ok n
float_of parse (boolean b) = ok (of_bool b)
float_of parse (text t) = elim (parse t) [ none ↦ err value_error | some n ↦ ok n ]
float_of parse _ = err type_error
