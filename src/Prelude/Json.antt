-- ===== src/Prelude/Json.antt =====
-- The JSON values of request bodies, as Python reads them.
use brainard.Prelude.{
  ℕ, String, Bool, true, false, not, Option, none, some, List, [], ◌∷◌, ◌==◌, eqb, if◌then◌else◌,
  contains,
}
use brainard.Prelude.Text.{is_empty}

-- A number is given by its sign, its digits and how many of them stand behind the point.
mutual
  pub data Json : Type 0 where
    null : Json
    boolean : Bool → Json
    number : Bool → ℕ → ℕ → Json
    text : String → Json
    array : Elements → Json
    object : Object → Json

  pub data Elements : Type 0 where
    no_elements : Elements
    element : Json → Elements → Elements

  pub data Object : Type 0 where
    no_members : Object
    member : String → Json → Object → Object

-- `d.get(key)`, where `none` is an absent key.
unfoldable pub get : String → Object → Option Json
get k no_members = none
get k (member j v o) = if j == k then some v else get k o

-- `key in d`
unfoldable pub has : String → Object → Bool
has k no_members = false
has k (member j v o) = if j == k then true else has k o

-- `set(d) - keys` is empty.
unfoldable pub only_keys : List String → Object → Bool
only_keys ks no_members = true
only_keys ks (member j v o) = let rest = only_keys ks o in if contains j ks then rest else false

-- `bool(v)`
unfoldable pub truthy : Json → Bool
truthy null = false
truthy (boolean b) = b
truthy (number negative digits places) = not (eqb digits 0)
truthy (text s) = not (is_empty s)
truthy (array no_elements) = false
truthy (array (element v vs)) = true
truthy (object no_members) = false
truthy (object (member k v o)) = true

-- `v`, if it is a string.
unfoldable pub as_text : Json → Option String
as_text (text s) = some s
as_text _ = none

-- A set cannot look up a list or a dict: Python raises `TypeError`.
unfoldable pub is_unhashable : Json → Bool
is_unhashable (array vs) = true
is_unhashable (object o) = true
is_unhashable _ = false

prepend_text : Option String → Option (List String) → Option (List String)
prepend_text (some s) (some ss) = some (s ∷ ss)
prepend_text _ _ = none

elements_as_texts : Elements → Option (List String)
unfolding as_text prepend_text
elements_as_texts no_elements = some []
elements_as_texts (element v vs) = prepend_text (as_text v) (elements_as_texts vs)

-- `v`, if it is a list of strings.
unfoldable pub as_texts : Json → Option (List String)
unfolding elements_as_texts
as_texts (array vs) = elements_as_texts vs
as_texts _ = none
