-- ===== src/Config/Json.antt =====
-- `serde_json::Value` by its public constructors, as the generators of crates/core/src/config/ build
-- and read it. An object is a list of fields; writing a field replaces the value of its key or adds
-- one. A number is `num` where it fits in a u64, and else `other_num` with its text. No theorem
-- depends on the order of the fields. `json!` is the constructors.
use v2ray_rs.Base.{
  ℕ, String, ◌≡◌, refl, ap, Bool, Option, none, some, List, [], ◌∷◌, map, if◌then◌else◌, unwrap_or,
  str_eq,
}

mutual
  pub data Value : Type 0 where
    null : Value
    bool : Bool → Value
    num : ℕ → Value
    other_num : String → Value
    str : String → Value
    arr : Array → Value
    obj : Object → Value

  pub data Object : Type 0 where
    entry : String → Value → Object → Object
    no_entries : Object

  pub data Array : Type 0 where
    item : Value → Array → Array
    no_items : Array

abbrev pub items : List Value → Array
items [] = no_items
items (v ∷ vs) = item v (items vs)

abbrev pub elements : Array → List Value
elements no_items = []
elements (item v vs) = v ∷ elements vs

abbrev pub fields : List (String × Value) → Object
fields [] = no_entries
fields ((k, v) ∷ r) = entry k v (fields r)

abbrev pub array : List Value → Value
array vs = arr (items vs)

abbrev pub object : List (String × Value) → Value
object r = obj (fields r)

abbrev pub strings : List String → Value
strings ss = array (map str ss)

abbrev pub string_map : List (String × String) → Value
string_map r = object (map (λ e. (e.0, str e.1)) r)

abbrev pub lookup_field : String → Object → Option Value
lookup_field k no_entries = none
lookup_field k (entry j v r) = if str_eq j k then some v else lookup_field k r

abbrev pub set_field : String → Value → Object → Object
set_field k v no_entries = entry k v no_entries
set_field k v (entry j w r) =
    let rest = set_field k v r in if str_eq j k then entry j v r else entry j w rest

-- `value["key"]` read, `Null` where it is missing
abbrev pub get : String → Value → Value
get k (obj r) = unwrap_or (lookup_field k r) null
get k _ = null

-- `value["key"] = …`: a `Null` becomes an object; at any other value that is no object it panics
abbrev pub assign : String → Value → Value → Option Value
assign k v (obj r) = some (obj (set_field k v r))
assign k v null = some (obj (entry k v no_entries))
assign k v _ = none

-- `object["key"] = …` at a value that the code has just built as an object
abbrev pub put : String → Value → Value → Value
put k v (obj r) = obj (set_field k v r)
put k v w = w

abbrev pub as_str : Value → Option String
as_str (str s) = some s
as_str _ = none

abbrev pub as_array : Value → Option (List Value)
as_array (arr vs) = some (elements vs)
as_array _ = none

pub elements-items : (vs : List Value) → elements (items vs) ≡ vs
elements-items [] = refl
elements-items (v ∷ vs) = ap (λ t. v ∷ t) (elements-items vs)
