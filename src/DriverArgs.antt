-- ===== src/DriverArgs.antt =====
-- dbcrossbarlib/src/driver_args.rs: the arguments of a driver, and the JSON object that they make.
pub mod Laws
pub mod Grammar
use dbcrossbar.Base.{
  Bool, true, false, Option, none, some, Text, text_eq, List, [], ◌∷◌, Result, ok, err, ◌>>=◌,
  if◌then◌else◌,
}

-- A component of the name of an argument, without its position, which only an error shows.
pub data Component : Type 0 where
  member : Text → Component
  final_array : Component

-- A `Value` of serde_json, of the kinds that are built here.
mutual
  pub data Value : Type 0 where
    null : Value
    string : Text → Value
    array : Items → Value
    object : Members → Value

  pub data Items : Type 0 where
    no_items : Items
    an_item : Value → Items → Items

  pub data Members : Type 0 where
    no_members : Members
    a_member : Text → Value → Members → Members

-- The name of an argument, as its components, and its value.
pub record Arg : Type 0 where
  pub path : List Component
  pub value : Text

pub data ConflictError : Type 0 where
  not_a_hash not_an_array already_set empty_path : ConflictError

-- `entry(key).or_insert(Value::Null)`, and the object when its place is filled.
unfoldable pub entry : Members → Text → Value
unfolding text_eq
entry no_members key = null
entry (a_member k j members) key = let rest = entry members key in if text_eq k key then j else rest

unfoldable pub set : Members → Text → Value → Members
unfolding text_eq
set no_members key value = a_member key value no_members
set (a_member k j members) key value =
    let rest = set members key value in
    if text_eq k key then a_member k value members else a_member k j rest

unfoldable pub push : Items → Value → Items
push no_items value = an_item value no_items
push (an_item j items) value = an_item j (push items value)

-- A null becomes an object or an array.
abbrev pub as_object : Value → Option Members
as_object null = some no_members
as_object (object members) = some members
as_object (string _) = none
as_object (array _) = none

abbrev pub as_array : Value → Option Items
as_array null = some no_items
as_array (array items) = some items
as_array (string _) = none
as_array (object _) = none

-- The last component: the place has to be empty.
abbrev pub store_last : Value → Text → Result ConflictError Value
store_last null value = ok (string value)
store_last _ value = err already_set

abbrev pub in_object :
    Option Members → (Members → Result ConflictError Value) → Result ConflictError Value
in_object (some members) rest = rest members
in_object none rest = err not_a_hash

abbrev pub in_array :
    Option Items → (Items → Result ConflictError Value) → Result ConflictError Value
in_array (some items) rest = rest items
in_array none rest = err not_an_array

-- What is stored at a place, by the components that are left.
unfoldable pub store : List Component → Value → Text → Result ConflictError Value
unfolding entry set push
store [] place value = store_last place value
store (member key ∷ path) json value =
    in_object (as_object json) λ members.
      store path (entry members key) value >>= λ place. ok (object (set members key place))
store (final_array ∷ path) json value =
    in_array (as_array json)
      λ items. store path null value >>= λ place. ok (array (push items place))

-- The path is never empty: `empty_path` is a panic.
unfoldable pub insert_into_json : Value → List Component → Text → Result ConflictError Value
unfolding store
insert_into_json json [] value = err empty_path
insert_into_json json (c ∷ path) value = store (c ∷ path) json value

unfoldable pub insert_all : Value → List Arg → Result ConflictError Value
unfolding insert_into_json
insert_all json [] = ok json
insert_all json (arg ∷ args) =
    insert_into_json json arg.path arg.value >>= λ next. insert_all next args

unfoldable pub to_json : List Arg → Result ConflictError Value
unfolding insert_all
to_json args = insert_all (object no_members) args
