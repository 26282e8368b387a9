-- ===== src/DriverArgs/Laws.antt =====
-- No argument is lost: each stands in the object, whatever comes after it.
use dbcrossbar.Base.{
  ◌≡◌, refl, sym, subst, true, false, Text, text_eq, text_eq_refl, text_eq→eq, List, [], ◌∷◌, All,
  ok, ◌>>=◌, >>=-eq-ok, ok-injective, Bool-cases, inl, inr,
}
use dbcrossbar.DriverArgs.{
  Component, member, final_array, Value, null, string, array, object, Items, no_items, an_item,
  Members, no_members, a_member, Arg, entry, set, push, store, insert_into_json, insert_all,
  to_json,
}

pub data IsItem (j : Value) : Items → Type 0 where
  first : {items : Items} → IsItem j (an_item j items)
  later : {k : Value} {items : Items} → IsItem j items → IsItem j (an_item k items)

-- The value stands at the path: under the key of each member, and as one of the items of an array.
pub data Has : Value → List Component → Text → Type 0 where
  here : {value : Text} → Has (string value) [] value
  at_member :
      {members : Members} {key : Text} {path : List Component} {value : Text}
      → Has (entry members key) path value
      → Has (object members) (member key ∷ path) value
  at_item :
      {items : Items} {j : Value} {path : List Component} {value : Text}
      → IsItem j items
      → Has j path value
      → Has (array items) (final_array ∷ path) value

entry-set : (members : Members) (key : Text) (j : Value) → entry (set members key j) key ≡ j
unfolding entry set
entry-set no_members key j = rw (text_eq_refl key) refl
entry-set (a_member k i members) key j = elim (Bool-cases (text_eq k key)) [
  | inl same ↦ rw same (rw same refl)
  | inr other ↦ rw other (rw other (entry-set members key j))
]

text_eq_trans :
    (k key other : Text)
    → text_eq k key ≡ true
    → text_eq key other ≡ false
    → text_eq k other ≡ false
text_eq_trans k key other same differ =
    subst (λ s. text_eq s other ≡ false) (sym (text_eq→eq k key same)) differ

entry-set_other :
    (members : Members) (key other : Text) (j : Value)
    → text_eq key other ≡ false
    → entry (set members key j) other ≡ entry members other
unfolding entry set
entry-set_other no_members key other j differ = rw differ refl
entry-set_other (a_member k i members) key other j differ = elim (Bool-cases (text_eq k key)) [
  | inl same ↦ rw same (rw (text_eq_trans k key other same differ) refl)
  | inr apart ↦ rw apart (rw (entry-set_other members key other j differ) refl)
]

push-IsItem : (items : Items) (j : Value) → IsItem j (push items j)
unfolding push
push-IsItem no_items j = first
push-IsItem (an_item k items) j = later (push-IsItem items j)

IsItem-push : {i : Value} {items : Items} (j : Value) → IsItem i items → IsItem i (push items j)
unfolding push
IsItem-push j first = first
IsItem-push j (later h) = later (IsItem-push j h)

stored_member :
    (members : Members) (key : Text) (path : List Component) (value : Text) {j : Value}
    → (store path (entry members key) value >>= λ place. ok (object (set members key place))) ≡ ok j
    → ((place : Value) → store path (entry members key) value ≡ ok place → Has place path value)
    → Has j (member key ∷ path) value
stored_member members key path value e stored =
    let (place, p, q) = >>=-eq-ok (store path (entry members key) value) _ e in
    rw (← ok-injective q) (
      at_member
        (subst (λ k. Has k path value) (sym (entry-set members key place)) (stored place p)))

stored_item :
    (items : Items) (path : List Component) (value : Text) {j : Value}
    → (store path null value >>= λ place. ok (array (push items place))) ≡ ok j
    → ((place : Value) → store path null value ≡ ok place → Has place path value)
    → Has j (final_array ∷ path) value
stored_item items path value e stored =
    let (place, p, q) = >>=-eq-ok (store path null value) _ e in
    rw (← ok-injective q) (at_item (push-IsItem items place) (stored place p))

-- What is stored stands at its path.
store-Has :
    (path : List Component) (json : Value) (value : Text) {j : Value}
    → store path json value ≡ ok j
    → Has j path value
unfolding store
store-Has [] null value e = rw (← ok-injective e) here
store-Has [] (string _) value e = cc
store-Has [] (array _) value e = cc
store-Has [] (object _) value e = cc
store-Has (member key ∷ path) null value e =
    stored_member no_members key path value e (λ p f. store-Has path (entry no_members key) value f)
store-Has (member key ∷ path) (object members) value e =
    stored_member members key path value e (λ p f. store-Has path (entry members key) value f)
store-Has (member key ∷ path) (string _) value e = cc
store-Has (member key ∷ path) (array _) value e = cc
store-Has (final_array ∷ path) null value e =
    stored_item no_items path value e (λ p f. store-Has path null value f)
store-Has (final_array ∷ path) (array items) value e =
    stored_item items path value e (λ p f. store-Has path null value f)
store-Has (final_array ∷ path) (string _) value e = cc
store-Has (final_array ∷ path) (object _) value e = cc

-- What stood in the value before stands there still.
store-keeps :
    (path : List Component) (json : Value) (value : Text) {j : Value} {old : List Component}
    {w : Text}
    → Has json old w
    → store path json value ≡ ok j
    → Has j old w
unfolding store
store-keeps [] json value here e = cc
store-keeps [] json value (at_member h) e = cc
store-keeps [] json value (at_item i h) e = cc
store-keeps (member key ∷ path) json value here e = cc
store-keeps (member key ∷ path) json value (at_item i h) e = cc
store-keeps (final_array ∷ path) json value here e = cc
store-keeps (final_array ∷ path) json value (at_member h) e = cc
store-keeps (final_array ∷ path) json value (at_item {items = items} i h) e =
    let (place, p, q) = >>=-eq-ok (store path null value) _ e in
    rw (← ok-injective q) (at_item (IsItem-push place i) h)
store-keeps (member key ∷ path) json value
      (at_member {members = members} {key = k} {path = rest} {value = w} h) e =
    let (place, p, q) = >>=-eq-ok (store path (entry members key) value) _ e in
    elim (Bool-cases (text_eq key k)) [
      | inl same ↦
          let one = text_eq→eq key k same in
          let there =
            store-keeps path (entry members key) value
              (subst (λ n. Has (entry members n) rest w) (sym one) h) p in
          rw (← ok-injective q) (
            at_member (
              subst (λ n. Has (entry (set members key place) n) rest w) one
                (subst (λ x. Has x rest w) (sym (entry-set members key place)) there)))
      | inr differ ↦ rw (← ok-injective q) (
          at_member
            (subst (λ x. Has x rest w) (sym (entry-set_other members key k place differ)) h))
    ]

insert-keeps :
    (json : Value) (path : List Component) (value : Text) {j : Value} {old : List Component}
    {w : Text}
    → insert_into_json json path value ≡ ok j
    → Has json old w
    → Has j old w
unfolding insert_into_json
insert-keeps json [] value e h = cc
insert-keeps json (c ∷ path) value e h = store-keeps (c ∷ path) json value h e

insert-Has :
    (json : Value) (path : List Component) (value : Text) {j : Value}
    → insert_into_json json path value ≡ ok j
    → Has j path value
unfolding insert_into_json
insert-Has json [] value e = cc
insert-Has json (c ∷ path) value e = store-Has (c ∷ path) json value e

insert_all-keeps :
    (json : Value) (args : List Arg) {j : Value} {old : List Component} {w : Text}
    → insert_all json args ≡ ok j
    → Has json old w
    → Has j old w
unfolding insert_all
insert_all-keeps json [] e h = rw (← ok-injective e) h
insert_all-keeps json (arg ∷ args) e h =
    let (next, p, q) = >>=-eq-ok (insert_into_json json arg.path arg.value) _ e in
    insert_all-keeps next args q (insert-keeps json arg.path arg.value p h)

insert_all-Has :
    (json : Value) (args : List Arg) {j : Value}
    → insert_all json args ≡ ok j
    → All (λ arg. Has j arg.path arg.value) args
unfolding insert_all
insert_all-Has json [] e = tt
insert_all-Has json (arg ∷ args) e =
    let (next, p, q) = >>=-eq-ok (insert_into_json json arg.path arg.value) _ e in
    (
      insert_all-keeps next args q (insert-Has json arg.path arg.value p),
      insert_all-Has next args q,
    )

-- Where the arguments make a JSON object, every one of them stands in it with its value, under its
-- name or among the items of the array that it names: none replaces another.
pub to_json-Has :
    (args : List Arg) {j : Value} → to_json args ≡ ok j → All (λ arg. Has j arg.path arg.value) args
unfolding to_json
to_json-Has args e = insert_all-Has (object no_members) args e
