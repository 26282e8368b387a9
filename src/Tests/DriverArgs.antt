-- ===== src/Tests/DriverArgs.antt =====
-- dbcrossbarlib/src/driver_args.rs on the examples of its tests.
use dbcrossbar.Base.{some, ◌++◌, ◌≡◌, refl, All, List, [], ◌∷◌, codes, ok, err}
use dbcrossbar.DriverArgs.{
  Arg, member, final_array, Value, string, array, object, no_items, an_item, no_members, a_member,
  to_json, already_set,
}
use dbcrossbar.DriverArgs.Laws.{Has, to_json-Has}
use dbcrossbar.DriverArgs.Grammar.{parse_arg, equals}
use dbcrossbar.DriverArgs.Grammar.Spelling.{by_brackets, no_more, an_array, parse_arg-Spells}

-- `a=b c.d=x c.e[]=y c[e][]=z`.
abbrev args : List Arg
args =
    record { path = member (codes "a") ∷ []; value = codes "b" }
    ∷ record { path = member (codes "c") ∷ member (codes "d") ∷ []; value = codes "x" }
    ∷ record {
      path = member (codes "c") ∷ member (codes "e") ∷ final_array ∷ [];
      value = codes "y";
    }
    ∷ record {
      path = member (codes "c") ∷ member (codes "e") ∷ final_array ∷ [];
      value = codes "z";
    }
    ∷ []

abbrev json : Value
json = object (
    a_member (codes "a") (string (codes "b")) (
      a_member (codes "c")
        (object (
          a_member (codes "d") (string (codes "x")) (
            a_member (codes "e")
              (array (an_item (string (codes "y")) (an_item (string (codes "z")) no_items)))
              no_members)))
        no_members))

to_json_handles_nested_keys : to_json args ≡ ok json
unfolding to_json
to_json_handles_nested_keys = refl

to_json_detects_conflicts :
    to_json (
      record { path = member (codes "a") ∷ []; value = codes "x" }
      ∷ record { path = member (codes "a") ∷ []; value = codes "y" }
      ∷ [])
    ≡ err already_set
unfolding to_json
to_json_detects_conflicts = refl

to_json-Has_example : All (λ (arg : Arg). Has json arg.path arg.value) args
unfolding to_json
to_json-Has_example = to_json-Has args {j = json} refl

parse_arg_test :
    parse_arg (codes "c.d=x=y")
    ≡ some (record { path = member (codes "c") ∷ member (codes "d") ∷ []; value = codes "x=y" })
unfolding parse_arg
parse_arg_test = refl

parse_arg-Spells_example :
    parse_arg (codes "c" ++ (codes "[e]" ++ (codes "[]" ++ equals ∷ codes "z")))
    ≡ some (record {
      path = member (codes "c") ∷ member (codes "e") ∷ final_array ∷ [];
      value = codes "z";
    })
parse_arg-Spells_example =
    parse_arg-Spells (codes "c") (codes "z") (refl, refl)
      (by_brackets (codes "e") (refl, refl) no_more) an_array
