-- ===== src/Filter.antt =====
-- bridge/src/api.rs: `trim_filter`, which takes the nulls off the end of a filter's topics, and
-- bridge/src/util.rs: `web3_topic`.
pub mod Trim
pub mod Reference
use poa_bridge.Prelude.{ℕ, String, Option, none, some, List, [], ◌∷◌, if◌then◌else◌, str_eq}
use mathlib.Core.List.{reverse}

-- `serde_json::Value`, with the values that are not looked into under one constructor.
mutual
  pub data Value : Type 0 where
    null : Value
    scalar : String → Value
    array : Values → Value
    object : Entries → Value

  pub data Values : Type 0 where
    no_values : Values
    add_value : Value → Values → Values

  pub data Entries : Type 0 where
    no_entries : Entries
    add_entry : String → Value → Entries → Entries

unfoldable pub to_list : Values → List Value
to_list no_values = []
to_list (add_value v vs) = v ∷ to_list vs

unfoldable pub of_list : List Value → Values
of_list [] = no_values
of_list (v ∷ vs) = add_value v (of_list vs)

-- The loop pops values off the end; the list here begins with the end.
unfoldable pub pop_nulls : List Value → List Value
pop_nulls [] = []
pop_nulls (null ∷ vals) = pop_nulls vals
pop_nulls (v ∷ vals) = v ∷ vals

unfoldable pub trim_filter1 : List Value → List Value
unfolding pop_nulls
trim_filter1 vals = reverse (pop_nulls (reverse vals))

unfoldable pub trim_entry : String → Value → Value
unfolding trim_filter1 to_list of_list
trim_entry key (array vals) =
    if str_eq key "topics" then array (of_list (trim_filter1 (to_list vals))) else array vals
trim_entry key v = v

unfoldable pub trim_entries : Entries → Entries
unfolding trim_entry
trim_entries no_entries = no_entries
trim_entries (add_entry key v entries) = add_entry key (trim_entry key v) (trim_entries entries)

-- Of the serialized filter.
unfoldable pub trim_filter : Value → Value
unfolding trim_entries
trim_filter (object entries) = object (trim_entries entries)
trim_filter v = v

-- A topic, converted to a list of hashes: an empty list stands for any topic.
unfoldable pub web3_topic : List (List ℕ) → Option (List (List ℕ))
web3_topic [] = none
web3_topic (h ∷ hs) = some (h ∷ hs)
