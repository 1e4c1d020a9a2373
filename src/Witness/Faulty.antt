-- ===== src/Witness/Faulty.antt =====
-- The list of faults and the log on small trees.
use sailfish.Base.{
  List, String, [], arith, false, get_elem?, if◌then◌else◌, leb, lookup, ltb, none, pos, refl, some,
  ℕ, ◌∷◌, ◌≡◌,
}
use sailfish.Store.Tree.{get_aggregate_id}
use sailfish.Faults.{
  Effect, add_fault_entry, answered_nil, data_arg, in_array, in_array_index, remove_fault_entry,
  text_arg,
}
use sailfish.Faults.Entries.{FaultEntryAddData, FaultEntryRmData}
use sailfish.Faults.Tombstones.{add_fault_entry-tombstoned}
use sailfish.Faults.Arrival.{RemovalCall, add_fault_entry-late, remove_each}

abbrev pub same_time : String → String
same_time s = s

abbrev pub fan_fault : FaultEntryAddData
fan_fault = record {
  description = "";
  entry_type = "SEL";
  id = pos 1;
  created = "0";
  message = "Fan 1 is failing.";
  message_args = "1" ∷ [];
  message_id = "FAN0001";
  name = "b";
  severity = "Critical";
  category = "System";
  action = "";
  comp_sub_system = "";
  sub_system = "Fan";
  fqdd = "Fan.Slot.1";
}

abbrev remove_b : FaultEntryRmData
remove_b = record { id = pos 1; name = "b" }

abbrev four_tombstones : List String
four_tombstones = "a" ∷ "b" ∷ "c" ∷ "d" ∷ []

b_index : in_array_index "b" four_tombstones ≡ some 1
unfolding in_array_index
b_index = refl

abbrev removed_b : Effect
removed_b = remove_fault_entry [] (text_arg "/f") (data_arg remove_b) four_tombstones

abbrev added_b : Effect
added_b = add_fault_entry same_time [] "u" (text_arg "/f") (data_arg fan_fault) four_tombstones

-- The tombstones c and d are asked for, and the list has d twice.
d_twice : added_b.tombstones ≡ "a" ∷ "d" ∷ "d" ∷ []
unfolding add_fault_entry
d_twice = refl

add_fault_entry-tombstoned_example :
    (added_b.sent ≡ [])
    × (added_b.answer ≡ answered_nil)
    × ((j : ℕ)
        → get_elem? added_b.tombstones j ≡ (
            if ltb j 3
            then (if leb 1 j then get_elem? four_tombstones 3 else get_elem? four_tombstones j)
            else none))
add_fault_entry-tombstoned_example =
    add_fault_entry-tombstoned same_time [] "u" "/f" fan_fault four_tombstones 1 b_index

no_fault : get_aggregate_id [] "/f/b" ≡ none
unfolding get_aggregate_id lookup
no_fault = refl

not_buried : in_array "b" ("a" ∷ []) ≡ false
unfolding in_array
not_buried = refl

-- The fault b is asked to go, a fault c that is there goes, and so does c again once it has gone.
abbrev remove_c : FaultEntryRmData
remove_c = record { id = pos 2; name = "c" }

abbrev early_removal : RemovalCall
early_removal = record { tree_read = []; log_uri = "/f"; entry = remove_b }

abbrev later_removals : List RemovalCall
later_removals =
    record { tree_read = ("/g/c", "id") ∷ []; log_uri = "/g"; entry = remove_c }
    ∷ record { tree_read = []; log_uri = "/g"; entry = remove_c }
    ∷ []

add_fault_entry-late_example :
    let last =
      add_fault_entry same_time [] "u"
        (text_arg "/f")
        (data_arg fan_fault)
        (remove_each (early_removal ∷ later_removals) ("a" ∷ [])) in
    (last.sent ≡ []) × (last.answer ≡ answered_nil)
add_fault_entry-late_example =
    add_fault_entry-late same_time [] "u" "/f" fan_fault early_removal later_removals ("a" ∷ [])
      refl no_fault not_buried (omega arith)
