-- ===== src/Faults.antt =====
-- src/dell-ec/lcl.go: the mapper functions that keep the list of faults and the log of the lifecycle
-- controller, and the events that carry their data (src/dell-ec/event.go).
pub mod Entries
pub mod Tombstones
pub mod Arrival
pub mod Log
pub mod Trimming
use sailfish.Base.{
  Bool, Dict, List, Option, String, [], drop, false, get_elem?, if◌then◌else◌, length, ltb, none,
  not, some, str_eq, suc, take, zero, ℕ, ◌++◌, ◌-◌, ◌/◌, ◌<>◌, ◌==◌, ◌||◌, ◌∷◌,
}
use sailfish.Resource.Commands.{Command, create_redfish_resource, remove_redfish_resource}
use sailfish.Store.Tree.{get_aggregate_id}
use sailfish.Faults.Entries.{FaultEntryAddData, FaultEntryRmData, fault_resource}

-- in_array
unfoldable pub in_array : String → List String → Bool
in_array a [] = false
in_array a (b ∷ rest) = str_eq b a || in_array a rest

-- in_array_index; none for -1.
unfoldable pub in_array_index : String → List String → Option ℕ
in_array_index a [] = none
in_array_index a (b ∷ rest) =
    if str_eq b a
    then some 0
    else elim (in_array_index a rest) [ none ↦ none | some i ↦ some (suc i) ]

-- t[n] = x
unfoldable pub set_elem : ℕ → String → List String → List String
set_elem n x [] = []
set_elem zero x (y ∷ t) = x ∷ t
set_elem (suc n) x (y ∷ t) = y ∷ set_elem n x t

-- t[n-1] = t[n]
unfoldable pub copy_down : ℕ → List String → List String
unfolding set_elem
copy_down n t = elim (get_elem? t n) [ none ↦ t | some x ↦ set_elem (n - 1) x t ]

-- for ; n > i && n != 0; n -= 1 { t[n-1] = t[n] }
unfoldable pub copy_loop : ℕ → ℕ → List String → List String
unfolding copy_down
copy_loop zero i t = t
copy_loop (suc n) i t =
    let rest = copy_loop n i (copy_down (suc n) t) in if ltb i (suc n) then rest else t

-- The tombstone at position i is taken out, as the code does it.
unfoldable pub take_out : ℕ → List String → List String
unfolding copy_loop
take_out i t = take (length t - 1) (copy_loop (length t - 1) i t)

abbrev pub fault_lim : ℕ
fault_lim = 10

-- The tombstones after the removal of a fault that is not there.
unfoldable pub bury : String → List String → List String
unfolding in_array
bury name t =
    let kept = if length t == fault_lim then drop 1 t else t in
    if not (in_array name kept) then kept ++ (name ∷ []) else kept

-- An argument of a mapper function: a text, the data that the function expects, or something else.
pub data Arg (E : Type 0) : Type 0 where
  text_arg : String → Arg E
  data_arg : E → Arg E
  other_arg : Arg E

-- What a mapper function returns: true, nil, or an error on its arguments.
pub data Answer : Type 0 where
  answered_true answered_nil config_error : Answer

-- The answer, the tombstones, and the commands that the function sends, whose results it drops.
pub record Effect : Type 0 where
  pub answer : Answer
  pub tombstones : List String
  pub sent : List Command

abbrev pub refuse : List String → Effect
refuse t = record { answer = config_error; tombstones = t; sent = [] }

-- removefaultentry
unfoldable pub remove_fault_entry :
    Dict String → Arg FaultEntryRmData → Arg FaultEntryRmData → List String → Effect
unfolding bury
remove_fault_entry tree (text_arg log_uri) (data_arg fault) t =
    elim (get_aggregate_id tree (log_uri <> ("/" <> fault.name))) [
      | some id ↦ record {
        answer = answered_true;
        tombstones = t;
        sent = remove_redfish_resource id ∷ [];
      }
      | none ↦ record { answer = answered_true; tombstones = bury fault.name t; sent = [] }
    ]
remove_fault_entry tree (text_arg log_uri) a t = refuse t
remove_fault_entry tree a b t = refuse t

-- `c_time` formats the time that a text holds, or that of 0 seconds if it holds none.
module _ (c_time : String → String) where
  -- addfaultentry; `uuid` is the identifier that it makes.
  unfoldable pub add_fault_entry :
      Dict String → String → Arg FaultEntryAddData → Arg FaultEntryAddData → List String → Effect
  unfolding in_array_index take_out
  add_fault_entry tree uuid (text_arg log_uri) (data_arg fault) t =
      elim (in_array_index fault.name t) [
        | some i ↦ record { answer = answered_nil; tombstones = take_out i t; sent = [] }
        | none ↦ elim (get_aggregate_id tree (log_uri <> ("/" <> fault.name))) [
          | some id ↦ record { answer = answered_nil; tombstones = t; sent = [] }
          | none ↦ record {
            answer = answered_true;
            tombstones = t;
            sent = create_redfish_resource (fault_resource c_time uuid log_uri fault) ∷ [];
          }
        ]
      ]
  add_fault_entry tree uuid (text_arg log_uri) a t = refuse t
  add_fault_entry tree uuid a b t = refuse t
