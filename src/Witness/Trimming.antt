-- ===== src/Witness/Trimming.antt =====
-- A log with 3001 entries.
use sailfish.Base.{Bool, Dict, String, [], if◌then◌else◌, some, str_eq, suc, true, zero, ℕ, ◌∷◌}
use sailfish.Resource.{new_aggregate}
use sailfish.Resource.Commands.{Command}
use sailfish.Store.World.{World}
use sailfish.Faults.Log.{Texts}
use sailfish.Witness.Repository.{tables}

-- Names of entries: a one for each unit.
ones : ℕ → String
ones zero = ""
ones (suc n) = String.◌∷◌ "1" (ones n)

abbrev entry_uri : String → String
entry_uri id = String.◌∷◌ "/" id

log_tree : ℕ → Dict String
unfolding ones
log_tree zero = []
log_tree (suc n) = (entry_uri (ones (suc n)), ones (suc n)) ∷ log_tree n

-- The first entry has the number 1, every other one 2.
abbrev log_texts : Texts
log_texts = record {
  dir = λ uri. "/";
  base = λ uri. if str_eq uri "/1" then "1" else "2";
  itoa = λ n. "3";
  c_time = λ s. s;
}

-- Each identifier has the aggregate of its entry.
abbrev log_world : World tables.State
log_world = record {
  handler = record {
    store = λ n id. some (record new_aggregate { resource_uri = entry_uri id });
    cmd_slice = [];
    next = 0;
    bus = [];
  };
  tree = log_tree 3001;
  closed = [];
}

abbrev every_command : Command → Bool
every_command cmd = true
