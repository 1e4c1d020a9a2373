-- ===== src/Faults/Log.antt =====
-- addlclog and clearuris of src/dell-ec/lcl.go: the log of the lifecycle controller, which is
-- trimmed after each new entry.
use sailfish.Store.Db.{Codec, Database}
use sailfish.Store.World.{World, send_command}
use sailfish.Base.{
  Bool, Dict, List, Option, String, [], drop, if◌then◌else◌, length, ltb, ltb_ℤ, none, some, str_eq,
  ℕ, ℤ, ◌<>◌, ◌>>=◌, ◌∷◌,
}
use sailfish.Property.{end, field}
use sailfish.Query.Text.{atoi}
use sailfish.Resource.Commands.{
  Command, CreateRedfishResource, create_redfish_resource, created, remove_redfish_resource,
}
use sailfish.Store.Tree.{find_matching_uris, get_aggregate_id}
use sailfish.Faults.Entries.{LogEventData, log_properties, one_privilege}
use sailfish.Faults.{Answer, Arg, answered_nil, answered_true, config_error, data_arg, text_arg}

abbrev pub max_logs : ℕ
max_logs = 3000

-- The functions of the path and text libraries: path.Dir, path.Base and the printing of an int.
pub record Texts : Type 0 where
  pub dir : String → String
  pub base : String → String
  pub itoa : ℤ → String
  pub c_time : String → String

module _ (lib : Texts) where
  -- The number at the end of a URI, 0 if it is none.
  unfoldable pub log_index : String → ℤ
  log_index uri = (atoi (lib.base uri)).0

  -- sort.Slice by the numbers, the largest first.
  unfoldable pub insert_newest : String → List String → List String
  unfolding log_index
  insert_newest u [] = u ∷ []
  insert_newest u (v ∷ uris) =
      let rest = insert_newest u uris in
      if ltb_ℤ (log_index u) (log_index v) then v ∷ rest else u ∷ v ∷ uris

  unfoldable pub sort_newest : List String → List String
  unfolding insert_newest
  sort_newest [] = []
  sort_newest (u ∷ uris) = insert_newest u (sort_newest uris)

  -- The URIs directly under one.
  unfoldable pub under : String → Dict String → List String
  under log_uri tree = find_matching_uris (λ uri. str_eq (lib.dir uri) log_uri) tree

  -- uriList[MAX_LOGS:], where there are more than MAX_LOGS
  unfoldable pub surplus : String → Dict String → List String
  unfolding sort_newest under
  surplus log_uri tree =
      let uris = sort_newest (under log_uri tree) in
      if ltb max_logs (length uris) then drop max_logs uris else []

  unfoldable pub log_resource : String → String → LogEventData → CreateRedfishResource
  unfolding log_properties one_privilege
  log_resource uuid log_uri e = record {
    id = uuid;
    resource_uri = log_uri <> ("/" <> lib.itoa e.id);
    type = "#LogEntry.v1_0_2.LogEntry";
    context = "/redfish/v1/$metadata#LogEntry.LogEntry";
    privileges = field "GET" (one_privilege "Login") end;
    headers = [];
    plugin = "";
    default_filter = "";
    properties = log_properties lib.c_time e;
    meta = end;
  }

  module _ {Bytes : Type 0} (db : Database Bytes) (codec : Codec Bytes) (namespace : String)
      (check : Command → Bool) where
    -- ch.HandleCommand(&RemoveRedfishResource{ID: id}) for each URI that has an identifier.
    unfoldable pub remove_uris : List String → World db.State → Option (World db.State)
    unfolding send_command get_aggregate_id
    remove_uris [] w = some w
    remove_uris (u ∷ uris) w = elim (get_aggregate_id w.tree u) [
      | none ↦ remove_uris uris w
      | some id ↦ send_command db codec namespace check (remove_redfish_resource id) w >>= λ next.
          remove_uris uris next
    ]

    unfoldable pub trim_logs : String → World db.State → Option (World db.State)
    unfolding surplus remove_uris
    trim_logs log_uri w = remove_uris (surplus log_uri w.tree) w

    -- addlclog; none is a panic.
    unfoldable pub add_lc_log :
        String
        → Arg LogEventData
        → Arg LogEventData
        → World db.State
        → Option (Answer × World db.State)
    unfolding log_resource trim_logs send_command
    add_lc_log uuid (text_arg log_uri) (data_arg e) w = do
      created ←
          send_command db codec namespace check
            (create_redfish_resource (log_resource uuid log_uri e)) w
      trimmed ← trim_logs log_uri created
      some (answered_true, trimmed)
    add_lc_log uuid a b w = some (config_error, w)

    -- clearuris: the identifiers are collected first, then their resources are removed one by one.
    unfoldable pub id_list : List String → Dict String → List String
    id_list [] tree = []
    id_list (u ∷ uris) tree =
        let rest = id_list uris tree in
        elim (get_aggregate_id tree u) [ none ↦ rest | some id ↦ id ∷ rest ]

    unfoldable pub remove_ids : List String → World db.State → Option (World db.State)
    unfolding send_command
    remove_ids [] w = some w
    remove_ids (id ∷ ids) w =
        send_command db codec namespace check (remove_redfish_resource id) w >>= λ next.
        remove_ids ids next

    unfoldable pub clear_uris : Arg LogEventData → World db.State → Option (Answer × World db.State)
    unfolding under id_list remove_ids
    clear_uris (text_arg log_uri) w = do
      cleared ← remove_ids (id_list (under log_uri w.tree) w.tree) w
      some (answered_nil, cleared)
    clear_uris a w = some (config_error, w)
