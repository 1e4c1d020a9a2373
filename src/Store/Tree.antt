-- ===== src/Store/Tree.antt =====
-- DomainObjects of src/redfishresource/handler.go: the tree that takes a URI to the identifier of
-- its aggregate, kept up to date by the events of creation and removal.
pub mod Consistency
use Prim.Native.Char.{code}
use sailfish.Base.{
  Bool, Dict, List, Option, String, [], delete, false, if◌then◌else◌, insert, lookup, none, not,
  some, str_eq, true, ◌&&◌, ◌++◌, ◌==◌, ◌∷◌,
}
use sailfish.Resource.{
  Aggregate, Event, http_cmd_processed, properties_updated2, resource_created, resource_removed,
}
use sailfish.Store.Db.{Codec, Database}
use sailfish.Store.Repo.{load, remove_entity}

-- The tree, the repository, and the URIs under which a plugin has been looked up to be closed.
pub record Domain (State : Type 0) : Type 0 where
  pub tree : Dict String
  pub repo : State
  pub closed : List String

abbrev all_slashes : String → Bool
all_slashes String.[] = true
all_slashes (String.◌∷◌ c s) = code c == b'/' && all_slashes s

-- uri[:len(uri)-i], where i counts the slashes at the end.
unfoldable pub strip_slashes : String → String
strip_slashes String.[] = ""
strip_slashes (String.◌∷◌ c s) =
    let rest = strip_slashes s in if code c == b'/' && all_slashes s then "" else String.◌∷◌ c rest

-- HasAggregateID
unfoldable pub has_aggregate_id : Dict String → String → Bool
has_aggregate_id tree uri = elim (lookup uri tree) [ none ↦ false | some id ↦ true ]

-- GetAggregateIDOK
unfoldable pub get_aggregate_id : Dict String → String → Option String
unfolding strip_slashes
get_aggregate_id tree uri = elim (lookup uri tree) [
  | none ↦ lookup (strip_slashes uri) tree
  | some id ↦ some id
]

-- FindMatchingURIs, in the order in which the second loop meets the map.
unfoldable pub find_matching_uris : (String → Bool) → Dict String → List String
find_matching_uris matcher [] = []
find_matching_uris matcher ((uri, id) ∷ rest) =
    let found = find_matching_uris matcher rest in if matcher uri then uri ∷ found else found

abbrev pub is_this : Option String → String → Bool
is_this none id = false
is_this (some uuid) id = str_eq uuid id

unfoldable pub removed_tree : Dict String → String → String → Dict String
removed_tree tree id uri = if is_this (lookup uri tree) id then delete uri tree else tree

module _ {Bytes : Type 0} (db : Database Bytes) (codec : Codec Bytes) (namespace : String) where
  -- ExpandURI: the aggregate whose properties it gives; none for a URI that is not in the tree.
  unfoldable pub expand_uri : Domain db.State → String → Option Aggregate
  expand_uri d uri = elim (get_aggregate_id d.tree uri) [
    | none ↦ none
    | some id ↦ some (load db codec namespace d.repo id)
  ]

  -- An older aggregate at the same URI is removed from the repository.
  unfoldable pub drop_older : Option String → String → db.State → db.State
  drop_older none id s = s
  drop_older (some old) id s =
      if not (str_eq old id) then remove_entity db codec namespace s old else s

  unfoldable pub notify_created : Domain db.State → String → String → Domain db.State
  unfolding drop_older
  notify_created d id uri = record d {
    repo = drop_older (lookup uri d.tree) id d.repo;
    tree = insert uri id d.tree;
  }

  -- The aggregate leaves the repository; the URI leaves the tree, and its plugin is looked up to be
  -- closed, only if it is this aggregate that stands there.
  unfoldable pub notify_removed : Domain db.State → String → String → Domain db.State
  unfolding removed_tree
  notify_removed d id uri = record d {
    repo = remove_entity db codec namespace d.repo id;
    tree = removed_tree d.tree id uri;
    closed = if is_this (lookup uri d.tree) id then d.closed ++ (uri ∷ []) else d.closed;
  }

  -- Notify
  unfoldable pub notify : Domain db.State → Event → Domain db.State
  unfolding notify_created notify_removed
  notify d (resource_created id uri) = notify_created d id uri
  notify d (resource_removed id uri) = notify_removed d id uri
  notify d (properties_updated2 id uri fs) = d
  notify d (http_cmd_processed id v n) = d

  -- The events of one command, in the order in which they were published.
  unfoldable pub notify_all : List Event → Domain db.State → Domain db.State
  unfolding notify
  notify_all [] d = d
  notify_all (e ∷ es) d = notify_all es (notify d e)
