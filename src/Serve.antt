-- ===== src/Serve.antt =====
-- ServeHTTP of src/redfishresource/redfish_handler.go, up to the point where the command runs.
pub mod Access
use sailfish.Base.{
  Bool, List, Option, String, [], false, if◌then◌else◌, none, not, some, str_eq, true, ℕ, ◌&&◌,
  ◌<>◌, ◌∷◌,
}
use sailfish.Property.{Value, Values, cons, list, nil, text}
use sailfish.Http.{map_string_to_http_req}
use sailfish.Http.Privileges.{is_authorized}
use sailfish.Resource.{Aggregate}
use sailfish.Resource.Commands.{privileges_of}
use sailfish.Store.Db.{Codec, Database}
use sailfish.Store.Repo.{load}
use sailfish.Store.Tree.{Domain, get_aggregate_id}

-- What ServeHTTP reads of a request, with the privileges of its user.
pub record Request : Type 0 where
  pub path : String
  pub method : String
  pub if_none_match : String
  pub if_match : String
  pub user_privileges : List String

-- A status that ends the request, or the aggregate and the name of the command to run on it.
pub data Gate : Type 0 where
  refused : ℕ → Gate
  forwarded : Aggregate → String → Gate

-- The search path of command names.
unfoldable pub search_path : Aggregate → String → List String
search_path a method =
    (a.resource_uri <> (":" <> method))
    ∷ (a.plugin <> (":" <> method))
    ∷ ("R:" <> method)
    ∷ ("http:RedfishResource:" <> method)
    ∷ []

-- The first name for which a command can be created.
unfoldable pub find_command : (String → Bool) → List String → Option String
find_command registered [] = none
find_command registered (name ∷ names) =
    let rest = find_command registered names in if registered name then some name else rest

-- The texts of a slice; other items are passed over.
abbrev pub texts : Values → List String
texts nil = []
texts (cons (text s) xs) = s ∷ texts xs
texts (cons _ xs) = texts xs

-- The privileges that an entry of the privilege map requires.
unfoldable pub required_privileges : Option Value → List String
required_privileges (some (list xs)) = texts xs
required_privileges _ = []

-- The tests of both headers against the etag of the resource; an empty etag fits any.
unfoldable pub check_etag : String → Request → Option ℕ
check_etag etag r =
    if not (str_eq r.if_none_match "") && (not (str_eq etag "") && str_eq r.if_none_match etag)
    then some 304
    else if not (str_eq r.if_match "") && (not (str_eq etag "") && not (str_eq r.if_match etag))
    then some 416
    else none

-- The status of the user, and then that of the headers.
abbrev pub answer : Bool → Option ℕ → Aggregate → String → Gate
answer false o a name = refused 405
answer true (some status) a name = refused status
answer true none a name = forwarded a name

-- The privilege and header tests on the loaded aggregate. What SetUserDetails of the command answers
-- is overwritten, since the variable that is tested after it is never set.
unfoldable pub admit : String → Request → Aggregate → String → Gate
unfolding check_etag required_privileges
admit etag r a name =
    answer
      (is_authorized r.user_privileges
        (required_privileges (privileges_of (map_string_to_http_req r.method) a.privilege_map)))
      (check_etag etag r) a name

unfoldable pub admit_command : Option String → String → Request → Aggregate → Gate
unfolding admit
admit_command none etag r a = refused 400
admit_command (some name) etag r a = admit etag r a name

-- `registered` says which command names the event library knows; `etag_of` is getResourceEtag.
module _ {Bytes : Type 0} (db : Database Bytes) (codec : Codec Bytes) (namespace : String)
    (registered : String → Bool) (etag_of : Aggregate → String) where
  unfoldable pub gate : Domain db.State → Request → Gate
  unfolding search_path find_command admit_command
  gate d r = elim (get_aggregate_id d.tree r.path) as (λ x. Gate) [
    | none ↦ refused 404
    | some id ↦
        let a = load db codec namespace d.repo id in
        admit_command (find_command registered (search_path a r.method)) (etag_of a) r a
  ]
