-- ===== src/Session.antt =====
-- MakeHandlerFunc of src/ocp/session/sessions.go: the user of a request by its X-Auth-Token, with a
-- cache of the last tokens that were read.
pub mod Cache
pub mod Granting
use sailfish.Base.{
  Bool, List, Option, String, [], drop, false, if◌then◌else◌, length, ltb, none, not, some, str_eq,
  true, ◌&&◌, ◌++◌, ◌∷◌,
}
use sailfish.Http.Dellauth.{Serve, chain, with_user}

-- What a token says, RedfishClaims.
pub record Claims : Type 0 where
  pub user_name : String
  pub privileges : List String
  pub session_uri : String

pub record CacheItem : Type 0 where
  pub token : String
  pub claims : Claims

-- The variables of a request: the user so far, whether the cache had the token, and the sessions
-- whose time has been refreshed.
pub record Login : Type 0 where
  pub user_name : String
  pub privileges : List String
  pub found_cache : Bool
  pub refreshed : List String

abbrev pub no_login : Login
no_login = record { user_name = ""; privileges = []; found_cache = false; refreshed = [] }

abbrev pub log_in : Claims → Bool → Login → Login
log_in c cached l = record {
  user_name = c.user_name;
  privileges = c.privileges;
  found_cache = cached;
  refreshed = l.refreshed ++ (c.session_uri ∷ []);
}

-- `has_aggregate_id` says which sessions exist.
module _ (has_aggregate_id : String → Bool) where
  -- The loop over the cache.
  unfoldable pub search_cache : String → List CacheItem → Login → Login
  search_cache token [] l = l
  search_cache token (i ∷ is) l =
      let rest = search_cache token is l in
      let hit = search_cache token is (log_in i.claims true l) in
      if str_eq i.token token && has_aggregate_id i.claims.session_uri then hit else rest

-- The newest item comes last; at most four are kept.
unfoldable pub remember : CacheItem → List CacheItem → List CacheItem
remember i cache =
    let longer = cache ++ (i ∷ []) in if ltb 4 (length longer) then drop 1 longer else longer

unfoldable pub serve_login : Login → Serve
serve_login l =
    if not (str_eq l.user_name "") && ltb 0 (length l.privileges)
    then with_user l.user_name l.privileges
    else chain

-- `parse` is jwt.ParseWithClaims with the module's secret: the claims of a valid token.
module _ (parse : String → Option Claims) (has_aggregate_id : String → Bool) where
  -- The part that reads a token which the cache does not have.
  unfoldable pub parse_login :
      String → Option Claims → Login → List CacheItem → Login × List CacheItem
  unfolding remember
  parse_login token none l cache = (l, cache)
  parse_login token (some c) l cache =
      if has_aggregate_id c.session_uri
      then (log_in c false l, remember (record { token = token; claims = c }) cache)
      else (l, cache)

  unfoldable pub find_login : String → List CacheItem → Login × List CacheItem
  unfolding search_cache parse_login
  find_login token cache =
      let l = search_cache has_aggregate_id token cache no_login in
      if str_eq token ""
      then (no_login, cache)
      else if l.found_cache
      then (l, cache)
      else parse_login token (parse token) l cache

  -- The handler: how the request is served, and the cache after it.
  unfoldable pub session_handler : String → List CacheItem → Serve × List CacheItem
  unfolding find_login serve_login
  session_handler token cache = let (l, after) = find_login token cache in (serve_login l, after)
