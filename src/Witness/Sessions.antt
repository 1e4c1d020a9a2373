-- ===== src/Witness/Sessions.antt =====
-- A token that the cache has, and one that it has not.
use sailfish.Base.{
  Bool, List, Option, String, [], arith, if◌then◌else◌, none, refl, some, str_eq, true, ◌||◌, ◌∷◌,
  ◌≡◌,
}
use sailfish.Http.Dellauth.{with_user}
use sailfish.Session.{CacheItem, Claims, session_handler}
use sailfish.Session.Granting.{
  LoggedIn, LoginRequest, claims_of, handle_post, login_privileges, session_handler-login,
}
use sailfish.Session.Cache.{IsSound, session_handler-uncached, uncached}

abbrev root_claims : Claims
root_claims = record {
  user_name = "root";
  privileges = "Login" ∷ [];
  session_uri = "/redfish/v1/SessionService/Sessions/1";
}

-- Two tokens are valid.
abbrev parse_token : String → Option Claims
parse_token t = if str_eq t "t1" || str_eq t "t2" then some root_claims else none

abbrev one_item : List CacheItem
one_item = record { token = "t1"; claims = root_claims } ∷ []

abbrev session_exists : String → Bool
session_exists uri = str_eq uri "/redfish/v1/SessionService/Sessions/1"

one_item-IsSound : IsSound parse_token one_item
one_item-IsSound = ((refl, tt), omega arith)

-- The second token joins the first in the cache.
second_remembered : session_handler parse_token session_exists "t2" one_item ≡ (
  with_user "root" ("Login" ∷ []),
  record { token = "t1"; claims = root_claims }
      ∷ record { token = "t2"; claims = root_claims }
      ∷ [],
)
unfolding session_handler
second_remembered = refl

session_handler-uncached_example :
    ((session_handler parse_token session_exists "t2" one_item).0
      ≡ uncached parse_token session_exists "t2")
    × IsSound parse_token (session_handler parse_token session_exists "t2" one_item).1
session_handler-uncached_example =
    session_handler-uncached parse_token session_exists "t2" one_item one_item-IsSound

abbrev operator : LoginRequest
operator = record { user_name = "Operator"; password = "password" }

abbrev operator_privileges : List String
operator_privileges =
    "Unauthenticated" ∷ "tokenauth" ∷ "ConfigureSelf_Operator" ∷ "Login" ∷ "ConfigureComponents"
    ∷ []

abbrev operator_claims : Claims
operator_claims = claims_of operator operator_privileges "/redfish/v1/SessionService/Sessions/1"

operator_enters : login_privileges operator ≡ some operator_privileges
unfolding login_privileges
operator_enters = refl

abbrev parse_one : String → Option Claims
parse_one t = if str_eq t "t1" then some operator_claims else none

session_handler-login_example :
    (str_eq "password" "password" ≡ true)
    × ((l : LoggedIn) × (handle_post (λ c. "t1") operator "/redfish/v1/SessionService/Sessions/1"
          ≡ some l)
        × ((session_handler parse_one session_exists l.token []).0
            ≡ with_user "Operator" operator_privileges))
session_handler-login_example =
    session_handler-login (λ c. "t1") parse_one session_exists operator
      "/redfish/v1/SessionService/Sessions/1" operator_privileges [] operator_enters refl
      (λ e. cc e) refl (tt, omega arith)
