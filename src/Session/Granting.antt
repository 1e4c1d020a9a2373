-- ===== src/Session/Granting.antt =====
-- The POST command of src/ocp/session/commands.go: a login makes a session and its token.
use sailfish.Base.{
  Bool, Bool-cases, List, Option, String, [], and-true, arith, eq_iff, false, if◌then◌else◌, inl,
  inr, length, ltb, none, refl, some, str_eq, subst, sym, true, ◌&&◌, ◌<>◌, ◌∙◌, ◌∷◌, ◌≡◌, ◌≢◌,
}
use sailfish.Http.Dellauth.{with_user}
use sailfish.Session.{CacheItem, Claims, serve_login, session_handler}
use sailfish.Session.Cache.{IsSound, login_of, session_handler-uncached, uncached}

-- LoginRequest
pub record LoginRequest : Type 0 where
  pub user_name : String
  pub password : String

abbrev base_privileges : String → List String → List String
base_privileges user more =
    "Unauthenticated" ∷ "tokenauth" ∷ ("ConfigureSelf_" <> user) ∷ "Login" ∷ more

-- The privileges of a user who is let in.
unfoldable pub login_privileges : LoginRequest → Option (List String)
login_privileges r =
    if str_eq r.user_name "Administrator" && str_eq r.password "password"
    then some (
        base_privileges r.user_name
          ("ConfigureManager" ∷ "ConfigureUsers" ∷ "ConfigureComponents" ∷ []))
    else if str_eq r.user_name "Operator" && str_eq r.password "password"
    then some (base_privileges r.user_name ("ConfigureComponents" ∷ []))
    else if str_eq r.user_name "ReadOnly" && str_eq r.password "password"
    then some (base_privileges r.user_name [])
    else none

-- The answer to a login: the headers X-Auth-Token and Location.
pub record LoggedIn : Type 0 where
  pub token : String
  pub location : String

-- `sign` is the signing of claims by the token library; its time and issuer are left out. The URI is
-- that of the new session. none is the error of a user who is not let in.
module _ (sign : Claims → String) where
  unfoldable pub handle_post : LoginRequest → String → Option LoggedIn
  unfolding login_privileges
  handle_post r session_uri = elim (login_privileges r) [
    | none ↦ none
    | some privileges ↦ some (record {
      token =
          sign (record {
            user_name = r.user_name;
            privileges = privileges;
            session_uri = session_uri;
          });
      location = session_uri;
    })
  ]

-- What the goroutine of a session waits for: the refresh of its token, its removal, or that the
-- seconds of its timeout have passed since it began to wait.
pub data Wake : Type 0 where
  refreshed_token session_removed timeout_passed : Wake

-- The goroutine has not ended, has ended, or has ended and sent the removal of the session.
pub data Expiry : Type 0 where
  alive ended expired : Expiry

-- The loop of startSessionDeleteTimer.
unfoldable pub wait_for_expiry : List Wake → Expiry
wait_for_expiry [] = alive
wait_for_expiry (refreshed_token ∷ ws) = wait_for_expiry ws
wait_for_expiry (session_removed ∷ ws) = ended
wait_for_expiry (timeout_passed ∷ ws) = expired

-- What is known of a login that is let in.
abbrev IsGranted : String → String → List String → Type 0
IsGranted user password ps =
    (str_eq user "" ≡ false) × (ltb 0 (length ps) ≡ true) × (str_eq password "password" ≡ true)

some-injective :
    (qs ps : List String) → ◌≡◌ {A = Option (List String)} (some qs) (some ps) → qs ≡ ps
some-injective qs ps h = cc h

grant-step :
    (user password name : String) (qs ps : List String) (rest : Option (List String))
    → str_eq name "" ≡ false
    → ltb 0 (length qs) ≡ true
    → (rest ≡ some ps → IsGranted user password ps)
    → (if str_eq user name && str_eq password "password" then some qs else rest) ≡ some ps
    → IsGranted user password ps
grant-step user password name qs ps rest named filled next h =
    elim (Bool-cases (str_eq user name && str_eq password "password")) [
      | inr e ↦ next (rw e at h)
      | inl e ↦
          let (a, b) = and-true (str_eq user name) (str_eq password "password") e in
          let same : qs ≡ ps = some-injective qs ps (rw e at h) in
          (
            subst (λ u. str_eq u "" ≡ false) (sym ((eq_iff user name).0 a)) named,
            subst (λ l. ltb 0 (length l) ≡ true) same filled,
            b,
          )
    ]

login_privileges-IsGranted :
    (r : LoginRequest) (ps : List String)
    → login_privileges r ≡ some ps
    → IsGranted r.user_name r.password ps
unfolding login_privileges
login_privileges-IsGranted r ps =
    grant-step r.user_name r.password "Administrator" _ ps _ refl refl (
      grant-step r.user_name r.password "Operator" _ ps _ refl refl
        (grant-step r.user_name r.password "ReadOnly" _ ps none refl refl (λ h. absurd (cc h))))

uncached-known :
    (parse : String → Option Claims) (has : String → Bool) (token : String) (c : Claims)
    → token ≢ ""
    → parse token ≡ some c
    → has c.session_uri ≡ true
    → str_eq c.user_name "" ≡ false
    → ltb 0 (length c.privileges) ≡ true
    → uncached parse has token ≡ with_user c.user_name c.privileges
unfolding serve_login
uncached-known parse has token c ne p there named filled =
    let no : str_eq token "" ≡ false = ground (arith, eq_iff token "", ne) in
    rw (no, uncached, p, login_of, there, serve_login, named, filled) refl

-- The claims of a login.
abbrev pub claims_of : LoginRequest → List String → String → Claims
claims_of r ps uri = record { user_name = r.user_name; privileges = ps; session_uri = uri }

-- A login with privileges has the right password, and gets a token. A request with this token is
-- served as the user with exactly these privileges, whatever the cache holds, if the cache is sound,
-- the token library reads the claims back from the token, which is not empty, and the session exists.
pub session_handler-login :
    (sign : Claims → String) (parse : String → Option Claims) (has : String → Bool)
    (r : LoginRequest) (uri : String) (ps : List String) (cache : List CacheItem)
    → login_privileges r ≡ some ps
    → parse (sign (claims_of r ps uri)) ≡ some (claims_of r ps uri)
    → sign (claims_of r ps uri) ≢ ""
    → has uri ≡ true
    → IsSound parse cache
    → (str_eq r.password "password" ≡ true)
      × ((l : LoggedIn) × (handle_post sign r uri ≡ some l)
          × ((session_handler parse has l.token cache).0 ≡ with_user r.user_name ps))
unfolding handle_post
session_handler-login sign parse has r uri ps cache e reads filled there sound =
    let c : Claims = claims_of r ps uri in
    let (named, some_privilege, right) = login_privileges-IsGranted r ps e in
    (
      right,
      (
        record { token = sign c; location = uri },
        rw (e, handle_post) refl,
        (session_handler-uncached parse has (sign c) cache sound).0
            ∙ uncached-known parse has (sign c) c filled reads there named some_privilege,
      ),
    )
