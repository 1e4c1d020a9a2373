-- ===== src/Http/Dellauth.antt =====
-- MakeHandlerFunc of src/dell-resources/dellauth/dellauth.go: the user and the privileges that the
-- front end passes in two headers.
use sailfish.Base.{
  Bool-cases, List, String, [], arith, if◌then◌else◌, inl, inr, length, length-append, ltb, not,
  str_eq, ℕ, ◌&&◌, ◌++◌, ◌<>◌, ◌∷◌, ◌≡◌,
}
use sailfish.Http.Privileges.{privilege_bits_to_strings}

-- The call that serves the request: withUser(userName, privileges), or the next handler.
pub data Serve : Type 0 where
  with_user : String → List String → Serve
  chain : Serve

-- `user_priv` is the number that the header holds, 0 if it holds none, as a bit pattern.
unfoldable pub dellauth_handler : String → ℕ → Serve
dellauth_handler username user_priv =
    let privileges = privilege_bits_to_strings user_priv in
    let granted =
      if str_eq username ""
      then privileges
      else privileges ++ ("Unauthenticated" ∷ "dellauth" ∷ ("ConfigureSelf_" <> username) ∷ []) in
    if ltb 0 (length granted) && not (str_eq username "") then with_user username granted else chain

-- A request without a user name goes on to the next handler; one with a user name is served for
-- that user, with the privileges of its bits followed by the three that every user of this way in
-- has.
pub dellauth_handler_lem :
    (username : String) (user_priv : ℕ)
    → dellauth_handler username user_priv ≡ (
        if str_eq username ""
        then chain
        else with_user username (
            privilege_bits_to_strings user_priv
            ++ ("Unauthenticated" ∷ "dellauth" ∷ ("ConfigureSelf_" <> username) ∷ [])))
unfolding dellauth_handler
dellauth_handler_lem username user_priv = elim (Bool-cases (str_eq username "")) [
  | inl anonymous ↦ ground arith
  | inr named ↦ ground (
    arith,
    length-append (privilege_bits_to_strings user_priv)
        ("Unauthenticated" ∷ "dellauth" ∷ ("ConfigureSelf_" <> username) ∷ []),
  )
]
