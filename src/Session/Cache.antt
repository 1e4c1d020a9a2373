-- ===== src/Session/Cache.antt =====
-- The cache changes nothing but the time that a request takes.
use sailfish.Base.{
  Bool, Bool-cases, List, Option, String, [], arith, drop, eq_iff, false, if-cases, if◌then◌else◌,
  inl, inr, length, length-append, length-drop, ltb, none, refl, some, str_eq, subst, sym, true,
  ◌&&◌, ◌++◌, ◌∷◌, ◌≡◌, ◌≤◌, ◌⊎◌,
}
use sailfish.Http.Dellauth.{Serve, chain}
use sailfish.Session.{
  CacheItem, Claims, Login, find_login, log_in, no_login, parse_login, remember, search_cache,
  serve_login, session_handler,
}

-- The user by the token alone.
abbrev pub login_of : (String → Bool) → Option Claims → Login
login_of has none = no_login
login_of has (some c) = if has c.session_uri then log_in c false no_login else no_login

-- How a request would be served without a cache.
abbrev pub uncached : (String → Option Claims) → (String → Bool) → String → Serve
uncached parse has token =
    if str_eq token "" then chain else serve_login (login_of has (parse token))

-- Every item has the claims of its token, and there are at most four.
abbrev pub AreParsed : (String → Option Claims) → List CacheItem → Type 0
AreParsed parse [] = Unit
AreParsed parse (i ∷ is) = (parse i.token ≡ some i.claims) × AreParsed parse is

abbrev pub IsSound : (String → Option Claims) → List CacheItem → Type 0
IsSound parse cache = AreParsed parse cache × (length cache ≤ 4)

-- Nothing was found yet, or the claims of the token.
abbrev Known : (String → Option Claims) → (String → Bool) → String → Login → Type 0
Known parse has token l =
    (l ≡ no_login)
    ⊎ ((c : Claims) × (parse token ≡ some c)
        × (has c.session_uri ≡ true)
        × (l.found_cache ≡ true)
        × (l.user_name ≡ c.user_name)
        × (l.privileges ≡ c.privileges))

and-true : (a b : Bool) → a && b ≡ true → (a ≡ true) × (b ≡ true)
and-true a b h = ground (arith, h)

search_cache-Known :
    (parse : String → Option Claims) (has : String → Bool) (token : String) (cache : List CacheItem)
    (l : Login)
    → AreParsed parse cache
    → Known parse has token l
    → Known parse has token (search_cache has token cache l)
unfolding search_cache
search_cache-Known parse has token [] l h k = k
search_cache-Known parse has token (i ∷ is) l (p, h) k =
    if-cases (Known parse has token) (str_eq i.token token && has i.claims.session_uri)
      (search_cache has token is (log_in i.claims true l)) (search_cache has token is l)
      (λ y. search_cache-Known parse has token is (log_in i.claims true l) h (
        let (same, there) = and-true (str_eq i.token token) (has i.claims.session_uri) y in
        inr (
          i.claims,
          subst (λ t. parse t ≡ some i.claims) ((eq_iff i.token token).0 same) p,
          there,
          refl,
          refl,
          refl,
        )))
      (λ n. search_cache-Known parse has token is l h k)

append-AreParsed :
    (parse : String → Option Claims) (i : CacheItem) (cache : List CacheItem)
    → parse i.token ≡ some i.claims
    → AreParsed parse cache
    → AreParsed parse (cache ++ (i ∷ []))
append-AreParsed parse i [] p h = (p, tt)
append-AreParsed parse i (x ∷ cache) p (q, h) = (q, append-AreParsed parse i cache p h)

drop-AreParsed :
    (parse : String → Option Claims) (cache : List CacheItem)
    → AreParsed parse cache
    → AreParsed parse (drop 1 cache)
drop-AreParsed parse [] h = tt
drop-AreParsed parse (x ∷ cache) (q, h) = h

remember-IsSound :
    (parse : String → Option Claims) (i : CacheItem) (cache : List CacheItem)
    → parse i.token ≡ some i.claims
    → IsSound parse cache
    → IsSound parse (remember i cache)
unfolding remember
remember-IsSound parse i cache p (h, few) =
    let longer = cache ++ (i ∷ []) in
    let all = append-AreParsed parse i cache p h in
    if-cases (IsSound parse) (ltb 4 (length longer)) (drop 1 longer) longer
      (λ y. (
        drop-AreParsed parse longer all,
        omega (arith, few, length-append cache (i ∷ []), length-drop 1 longer),
      ))
      (λ n. (all, ground (arith, n)))

serve_login-same :
    (l m : Login)
    → l.user_name ≡ m.user_name
    → l.privileges ≡ m.privileges
    → serve_login l ≡ serve_login m
unfolding serve_login
serve_login-same l m u p = ground (arith, u, p)

-- The handler's answer is that of the login, and the cache is sound.
abbrev Answers : (String → Option Claims) → Login → Login × List CacheItem → Type 0
Answers parse m z = (serve_login z.0 ≡ serve_login m) × IsSound parse z.1

parse_login-Answers :
    (parse : String → Option Claims) (has : String → Bool) (token : String) (o : Option Claims)
    (cache : List CacheItem)
    → parse token ≡ o
    → IsSound parse cache
    → Answers parse (login_of has o) (parse_login parse has token o no_login cache)
unfolding parse_login
parse_login-Answers parse has token none cache e s = (refl, s)
parse_login-Answers parse has token (some c) cache e s = elim (Bool-cases (has c.session_uri)) [
  | inl y ↦ rw y (refl, remember-IsSound parse (record { token = token; claims = c }) cache e s)
  | inr n ↦ rw n (refl, s)
]

find_login-Answers :
    (parse : String → Option Claims) (has : String → Bool) (token : String) (cache : List CacheItem)
    (l : Login)
    → Known parse has token l
    → IsSound parse cache
    → Answers parse
        (login_of has (parse token))
        (if l.found_cache then (l, cache) else parse_login parse has token (parse token) l cache)
find_login-Answers parse has token cache l (inl e) s =
    subst
      (λ z.
        Answers parse (login_of has (parse token))
          (if z.found_cache then (z, cache) else parse_login parse has token (parse token) z cache))
      (sym e) (parse_login-Answers parse has token (parse token) cache refl s)
find_login-Answers parse has token cache l (inr (c, p, h, f, u, r)) s =
    if-cases (Answers parse (login_of has (parse token))) l.found_cache (l, cache)
      (parse_login parse has token (parse token) l cache)
      (λ y. (serve_login-same l (login_of has (parse token)) (rw (p, h) u) (rw (p, h) r), s))
      (λ n. ground (arith, n, f))

unless_empty :
    (parse : String → Option Claims) (b : Bool) (cache : List CacheItem)
    (z : Login × List CacheItem) (m : Login)
    → IsSound parse cache
    → Answers parse m z
    → (serve_login (if b then (no_login, cache) else z).0 ≡ (if b then chain else serve_login m))
      × IsSound parse (if b then (no_login, cache) else z).1
unfolding serve_login
unless_empty parse true cache z m s a = (refl, s)
unless_empty parse false cache z m s a = a

-- With a sound cache a request is served as it would be without one, and the cache stays sound:
-- each item has the claims of its token, and there are at most four.
pub session_handler-uncached :
    (parse : String → Option Claims) (has : String → Bool) (token : String) (cache : List CacheItem)
    → IsSound parse cache
    → ((session_handler parse has token cache).0 ≡ uncached parse has token)
      × IsSound parse (session_handler parse has token cache).1
unfolding session_handler find_login
session_handler-uncached parse has token cache (h, few) =
    let l = search_cache has token cache no_login in
    unless_empty parse (str_eq token "") cache
      (if l.found_cache then (l, cache) else parse_login parse has token (parse token) l cache)
      (login_of has (parse token)) (h, few)
      (find_login-Answers parse has token cache l
        (search_cache-Known parse has token cache no_login h (inl refl)) (h, few))
