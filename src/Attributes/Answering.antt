-- ===== src/Attributes/Answering.antt =====
-- A request for attributes whose answers all come.
use sailfish.Base.{
  Bool-cases, List, Option-cases, String, [], ap, arith, eq_iff, eq_refl, false, get_elem?,
  if◌then◌else◌, inl, inr, length, length-append, none, refl, some, str_eq, subst, suc, sym, take,
  true, ℕ, ◌++◌, ◌+◌, ◌-◌, ◌<◌, ◌==◌, ◌∙◌, ◌∷◌, ◌≡◌, ◌≤◌,
}
use sailfish.Attributes.Request.{
  Happening, Waiting, answered, collect, drop_id, index_of, put_at, take_answer, updated,
}
use sailfish.Attributes.Collecting.{count_of, count_of-take_answer}
use sailfish.Subscription.Matching.{occurrences}

abbrev one : String → String → ℕ
one s t = if str_eq s t then 1 else 0

occurrences-cons :
    (s t : String) (ts : List String) → occurrences s (t ∷ ts) ≡ one s t + occurrences s ts
occurrences-cons s t ts = ground arith

occurrences-append :
    (s : String) (xs ys : List String)
    → occurrences s (xs ++ ys) ≡ occurrences s xs + occurrences s ys
occurrences-append s [] ys = omega arith
occurrences-append s (x ∷ xs) ys = ground (arith, occurrences-append s xs ys)

-- A list that is not empty, by its last item.
snoc :
    (r : String) (rs : List String)
    → (init : List String) × (last : String) × (r ∷ rs ≡ init ++ (last ∷ []))
snoc r [] = ([], r, refl)
snoc r (x ∷ rs) = let (init, last, e) = snoc x rs in (r ∷ init, last, ap (λ l. r ∷ l) e)

take-init : (init : List String) (ys : List String) → take (length init) (init ++ ys) ≡ init
take-init [] ys = refl
take-init (x ∷ init) ys = ap (λ l. x ∷ l) (take-init init ys)

get_elem?-init :
    (init : List String) (last : String) → get_elem? (init ++ (last ∷ [])) (length init) ≡ some last
get_elem?-init [] last = refl
get_elem?-init (x ∷ init) last = get_elem?-init init last

index_of-next :
    (id r : String) (rs : List String) (i : ℕ)
    → index_of id (r ∷ rs) ≡ some i
    → str_eq r id ≡ false
    → (j : ℕ) × (index_of id rs ≡ some j) × (i ≡ suc j)
unfolding index_of
index_of-next id r rs i h e = elim (Option-cases (index_of id rs)) [
  | inl n ↦ absurd (cc (rw (e, index_of, n) at h))
  | inr (j, n) ↦ (j, n, ground (arith, h, e, n))
]

index_of-first :
    (id r : String) (rs : List String) (i : ℕ)
    → index_of id (r ∷ rs) ≡ some i
    → str_eq r id ≡ true
    → i ≡ 0
unfolding index_of
index_of-first id r rs i h e = ground (arith, h, e)

index_of-none : (id : String) (rs : List String) → index_of id rs ≡ none → occurrences id rs ≡ 0
unfolding index_of
index_of-none id [] h = refl
index_of-none id (r ∷ rs) h = elim (Bool-cases (str_eq r id)) [
  | inl e ↦ cc (rw (e, index_of) at h)
  | inr e ↦ elim (Option-cases (index_of id rs)) [
    | inr (j, n) ↦ cc (rw (e, n, index_of) at h)
    | inl n ↦ ground (arith, e, eq_iff r id, eq_iff id r, index_of-none id rs n)
  ]
]

-- Putting the last item in the place of the first that equals an identifier takes that one out.
put_at-init :
    (id last s : String) (init : List String) (i : ℕ)
    → index_of id (init ++ (last ∷ [])) ≡ some i
    → occurrences s (take (length init) (put_at i last (init ++ (last ∷ [])))) + one s id
      ≡ occurrences s (init ++ (last ∷ []))
unfolding index_of put_at
put_at-init id last s [] i h = ground (arith, h, eq_iff last id)
put_at-init id last s (x ∷ init) i h = elim (Bool-cases (str_eq x id)) [
  | inl e ↦
      rw
        (
          index_of-first id x (init ++ (last ∷ [])) i h e,
          put_at,
          take-init init (last ∷ []),
          ← (eq_iff x id).0 e,
        )
        (omega (
          arith,
          occurrences-cons s last init,
          occurrences-cons s x (init ++ (last ∷ [])),
          occurrences-append s init (last ∷ []),
          occurrences-cons s last [],
        ))
  | inr e ↦
      let (j, n, same) = index_of-next id x (init ++ (last ∷ [])) i h e in
      rw (same, put_at)
        (omega (
          arith,
          put_at-init id last s init j n,
          occurrences-cons s x (init ++ (last ∷ [])),
          occurrences-cons s x (take (length init) (put_at j last (init ++ (last ∷ [])))),
        ))
]

length-snoc : (init : List String) (last : String) → length (init ++ (last ∷ [])) - 1 ≡ length init
length-snoc init last = omega (arith, length-append init (last ∷ []))

drop_id-snoc :
    (id s last : String) (init : List String) (i : ℕ)
    → index_of id (init ++ (last ∷ [])) ≡ some i
    → occurrences s (drop_id i (init ++ (last ∷ []))) + one s id
      ≡ occurrences s (init ++ (last ∷ []))
unfolding drop_id
drop_id-snoc id s last init i h =
    let rs : List String = init ++ (last ∷ []) in
    let back = sym (length-snoc init last) in
    rw (subst (λ n. get_elem? rs n ≡ some last) back (get_elem?-init init last), drop_id)
      (subst (λ n. occurrences s (take n (put_at i last rs)) + one s id ≡ occurrences s rs) back
        (put_at-init id last s init i h))

-- Dropping an identifier that is pending takes it out once, and no other one.
occurrences-drop_id :
    (id s : String) (rs : List String) (i : ℕ)
    → index_of id rs ≡ some i
    → occurrences s (drop_id i rs) + one s id ≡ occurrences s rs
unfolding index_of
occurrences-drop_id id s [] i h = cc h
occurrences-drop_id id s (r ∷ rs) i h =
    let (init, last, e) = snoc r rs in
    subst (λ l. occurrences s (drop_id i l) + one s id ≡ occurrences s l) (sym e)
      (drop_id-snoc id s last init i (sym (ap (index_of id) e) ∙ h))

-- The answers as what happens.
abbrev pub happenings : List (String × String) → List Happening
happenings [] = []
happenings ((id, err) ∷ es) = updated id err ∷ happenings es

abbrev pub answered_ids : List (String × String) → List String
answered_ids [] = []
answered_ids ((id, err) ∷ es) = id ∷ answered_ids es

occurrences-take_answer :
    (id err s : String) (w : Waiting) (n : ℕ)
    → occurrences s w.req_ids ≤ one s id + n
    → occurrences s (take_answer id err w).req_ids ≤ n
unfolding take_answer
occurrences-take_answer id err s w n h = elim (Option-cases (index_of id w.req_ids)) [
  | inl e ↦ rw (e, take_answer) (ground (arith, h, index_of-none id w.req_ids e, eq_iff s id))
  | inr (i, e) ↦ elim (Bool-cases (str_eq err "")) [
    | inl b ↦ rw (e, b, take_answer) (omega (arith, h, occurrences-drop_id id s w.req_ids i e))
    | inr b ↦ rw (e, b, take_answer) (omega (arith, h, occurrences-drop_id id s w.req_ids i e))
  ]
]

nothing-pending : (rs : List String) → ((s : String) → occurrences s rs ≤ 0) → length rs ≡ 0
nothing-pending [] h = refl
nothing-pending (r ∷ rs) h = absurd (ground (arith, h r, eq_refl r))

-- If the answers name every pending identifier at least as often as it is pending, the wait ends by
-- an answer: the successes and errors together are then as many as the requests and errors before.
pub collect-answered :
    (timeout_response : String) (es : List (String × String)) (w : Waiting)
    → 0 < length w.req_ids
    → ((s : String) → occurrences s w.req_ids ≤ occurrences s (answered_ids es))
    → (errs : List String) × (n : ℕ) × (collect timeout_response (happenings es) w
        ≡ answered errs n)
      × (n + length errs ≡ count_of w)
unfolding collect
collect-answered timeout_response [] w some_pending h =
    absurd (omega (arith, some_pending, nothing-pending w.req_ids h))
collect-answered timeout_response ((id, err) ∷ es) w some_pending h =
    let w' : Waiting = take_answer id err w in
    elim (Bool-cases (length w'.req_ids == 0)) [
      | inl e ↦ (
        w'.errs,
        w'.num_success,
        rw (e, collect) refl,
        ground (arith, e, count_of-take_answer id err w),
      )
      | inr e ↦
          let (errs, n, run, total) =
            collect-answered timeout_response es w' (ground (arith, e)) (λ s.
              occurrences-take_answer id err s w (occurrences s (answered_ids es))
                (omega (arith, h s, occurrences-cons s id (answered_ids es)))) in
          (errs, n, rw (e, collect) run, total ∙ count_of-take_answer id err w)
    ]
