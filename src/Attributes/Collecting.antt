-- ===== src/Attributes/Collecting.antt =====
-- The answers to a request for attributes, counted.
use sailfish.Base.{
  Bool-cases, List, Option, Option-cases, String, [], ap, arith, inl, inr, length, length-append,
  length-take, none, refl, some, str_eq, suc, zero, ℕ, ◌+◌, ◌-◌, ◌<◌, ◌∷◌, ◌≡◌, ◌≤◌,
}
use sailfish.Attributes.Request.{
  Outcome, Requested, Waiting, abandoned, answered, drop_id, index_of, put_at, take_answer,
  timed_out, waits,
}
use sailfish.Property.{Fields, end, field}
use sailfish.Faults.Tombstones.{get_elem?-found}

length-put_at : (i : ℕ) (x : String) (rs : List String) → length (put_at i x rs) ≡ length rs
unfolding put_at
length-put_at i x [] = refl
length-put_at zero x (r ∷ rs) = refl
length-put_at (suc i) x (r ∷ rs) = ap suc (length-put_at i x rs)

index_of-bound : (id : String) (rs : List String) (i : ℕ) → index_of id rs ≡ some i → i < length rs
unfolding index_of
index_of-bound id [] i h = cc h
index_of-bound id (r ∷ rs) zero h = omega arith
index_of-bound id (r ∷ rs) (suc i) h = ground (arith, h, index_of-bound id rs i)

length-drop_id : (i : ℕ) (rs : List String) → i < length rs → length (drop_id i rs) ≡ length rs - 1
unfolding drop_id
length-drop_id i rs h =
    let (last, e) = get_elem?-found rs (length rs - 1) (omega (arith, h)) in
    rw (e, drop_id)
      (omega (arith, h, length-take (length rs - 1) (put_at i last rs), length-put_at i last rs))

-- The requests that an outcome accounts for.
abbrev pub count_of : Waiting → ℕ
count_of w = length w.req_ids + (w.num_success + length w.errs)

abbrev pub Accounts : ℕ → Outcome → Type 0
Accounts total (waits w) = count_of w ≡ total
Accounts total (answered errs n) = n + length errs ≡ total
Accounts total (timed_out errs n) = n ≤ total
Accounts total (abandoned errs n) = n ≤ total

pub count_of-take_answer :
    (id err : String) (w : Waiting) → count_of (take_answer id err w) ≡ count_of w
unfolding take_answer
count_of-take_answer id err w = elim (Option-cases (index_of id w.req_ids)) [
  | inl e ↦ rw (e, take_answer) refl
  | inr (i, e) ↦
      let inside = index_of-bound id w.req_ids i e in
      elim (Bool-cases (str_eq err "")) [
        | inl b ↦ rw (e, b, take_answer) (omega (arith, inside, length-drop_id i w.req_ids inside))
        | inr b ↦
            rw (e, b, take_answer)
              (omega
                (arith, inside, length-drop_id i w.req_ids inside, length-append w.errs (err ∷ [])))
      ]
]

-- The number of entries of a map.
abbrev pub field_count : Fields → ℕ
field_count end = 0
field_count (field k v fs) = suc (field_count fs)

abbrev asked_of : Requested → ℕ
asked_of r = length r.req_ids + length r.errs

-- What is asked after a panic, which needs a model without an fqdd, or without one.
abbrev Asks : List String → ℕ → Option Requested → Type 0
Asks fqdds total none = fqdds ≡ []
Asks fqdds total (some r) = asked_of r ≡ total

-- What a PATCH accounts for, where a panic needs a model without an fqdd.
abbrev pub Settles : List String → ℕ → Option Outcome → Type 0
Settles fqdds total none = fqdds ≡ []
Settles fqdds total (some o) = Accounts total o
