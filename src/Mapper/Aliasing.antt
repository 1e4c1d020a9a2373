-- ===== src/Mapper/Aliasing.antt =====
-- What "addtoset" and "removefromset" return, and what the latter does to the property it reads.
use sailfish.Base.{
  Bool-cases, List, Option, Option-cases, String, [], ap, arith, drop, eq_iff, false, if◌then◌else◌,
  inl, inr, length, refl, some, str_eq, suc, sym, take, true, zero, ℕ, ◌++◌, ◌-◌, ◌<◌, ◌||◌, ◌∙◌,
  ◌∷◌, ◌≡◌, ◌≤◌,
}
use sailfish.Mapper.Sets.{
  Held, add_to_set, cut_out, has_string, match_idx, members, overwrite, remove_from_set,
  string_slice, strings,
}

has_string-append :
    (s : String) (xs ys : List String)
    → has_string s (xs ++ ys) ≡ (has_string s xs || has_string s ys)
unfolding has_string
has_string-append s [] ys = refl
has_string-append s (x ∷ xs) ys = ground (arith, has_string-append s xs ys)

-- Adding makes a text a member and leaves every other one as it was; a member is not added again.
pub has_string-add_to_set :
    (v : Option Held) (str s : String)
    → (has_string s (add_to_set v str) ≡ (str_eq str s || has_string s (members v)))
      × (has_string str (members v) ≡ true → add_to_set v str ≡ members v)
unfolding add_to_set has_string
has_string-add_to_set v str s = (
  ground (arith, has_string-append s (members v) (str ∷ []), eq_iff str s),
  (λ h. rw (h, add_to_set) refl),
)

-- The list without its first item that equals a text.
abbrev pub without : String → List String → List String
without s [] = []
without s (t ∷ ts) = if str_eq t s then ts else t ∷ without s ts

overwrite-front :
    (xs v : List String) → length xs ≤ length v → overwrite zero xs v ≡ xs ++ drop (length xs) v
unfolding overwrite
overwrite-front [] [] h = refl
overwrite-front [] (y ∷ v) h = refl
overwrite-front (x ∷ xs) [] h = absurd (omega (arith, h))
overwrite-front (x ∷ xs) (y ∷ v) h = ap (λ l. x ∷ l) (overwrite-front xs v (omega (arith, h)))

cut-front : (y : String) (v : List String) → overwrite zero v (y ∷ v) ≡ v ++ drop (length v) (y ∷ v)
cut-front y v = overwrite-front v (y ∷ v) (omega arith)

drop-last :
    (s t : String) (v : List String) (j : ℕ)
    → match_idx s v ≡ some j
    → drop (length v) (t ∷ v) ≡ drop (length v - 1) v
unfolding match_idx
drop-last s t [] j h = cc h
drop-last s t (x ∷ v) j h = ap (λ n. drop n (x ∷ v)) (omega arith)

match_idx-next :
    (s t : String) (v : List String) (i : ℕ)
    → match_idx s (t ∷ v) ≡ some i
    → str_eq t s ≡ false
    → (j : ℕ) × (match_idx s v ≡ some j) × (i ≡ suc j)
unfolding match_idx
match_idx-next s t v i h e = elim (Option-cases (match_idx s v)) [
  | inl n ↦ absurd (cc (rw (e, match_idx, n) at h))
  | inr (j, n) ↦ (j, n, ground (arith, h, e, n))
]

match_idx-first :
    (s t : String) (v : List String) (i : ℕ)
    → match_idx s (t ∷ v) ≡ some i
    → str_eq t s ≡ true
    → i ≡ 0
unfolding match_idx
match_idx-first s t v i h e = ground (arith, h, e)

-- The array after the text has been cut out: the slice without it, and its last item once more.
cut_out-array :
    (s : String) (v : List String) (i : ℕ)
    → match_idx s v ≡ some i
    → overwrite i (drop (suc i) v) v ≡ without s v ++ drop (length v - 1) v
unfolding match_idx overwrite
cut_out-array s [] i h = cc h
cut_out-array s (t ∷ v) i h = elim (Bool-cases (str_eq t s)) [
  | inl e ↦
      rw (e, match_idx-first s t v i h e, without)
        (cut-front t v ∙ ap (λ n. v ++ drop n (t ∷ v)) (omega arith))
  | inr e ↦
      let (j, n, same) = match_idx-next s t v i h e in
      rw (e, same, without, overwrite)
        (ap (λ l. t ∷ l)
          (cut_out-array s v j n
            ∙ ap (λ l. without s v ++ l)
                (sym (drop-last s t v j n) ∙ ap (λ m. drop m (t ∷ v)) (omega arith))))
]

take-append : (xs ys : List String) → take (length xs) (xs ++ ys) ≡ xs
take-append [] ys = refl
take-append (x ∷ xs) ys = ap (λ l. x ∷ l) (take-append xs ys)

match_idx-inside : (s : String) (v : List String) (i : ℕ) → match_idx s v ≡ some i → 0 < length v
unfolding match_idx
match_idx-inside s [] i h = cc h
match_idx-inside s (t ∷ v) i h = omega arith

length-without :
    (s : String) (v : List String) (i : ℕ)
    → match_idx s v ≡ some i
    → length (without s v) ≡ length v - 1
unfolding match_idx
length-without s [] i h = cc h
length-without s (t ∷ v) i h = elim (Bool-cases (str_eq t s)) [
  | inl e ↦ rw (e, without) (omega arith)
  | inr e ↦
      let (j, n, same) = match_idx-next s t v i h e in
      rw (e, without) (omega (arith, length-without s v j n, match_idx-inside s v j n))
]

-- Removing a text that the slice has gives the slice without its first occurrence. But the property
-- that holds the slice changes too: it keeps its length and gets its last item in place of the
-- gap.
pub remove_from_set-found :
    (v : List String) (str : String) (i : ℕ)
    → match_idx str v ≡ some i
    → ((remove_from_set (some (strings v)) str).result ≡ without str v)
      × ((remove_from_set (some (strings v)) str).held
          ≡ some (strings (without str v ++ drop (length v - 1) v)))
unfolding remove_from_set cut_out string_slice
remove_from_set-found v str i h =
    rw (h, remove_from_set, cut_out, cut_out-array str v i h, ← length-without str v i h)
      (take-append (without str v) (drop (length (without str v)) v), refl)
