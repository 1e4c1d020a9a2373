-- ===== src/Property/Access.antt =====
-- The maps and slices of a property tree: lookup, assignment and deletion of keys, append.
use Prim.Native.Nat.{min}
use sailfish.Base.{
  Bool, Option, String, ap, arith, eq_iff, false, if◌then◌else◌, none, refl, some, str_eq, suc,
  zero, ℕ, ◌+◌, ◌-◌, ◌||◌, ◌≡◌, ◌≤◌,
}
use sailfish.Property.{Fields, Value, Values, cons, end, field, nil}

-- v, ok := m[k]
unfoldable pub get : String → Fields → Option Value
get k end = none
get k (field j v fs) = if str_eq j k then some v else get k fs

-- m[k] = v
unfoldable pub put : String → Value → Fields → Fields
put k v end = field k v end
put k v (field j w fs) = if str_eq j k then field k v fs else field j w (put k v fs)

-- delete(m, k)
unfoldable pub delete : String → Fields → Fields
delete k end = end
delete k (field j v fs) = let rest = delete k fs in if str_eq j k then rest else field j v rest

abbrev pub has : String → Fields → Bool
has k end = false
has k (field j v fs) = str_eq j k || has k fs

-- append(a, b...) of slices
abbrev pub append : Values → Values → Values
append nil ys = ys
append (cons x xs) ys = cons x (append xs ys)

-- append of two maps that share no key
abbrev pub join : Fields → Fields → Fields
join end gs = gs
join (field k v fs) gs = field k v (join fs gs)

abbrev pub size : Values → ℕ
size nil = 0
size (cons x xs) = suc (size xs)

-- xs[n:]
abbrev pub drop_values : ℕ → Values → Values
drop_values zero xs = xs
drop_values (suc n) nil = nil
drop_values (suc n) (cons x xs) = drop_values n xs

abbrev pub take_values : ℕ → Values → Values
take_values zero xs = nil
take_values (suc n) nil = nil
take_values (suc n) (cons x xs) = cons x (take_values n xs)

pub get-put :
    (k j : String) (v : Value) (fs : Fields)
    → get j (put k v fs) ≡ (if str_eq k j then some v else get j fs)
unfolding get put
get-put k j v end = refl
get-put k j v (field i w fs) = ground (arith, eq_iff k j, eq_iff i k, eq_iff i j, get-put k j v fs)

pub get-delete :
    (k j : String) (fs : Fields) → get j (delete k fs) ≡ (if str_eq k j then none else get j fs)
unfolding get delete
get-delete k j end = ground arith
get-delete k j (field i w fs) =
    ground (arith, eq_iff k j, eq_iff i k, eq_iff i j, get-delete k j fs)

-- A new key goes to the end.
pub put-new :
    (k : String) (v : Value) (fs : Fields) → has k fs ≡ false → put k v fs ≡ join fs (field k v end)
unfolding put
put-new k v end h = refl
put-new k v (field j w fs) h = ground (arith, put-new k v fs)

pub join_assoc : (fs gs hs : Fields) → join (join fs gs) hs ≡ join fs (join gs hs)
join_assoc end gs hs = refl
join_assoc (field k v fs) gs hs = ap (field k v) (join_assoc fs gs hs)

pub join-end : (fs : Fields) → join fs end ≡ fs
join-end end = refl
join-end (field k v fs) = ap (field k v) (join-end fs)

pub has-join : (k : String) (fs gs : Fields) → has k (join fs gs) ≡ (has k fs || has k gs)
has-join k end gs = refl
has-join k (field j v fs) gs = ground (arith, has-join k fs gs)

pub append_assoc : (xs ys zs : Values) → append (append xs ys) zs ≡ append xs (append ys zs)
append_assoc nil ys zs = refl
append_assoc (cons x xs) ys zs = ap (cons x) (append_assoc xs ys zs)

pub append-nil : (xs : Values) → append xs nil ≡ xs
append-nil nil = refl
append-nil (cons x xs) = ap (cons x) (append-nil xs)

pub size-append : (xs ys : Values) → size (append xs ys) ≡ size xs + size ys
size-append nil ys = omega arith
size-append (cons x xs) ys = omega (arith, size-append xs ys)

pub size-drop_values : (n : ℕ) (xs : Values) → size (drop_values n xs) ≡ size xs - n
size-drop_values zero xs = omega arith
size-drop_values (suc n) nil = omega arith
size-drop_values (suc n) (cons x xs) = omega (arith, size-drop_values n xs)

pub take_values-all : (n : ℕ) (xs : Values) → size xs ≤ n → take_values n xs ≡ xs
take_values-all zero nil h = refl
take_values-all zero (cons x xs) h = absurd (omega (arith, h))
take_values-all (suc n) nil h = refl
take_values-all (suc n) (cons x xs) h = ap (cons x) (take_values-all n xs (omega (arith, h)))

drop_values-past : (n : ℕ) (xs : Values) → size xs ≤ n → drop_values n xs ≡ nil
drop_values-past zero nil h = refl
drop_values-past zero (cons x xs) h = absurd (omega (arith, h))
drop_values-past (suc n) nil h = refl
drop_values-past (suc n) (cons x xs) h = drop_values-past n xs (omega (arith, h))

pub drop_values-min : (n : ℕ) (xs : Values) → drop_values (min n (size xs)) xs ≡ drop_values n xs
drop_values-min n xs = ground (arith, drop_values-past n xs, drop_values-past (min n (size xs)) xs)
