-- ===== src/Property/RoundTrip.antt =====
-- Parse and Flatten against one another.
use sailfish.Base.{◌≡◌, refl, ap, sym, ◌∙◌, String, true, false, none, arith, eq_iff, eq_refl}
use sailfish.Property.{
  Value, Values, Fields, null, boolean, number, text, list, dict, prop, nil, cons, end, field,
}
use sailfish.Property.Access.{
  has, join, append, put-new, join_assoc, join-end, has-join, append_assoc, append-nil,
}
use sailfish.Property.Parse.{parse, parse_fields, parse_values, put_entry, strip_suffix}
use sailfish.Property.Flatten.{flatten, flatten_fields, flatten_values}

-- A value as JSON has it: no property inside, the keys of each map distinct, and none of them
-- ends in "@meta".
abbrev mutual
  pub IsPlain : Value → Type 0
  IsPlain (prop v m e) = ⊥
  IsPlain (dict fs) = ArePlain fs
  IsPlain (list xs) = AllPlain xs
  IsPlain null = Unit
  IsPlain (boolean b) = Unit
  IsPlain (number n) = Unit
  IsPlain (text s) = Unit

  pub ArePlain : Fields → Type 0
  ArePlain end = Unit
  ArePlain (field k v fs) =
      (strip_suffix "@meta" k ≡ none) × (has k fs ≡ false) × IsPlain v × ArePlain fs

  pub AllPlain : Values → Type 0
  AllPlain nil = Unit
  AllPlain (cons v vs) = IsPlain v × AllPlain vs

flatten-join :
    (fs gs : Fields) → flatten_fields (join fs gs) ≡ join (flatten_fields fs) (flatten_fields gs)
unfolding flatten
flatten-join end gs = refl
flatten-join (field k v fs) gs = ap (field k (flatten v)) (flatten-join fs gs)

flatten-append :
    (xs ys : Values)
    → flatten_values (append xs ys) ≡ append (flatten_values xs) (flatten_values ys)
unfolding flatten
flatten-append nil ys = refl
flatten-append (cons v xs) ys = ap (cons (flatten v)) (flatten-append xs ys)

-- No key of `fs` is a key of `into`.
abbrev Fresh : Fields → Fields → Type 0
Fresh into fs = (k : String) → has k fs ≡ true → has k into ≡ false

Fresh-step :
    (k : String) (v w : Value) (into fs : Fields)
    → has k fs ≡ false
    → Fresh into (field k v fs)
    → Fresh (join into (field k w end)) fs
Fresh-step k v w into fs new fresh j h =
    ground (arith, has-join j into (field k w end), eq_iff k j, fresh j)

flatten_step :
    (k : String) (v w : Value) (into fs : Fields)
    → flatten w ≡ v
    → join (flatten_fields (join into (field k (prop w end false) end))) fs
      ≡ join (flatten_fields into) (field k v fs)
unfolding flatten
flatten_step k v w into fs e =
    rw (flatten-join into (field k (prop w end false) end), join_assoc, e)

mutual
  unfolding parse flatten put_entry

  flatten-parse_value : (v : Value) → IsPlain v → flatten (parse null v) ≡ v
  flatten-parse_value (prop v m e) h = absurd h
  flatten-parse_value (dict fs) h = ap dict (flatten-parse_fields end fs h (λ k e. cc))
  flatten-parse_value (list xs) h = ap list (flatten-parse_values nil xs h)
  flatten-parse_value null h = refl
  flatten-parse_value (boolean b) h = refl
  flatten-parse_value (number n) h = refl
  flatten-parse_value (text s) h = refl

  flatten-parse_fields :
      (into fs : Fields)
      → ArePlain fs
      → Fresh into fs
      → flatten_fields (parse_fields into fs) ≡ join (flatten_fields into) fs
  flatten-parse_fields into end h fresh = sym (join-end (flatten_fields into))
  flatten-parse_fields into (field k v fs) h fresh =
      rw (h.0, put-new k (prop (parse null v) end false) into (fresh k (simp eq_refl)))
        (flatten-parse_fields (join into (field k (prop (parse null v) end false) end)) fs h.3
            (Fresh-step k v _ into fs h.1 fresh)
          ∙ flatten_step k v (parse null v) into fs (flatten-parse_value v h.2))

  flatten-parse_values :
      (into xs : Values)
      → AllPlain xs
      → flatten_values (parse_values into xs) ≡ append (flatten_values into) xs
  flatten-parse_values into nil h = sym (append-nil (flatten_values into))
  flatten-parse_values into (cons v vs) h =
      flatten-parse_values (append into (cons (prop (parse null v) end false) nil)) vs h.1
      ∙ rw (
        flatten-append into (cons (prop (parse null v) end false) nil),
        append_assoc,
        flatten-parse_value v h.0,
      )

-- Flatten gives back every plain value that a fresh property was parsed from.
pub flatten-parse : (v : Value) → IsPlain v → flatten (parse null v) ≡ v
flatten-parse v h = flatten-parse_value v h
