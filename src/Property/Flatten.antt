-- ===== src/Property/Flatten.antt =====
-- Flatten of runmeta.go: the plain value of a property tree, and the tree that it leaves behind.
use sailfish.Base.{if◌then◌else◌}
use sailfish.Property.{
  Value, Values, Fields, null, boolean, number, text, list, dict, prop, nil, cons, end, field,
}

unfoldable mutual
  pub flatten : Value → Value
  flatten (prop v m e) = flatten v
  flatten (dict fs) = dict (flatten_fields fs)
  flatten (list xs) = list (flatten_values xs)
  flatten null = null
  flatten (boolean b) = boolean b
  flatten (number n) = number n
  flatten (text s) = text s

  pub flatten_fields : Fields → Fields
  flatten_fields end = end
  flatten_fields (field k v fs) = field k (flatten v) (flatten_fields fs)

  pub flatten_values : Values → Values
  flatten_values nil = nil
  flatten_values (cons v vs) = cons (flatten v) (flatten_values vs)

-- What stands in the tree afterwards: the values of ephemeral properties are gone.
unfoldable mutual
  pub flushed : Value → Value
  flushed (prop v m e) = let below = flushed v in prop (if e then null else below) m e
  flushed (dict fs) = dict (flushed_fields fs)
  flushed (list xs) = list (flushed_values xs)
  flushed null = null
  flushed (boolean b) = boolean b
  flushed (number n) = number n
  flushed (text s) = text s

  pub flushed_fields : Fields → Fields
  flushed_fields end = end
  flushed_fields (field k v fs) = field k (flushed v) (flushed_fields fs)

  pub flushed_values : Values → Values
  flushed_values nil = nil
  flushed_values (cons v vs) = cons (flushed v) (flushed_values vs)
