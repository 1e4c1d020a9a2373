-- ===== src/Store/Db.antt =====
-- What the code uses of libraries outside the repository: the key-value database (bbolt) and the
-- encoder of entities (gob).
use sailfish.Base.{
  Option, String, [], arith, eq_refl, if◌then◌else◌, none, some, str_eq, sym, ◌&&◌, ◌≡◌, ◌≢◌,
}
use sailfish.Resource.{Aggregate}

-- A database of buckets. `find` gives nothing where the bucket or the key is missing; `put` makes
-- the bucket if it is missing. bbolt refuses empty names of buckets and empty keys.
pub record Database (Bytes : Type 0) : Type 1 where
  pub State : Type 0
  pub find : State → String → String → Option Bytes
  pub put : State → String → String → Bytes → State
  pub delete : State → String → String → State
  pub find-put :
      (s : State) (bucket key j : String) (b : Bytes)
      → bucket ≢ ""
      → key ≢ ""
      → find (put s bucket key b) bucket j ≡ (if str_eq key j then some b else find s bucket j)
  pub find-delete :
      (s : State) (bucket key j : String)
      → find (delete s bucket key) bucket j ≡ (if str_eq key j then none else find s bucket j)

-- The encoder leaves out the private field that holds the events.
pub record Codec (Bytes : Type 0) : Type 0 where
  pub encode : Aggregate → Option Bytes
  pub decode : Bytes → Option Aggregate
  pub decode-encode :
      (a : Aggregate) (b : Bytes) → encode a ≡ some b → decode b ≡ some (record a { events = [] })

-- A database that meets these laws: a function from buckets and keys.
abbrev pub Table : Type 0 → Type 0
Table Bytes = String → String → Option Bytes

module _ {Bytes : Type 0} where
  abbrev pub table_put : Table Bytes → String → String → Bytes → Table Bytes
  table_put s bucket key b n j = if str_eq bucket n && str_eq key j then some b else s n j

  abbrev pub table_delete : Table Bytes → String → String → Table Bytes
  table_delete s bucket key n j = if str_eq bucket n && str_eq key j then none else s n j

  pub table-find-put :
      (s : Table Bytes) (bucket key j : String) (b : Bytes)
      → bucket ≢ ""
      → key ≢ ""
      → table_put s bucket key b bucket j ≡ (if str_eq key j then some b else s bucket j)
  table-find-put s bucket key j b _ _ = rw (eq_refl bucket) (ground arith)

  pub table-find-delete :
      (s : Table Bytes) (bucket key j : String)
      → table_delete s bucket key bucket j ≡ (if str_eq key j then none else s bucket j)
  table-find-delete s bucket key j = rw (eq_refl bucket) (ground arith)

abbrev pub table_database : (Bytes : Type 0) → Database Bytes
table_database Bytes = record {
  State = Table Bytes;
  find = λ s n j. s n j;
  put = table_put;
  delete = table_delete;
  find-put = table-find-put;
  find-delete = table-find-delete;
}

pub plain-decode-encode :
    (a b : Aggregate)
    → ◌≡◌ {A = Option Aggregate} (some (record a { events = [] })) (some b)
    → ◌≡◌ {A = Option Aggregate} (some b) (some (record a { events = [] }))
plain-decode-encode a b e = sym e

-- An encoder that meets its law.
abbrev pub plain_codec : Codec Aggregate
plain_codec = record {
  encode = λ a. some (record a { events = [] });
  decode = λ b. some b;
  decode-encode = plain-decode-encode;
}
