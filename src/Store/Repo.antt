-- ===== src/Store/Repo.antt =====
-- The repository of bbolt/repo.go and the aggregate store above it.
use sailfish.Base.{
  Bool-cases, Option, Option-cases, String, [], arith, eq_iff, if◌then◌else◌, inl, inr, none, some,
  str_eq, ◌≡◌, ◌≢◌, ◌⊎◌,
}
use sailfish.Resource.{Aggregate, new_aggregate}
use sailfish.Store.Db.{Codec, Database}

pub data SaveError : Type 0 where
  missing_entity_id encode_error : SaveError

module _ {Bytes : Type 0} (db : Database Bytes) (codec : Codec Bytes) (namespace : String) where
  -- Find; an entity that cannot be decoded counts as not found.
  unfoldable pub find_entity : db.State → String → Option Aggregate
  find_entity s id = elim (db.find s namespace id) [ none ↦ none | some b ↦ codec.decode b ]

  -- Save, which gives the new state or an error.
  unfoldable pub save_entity : db.State → Aggregate → db.State ⊎ SaveError
  save_entity s a = if str_eq a.id "" then inr missing_entity_id else elim (codec.encode a) [
    | none ↦ inr encode_error
    | some b ↦ inl (db.put s namespace a.id b)
  ]

  unfoldable pub remove_entity : db.State → String → db.State
  remove_entity s id = db.delete s namespace id

  -- AggregateStore.Load: an unknown identifier gives a new aggregate, with no identifier yet.
  unfoldable pub load : db.State → String → Aggregate
  load s id = elim (find_entity s id) [ none ↦ new_aggregate | some a ↦ a ]

  -- h.store.Save(ctx, agg), whose error the caller drops.
  unfoldable pub save_or_drop : db.State → Aggregate → db.State
  unfolding save_entity
  save_or_drop s a = elim (save_entity s a) [ inl s' ↦ s' | inr e ↦ s ]

  save_entity-ok :
      (s s' : db.State) (a : Aggregate)
      → save_entity s a ≡ inl s'
      → (b : Bytes) × (codec.encode a ≡ some b) × (a.id ≢ "") × (s' ≡ db.put s namespace a.id b)
  unfolding save_entity
  save_entity-ok s s' a h = elim (Bool-cases (str_eq a.id "")) [
    | inl e ↦ cc (rw e at h)
    | inr e ↦ elim (Option-cases (codec.encode a)) [
      | inl n ↦ cc (rw (e, n) at h)
      | inr (b, n) ↦ (b, n, (λ x. ground (arith, eq_iff a.id "")), ground arith)
    ]
  ]

  -- Under a namespace with a name, what has been saved is found again, without its events, and no
  -- other entity changes.
  pub find_entity-save_entity :
      (s s' : db.State) (a : Aggregate) (j : String)
      → namespace ≢ ""
      → save_entity s a ≡ inl s'
      → find_entity s' j
        ≡ (if str_eq a.id j then some (record a { events = [] }) else find_entity s j)
  unfolding find_entity save_entity
  find_entity-save_entity s s' a j ns h =
      let (b, enc, ne, e) = save_entity-ok s s' a h in
      rw (e, find_entity)
        (ground (arith, db.find-put s namespace a.id j b ns ne, codec.decode-encode a b enc))

  pub find_entity-remove_entity :
      (s : db.State) (id j : String)
      → find_entity (remove_entity s id) j ≡ (if str_eq id j then none else find_entity s j)
  unfolding find_entity remove_entity
  find_entity-remove_entity s id j = ground (arith, db.find-delete s namespace id j)
