-- ===== src/Store/Tree/Consistency.antt =====
-- The tree and the repository agree, and the events of creation and removal keep it so.
use sailfish.Base.{
  Bool-cases, Dict, Option, String, arith, eq_iff, eq_refl, inl, inr, lookup, lookup-delete,
  lookup-insert, none, refl, some, str_eq, sym, ◌∙◌, ◌≡◌,
}
use sailfish.Resource.{Aggregate}
use sailfish.Store.Db.{Codec, Database}
use sailfish.Store.Repo.{find_entity, find_entity-remove_entity}
use sailfish.Store.Tree.{Domain, drop_older, notify_created, notify_removed, removed_tree}

removed_before :
    (tree : Dict String) (id uri u i : String)
    → lookup u (removed_tree tree id uri) ≡ some i
    → lookup u tree ≡ some i
unfolding removed_tree
removed_before tree id uri u i h = ground (arith, lookup-delete uri u tree)

removed_self :
    (tree : Dict String) (id uri : String) → lookup uri (removed_tree tree id uri) ≡ some id → ⊥
unfolding removed_tree
removed_self tree id uri h = ground (arith, lookup-delete uri uri tree, eq_refl uri, eq_refl id)

-- The aggregate under an identifier has that identifier and stands at that URI.
abbrev pub StandsAt : String → String → Option Aggregate → Type 0
StandsAt id uri none = ⊥
StandsAt id uri (some a) = (a.id ≡ id) × (a.resource_uri ≡ uri)

pub StandsAt-some :
    (id uri : String) (o : Option Aggregate)
    → StandsAt id uri o
    → (a : Aggregate) × (o ≡ some a) × (a.resource_uri ≡ uri)
StandsAt-some id uri none h = absurd h
StandsAt-some id uri (some a) h = (a, refl, h.1)

module _ {Bytes : Type 0} (db : Database Bytes) (codec : Codec Bytes) (namespace : String) where
  -- Whatever the tree has at a URI is an aggregate of the repository that stands there.
  abbrev pub IsConsistent : Domain db.State → Type 0
  IsConsistent d =
      (uri id : String)
      → lookup uri d.tree ≡ some id
      → StandsAt id uri (find_entity db codec namespace d.repo id)

  -- A removal event keeps the tree consistent if it names the URI at which the aggregate stands, or
  -- the aggregate is not in the repository.
  pub notify_removed-IsConsistent :
      (d : Domain db.State) (id uri : String)
      → IsConsistent d
      → ((a : Aggregate) → find_entity db codec namespace d.repo id ≡ some a → a.resource_uri ≡ uri)
      → IsConsistent (notify_removed db codec namespace d id uri)
  unfolding notify_removed
  notify_removed-IsConsistent d id uri c at uri' id' found =
      let before = removed_before d.tree id uri uri' id' found in
      rw (find_entity-remove_entity db codec namespace d.repo id id')
        (elim (Bool-cases (str_eq id id')) [
          | inl e ↦
              let same : id ≡ id' = (eq_iff id id').0 e in
              let (a, is, stands) = StandsAt-some id' uri' _ (c uri' id' before) in
              let here : uri ≡ uri' = sym (at a (rw (← same) at is)) ∙ stands in
              absurd (removed_self d.tree id uri (rw (← same, ← here) at found))
          | inr e ↦ rw e (c uri' id' before)
        ])

  pub find-drop_older :
      (older : Option String) (id j : String) (s : db.State)
      → (older ≡ some j → j ≡ id)
      → find_entity db codec namespace (drop_older db codec namespace older id s) j
        ≡ find_entity db codec namespace s j
  unfolding drop_older
  find-drop_older none id j s h = refl
  find-drop_older (some old) id j s h =
      ground
        (arith, find_entity-remove_entity db codec namespace s old j, eq_iff old id, eq_iff old j)

  -- The creation event of an aggregate that the repository has, with that identifier and that URI,
  -- keeps the tree consistent.
  pub notify_created-IsConsistent :
      (d : Domain db.State) (id uri : String)
      → IsConsistent d
      → StandsAt id uri (find_entity db codec namespace d.repo id)
      → IsConsistent (notify_created db codec namespace d id uri)
  unfolding notify_created
  notify_created-IsConsistent d id uri c at uri' id' found = elim (Bool-cases (str_eq uri uri')) [
    | inl e ↦
        let here : uri ≡ uri' = (eq_iff uri uri').0 e in
        let same : id ≡ id' = ground (arith, lookup-insert uri uri' id d.tree) in
        rw (← here, ← same, find-drop_older (lookup uri d.tree) id id d.repo (λ _. refl)) at
    | inr e ↦
        let before : lookup uri' d.tree ≡ some id' =
          ground (arith, lookup-insert uri uri' id d.tree) in
        let (a, is, stands) = StandsAt-some id' uri' _ (c uri' id' before) in
        rw
          (find-drop_older (lookup uri d.tree) id id' d.repo (λ older.
            let (b, is', stands') = StandsAt-some id' uri _ (c uri id' older) in
            absurd (ground (arith, eq_iff uri uri'))))
          (c uri' id' before)
  ]
