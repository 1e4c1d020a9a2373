-- ===== src/Inject/Trains.antt =====
-- sendToChn: the items of an injected event are decoded and leave in trains of at most five.
use mathlib.Core.List.{append_assoc, append-nil}
use sailfish.Base.{
  Bool, Bool-cases, List, Option, String, [], all, ap, arith, false, if◌then◌else◌, inl, inr, leb,
  length, length-append, ltb, map, none, not, refl, some, str_eq, sym, true, ℕ, ◌++◌, ◌<◌, ◌||◌,
  ◌∙◌, ◌∷◌, ◌≡◌, ◌≤◌,
}

abbrev pub max_consolidated_events : ℕ
max_consolidated_events = 5

-- The decoders that an event's name selects. `registered` says that the event library knows the
-- name; `custom` is the Decode method of its data, if it has one; `data_text` is the "data" of a map, if
-- it is a text, and `binary` decodes it; `json` is the other way; `raw` is the map itself.
pub record Decoders (D T : Type 0) : Type 0 where
  pub registered : Bool
  pub custom : Option (D → Option T)
  pub data_text : D → Option String
  pub binary : String → Option T
  pub json : D → Option T
  pub raw : D → T

-- How the body of the loop goes on with one item: put on the train, with a `continue` or with the
-- test for a full train after it; passed over; not put, but tested; or a panic.
pub data Loaded (T : Type 0) : Type 0 where
  loose : T → Loaded T
  put : T → Loaded T
  passed : Loaded T
  unknown : Loaded T
  crashed : Loaded T

abbrev pub is_crashed : {T : Type 0} → Loaded T → Bool
is_crashed crashed = true
is_crashed i = false

-- The trains that left, and whether the function panicked then.
pub record Departed (T : Type 0) : Type 0 where
  pub sent : List (List T)
  pub panicked : Bool

module _ {T : Type 0} where
  -- A train leaves if it is full, at the start of a round and after an item.
  abbrev leave_full : List T → List (List T) × List T
  leave_full load =
      if leb max_consolidated_events (length load) then (load ∷ [], []) else ([], load)

  -- One round of the loop after the test at its start: what leaves, and the train.
  unfoldable pub load_item : List T → Loaded T → List (List T) × List T
  load_item load (loose x) = ([], load ++ (x ∷ []))
  load_item load (put x) = leave_full (load ++ (x ∷ []))
  load_item load passed = ([], load)
  load_item load unknown = leave_full load
  load_item load crashed = ([], load)

  -- The loop, and the last train after it.
  unfoldable pub trains_from : List T → List (Loaded T) → Departed T
  unfolding load_item
  trains_from load [] = record {
    sent = if ltb 0 (length load) then load ∷ [] else [];
    panicked = false;
  }
  trains_from load (i ∷ is) =
      let (early, start) = leave_full load in
      let (full, next) = load_item start i in
      let rest = trains_from next is in
      if is_crashed i
      then record { sent = early; panicked = true }
      else record { sent = early ++ (full ++ rest.sent); panicked = rest.panicked }

module _ {D T : Type 0} where
  -- eventData["data"].(string) panics where the data is no text.
  unfoldable pub deserialize_binary : Decoders D T → D → Loaded T
  deserialize_binary c d = elim (c.data_text d) [
    | none ↦ crashed
    | some s ↦ elim (c.binary s) [ none ↦ passed | some x ↦ put x ]
  ]

  unfoldable pub deserialize : Decoders D T → String → D → Loaded T
  unfolding deserialize_binary
  deserialize c encoding d = if not c.registered then loose (c.raw d) else elim c.custom [
    | some decode ↦ elim (decode d) [ none ↦ passed | some x ↦ loose x ]
    | none ↦
        if str_eq encoding "binary"
        then deserialize_binary c d
        else if str_eq encoding "json" || str_eq encoding ""
        then elim (c.json d) [ none ↦ put (c.raw d) | some x ↦ put x ]
        else unknown
  ]

  -- The event's own data, if there is any, and then those of its array.
  unfoldable pub send_to_chn : Decoders D T → String → Option D → List D → Departed T
  unfolding deserialize trains_from
  send_to_chn c encoding event_data event_array = trains_from [] (
      map (deserialize c encoding)
        (elim event_data as (λ x. List D) [ none ↦ event_array | some d ↦ d ∷ event_array ]))

module _ {T : Type 0} where
  -- The items that are not passed over, up to a panic.
  abbrev pub loaded : List (Loaded T) → List T
  loaded [] = []
  loaded (loose x ∷ is) = x ∷ loaded is
  loaded (put x ∷ is) = x ∷ loaded is
  loaded (passed ∷ is) = loaded is
  loaded (unknown ∷ is) = loaded is
  loaded (crashed ∷ is) = []

  abbrev pub concat : List (List T) → List T
  concat [] = []
  concat (t ∷ ts) = t ++ concat ts

  abbrev pub AreTrains : List (List T) → Type 0
  AreTrains [] = Unit
  AreTrains (t ∷ ts) = (0 < length t) × (length t ≤ max_consolidated_events) × AreTrains ts

  concat-append : (xs ys : List (List T)) → concat (xs ++ ys) ≡ concat xs ++ concat ys
  concat-append [] ys = refl
  concat-append (x ∷ xs) ys =
      ap (λ r. x ++ r) (concat-append xs ys) ∙ sym (append_assoc x (concat xs) (concat ys))

  concat-leave_full :
      (load rest : List T)
      → concat (leave_full load).0 ++ ((leave_full load).1 ++ rest) ≡ load ++ rest
  concat-leave_full load rest = elim (Bool-cases (leb max_consolidated_events (length load))) [
    | inl y ↦ rw y (ap (λ l. l ++ rest) (append-nil load))
    | inr n ↦ rw n refl
  ]

  concat-load_item :
      (load : List T) (i : Loaded T) (is : List (Loaded T))
      → is_crashed i ≡ false
      → concat (load_item load i).0 ++ ((load_item load i).1 ++ loaded is) ≡ load ++ loaded (i ∷ is)
  unfolding load_item
  concat-load_item load (loose x) is h = append_assoc load (x ∷ []) (loaded is)
  concat-load_item load (put x) is h =
      concat-leave_full (load ++ (x ∷ [])) (loaded is) ∙ append_assoc load (x ∷ []) (loaded is)
  concat-load_item load passed is h = refl
  concat-load_item load unknown is h = concat-leave_full load (loaded is)
  concat-load_item load crashed is h = absurd (cc h)

  AreTrains-append : (xs ys : List (List T)) → AreTrains xs → AreTrains ys → AreTrains (xs ++ ys)
  AreTrains-append [] ys h g = g
  AreTrains-append (x ∷ xs) ys (a, b, h) g = (a, b, AreTrains-append xs ys h g)

  leave_full-AreTrains :
      (load : List T)
      → length load ≤ max_consolidated_events
      → AreTrains (leave_full load).0 × (length (leave_full load).1 < max_consolidated_events)
  leave_full-AreTrains load h = ground (arith, h)

  load_item-AreTrains :
      (load : List T) (i : Loaded T)
      → length load < max_consolidated_events
      → AreTrains (load_item load i).0 × (length (load_item load i).1 ≤ max_consolidated_events)
  unfolding load_item
  load_item-AreTrains load (loose x) h = ground (arith, h, length-append load (x ∷ []))
  load_item-AreTrains load (put x) h = ground (arith, h, length-append load (x ∷ []))
  load_item-AreTrains load passed h = ground (arith, h)
  load_item-AreTrains load unknown h = ground (arith, h)
  load_item-AreTrains load crashed h = ground (arith, h)

  trains_from-AreTrains :
      (load : List T) (is : List (Loaded T))
      → length load ≤ max_consolidated_events
      → AreTrains (trains_from load is).sent
  unfolding trains_from
  trains_from-AreTrains load [] h = ground (arith, h)
  trains_from-AreTrains load (i ∷ is) h =
      let (e, few) = leave_full-AreTrains load h in
      let (f, most) = load_item-AreTrains (leave_full load).1 i few in
      elim (Bool-cases (is_crashed i)) [
        | inl b ↦ rw (b) e
        | inr b ↦ rw (b) (
            AreTrains-append (leave_full load).0
              ((load_item (leave_full load).1 i).0
                ++ (trains_from (load_item (leave_full load).1 i).1 is).sent)
              e
              (AreTrains-append (load_item (leave_full load).1 i).0
                (trains_from (load_item (leave_full load).1 i).1 is).sent f
                (trains_from-AreTrains (load_item (leave_full load).1 i).1 is most)))
      ]

  -- What a panic loses: the train that is being loaded.
  abbrev pub IsLost : Bool → List T → Type 0
  IsLost false lost = lost ≡ []
  IsLost true lost = length lost < max_consolidated_events

  -- The trains in a row, and what is lost, are the given items.
  abbrev pub Carries : Departed T → List T → Type 0
  Carries r items = (lost : List T) × (concat r.sent ++ lost ≡ items) × IsLost r.panicked lost

  trains_from-Carries :
      (load : List T) (is : List (Loaded T))
      → length load ≤ max_consolidated_events
      → Carries (trains_from load is) (load ++ loaded is)
  unfolding trains_from
  trains_from-Carries [] [] h = ([], refl, refl)
  trains_from-Carries (x ∷ load) [] h = ([], ground (arith, append-nil load), refl)
  trains_from-Carries load (i ∷ is) h =
      let few : length (leave_full load).1 < max_consolidated_events =
        (leave_full-AreTrains load h).1 in
      let most : length (load_item (leave_full load).1 i).1 ≤ max_consolidated_events =
        (load_item-AreTrains (leave_full load).1 i few).1 in
      let (lost, all, kind) = trains_from-Carries (load_item (leave_full load).1 i).1 is most in
      let early : List (List T) = (leave_full load).0 in
      let full : List (List T) = (load_item (leave_full load).1 i).0 in
      let rest : List (List T) = (trains_from (load_item (leave_full load).1 i).1 is).sent in
      elim (Bool-cases (is_crashed i)) [
        | inl b ↦ rw (b) (
          (leave_full load).1,
          ap (λ l. concat early ++ l) (sym (append-nil (leave_full load).1))
              ∙ (concat-leave_full load [] ∙ ap (λ l. load ++ l) (sym (loaded-crashed i is b))),
          few,
        )
        | inr b ↦ rw (b) (
          lost,
          ap (λ l. l ++ lost) (concat-append early (full ++ rest))
              ∙ (append_assoc (concat early) (concat (full ++ rest)) lost
                  ∙ (ap (λ l. concat early ++ l)
                        (ap (λ l. l ++ lost) (concat-append full rest)
                          ∙ (append_assoc (concat full) (concat rest) lost
                              ∙ (ap (λ l. concat full ++ l) all
                                  ∙ concat-load_item (leave_full load).1 i is b)))
                      ∙ concat-leave_full load (loaded (i ∷ is)))),
          kind,
        )
      ]
    where
      loaded-crashed :
          (i : Loaded T) (is : List (Loaded T)) → is_crashed i ≡ true → loaded (i ∷ is) ≡ []
      loaded-crashed (loose x) is h = absurd (cc h)
      loaded-crashed (put x) is h = absurd (cc h)
      loaded-crashed passed is h = absurd (cc h)
      loaded-crashed unknown is h = absurd (cc h)
      loaded-crashed crashed is h = refl

module _ {D T : Type 0} where
  -- The items of an injected event that has data of its own leave in their order, whatever decoders
  -- its name selects: the trains one after the other are the items that a decoder gives or that travel
  -- as they are, up to a panic. Nothing of these is lost, except that a panic over binary data that is
  -- no text loses the train that is being loaded, of fewer than five items.
  pub send_to_chn-Carries :
      (c : Decoders D T) (encoding : String) (d : D) (ds : List D)
      → Carries
          (send_to_chn c encoding (some d) ds)
          (loaded (map (deserialize c encoding) (d ∷ ds)))
  unfolding send_to_chn
  send_to_chn-Carries c encoding d ds =
      trains_from-Carries [] (map (deserialize c encoding) (d ∷ ds)) (omega arith)

  -- Every train that an injected event makes has at least one item and at most five.
  pub send_to_chn-AreTrains :
      (c : Decoders D T) (encoding : String) (event_data : Option D) (ds : List D)
      → AreTrains (send_to_chn c encoding event_data ds).sent
  unfolding send_to_chn
  send_to_chn-AreTrains c encoding none ds =
      trains_from-AreTrains [] (map (deserialize c encoding) ds) (omega arith)
  send_to_chn-AreTrains c encoding (some d) ds =
      trains_from-AreTrains [] (map (deserialize c encoding) (d ∷ ds)) (omega arith)
