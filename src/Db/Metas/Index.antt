-- ===== src/Db/Metas/Index.antt =====
-- The index of the active derivatives: exactly the stored ones that are active, incoming and have
-- details.
use ton_payment_network.Base.{
  ℕ, ◌≡◌, ◌≢◌, ◌⊎◌, refl, Bool, true, false, not, ◌&&◌, ◌||◌, Option, none, some, Option-cases, ok,
  err, ◌==◌, if◌then◌else◌, arith, inl, inr, ap, ◌∙◌,
}
use ton_payment_network.Base.Dict.{Dict, lookup, insert, lookup-insert, lookup-erase}
use ton_payment_network.Db.{not_found}
use ton_payment_network.Db.Metas.{
  Status, Meta, MetaDb, should_index, clear_index, sync_index, put, create_meta, update_meta,
  get_meta, close_pair, close_linked, linked_key_of, with_status,
}

module _ (fields : ℕ → Bool) where
  abbrev pub indexed : ℕ → Option Meta → Option ℕ
  indexed k none = none
  indexed k (some m) = if should_index fields m then some k else none

  -- Every meta is stored under its key, and the index has the keys of those that belong there.
  abbrev pub IsSynced : MetaDb → Type 0
  IsSynced db =
      ((k : ℕ) → lookup k db.special ≡ indexed k (lookup k db.metas))
      × ((k : ℕ) (m : Meta) → lookup k db.metas ≡ some m → m.key ≡ k)

  lookup-clear :
      (k : ℕ) (prev : Option Meta) (next : Meta) (special : Dict ℕ)
      → lookup k (clear_index fields prev next special) ≡ (elim prev [
        | none ↦ lookup k special
        | some p ↦
            if should_index fields p
              && (not (should_index fields next) || not (p.key == next.key))
              && k == p.key
            then none
            else lookup k special
      ])
  lookup-clear k none next special = refl
  lookup-clear k (some p) next special = ground (arith, lookup-erase k p.key special)

  lookup-sync_index :
      (k : ℕ) (prev : Option Meta) (next : Meta) (special : Dict ℕ)
      → lookup k (sync_index fields prev next special) ≡ (
          if k == next.key
          then (if should_index fields next
              then some k
              else lookup k (clear_index fields prev next special))
          else lookup k (clear_index fields prev next special))
  unfolding sync_index
  lookup-sync_index k prev next special =
      ground (arith, lookup-insert k next.key next.key (clear_index fields prev next special))

  put-IsSynced :
      (prev : Option Meta) (next : Meta) (db : MetaDb)
      → lookup next.key db.metas ≡ prev
      → IsSynced db
      → IsSynced (put fields prev next db)
  put-IsSynced prev next db e w = (
    λ k. go k prev e (w.1 next.key),
    λ k m h. ground (arith, lookup-insert k next.key next db.metas, w.1 k m),
  )
    where
      go :
          (k : ℕ) (o : Option Meta)
          → lookup next.key db.metas ≡ o
          → ((m : Meta) → lookup next.key db.metas ≡ some m → m.key ≡ next.key)
          → lookup k (sync_index fields o next db.special)
            ≡ indexed k (lookup k (insert next.key next db.metas))
      go k none e own = ground (
        arith,
        lookup-sync_index k none next db.special,
        lookup-clear k none next db.special,
        lookup-insert k next.key next db.metas,
        w.0 k,
        w.0 next.key,
      )
      go k (some m) e own = ground (
        arith,
        lookup-sync_index k (some m) next db.special,
        lookup-clear k (some m) next db.special,
        lookup-insert k next.key next db.metas,
        w.0 k,
        w.0 next.key,
        own m e,
      )

  linked-IsSynced :
      (key now : ℕ) (status : Status) (o : Option ℕ) (snapshot : Dict Meta) (db : MetaDb)
      → ((k : ℕ) → k ≢ key → lookup k db.metas ≡ lookup k snapshot)
      → IsSynced db
      → IsSynced (close_linked fields key o status now snapshot db)
  linked-IsSynced key now status none snapshot db same w = w
  linked-IsSynced key now status (some k) snapshot db same w =
      go (k == key) (λ other. same k (ground arith)) (lookup k snapshot) refl
    where
      go :
          (b : Bool)
          → (b ≡ false → lookup k db.metas ≡ lookup k snapshot)
          → (o : Option Meta) → lookup k snapshot ≡ o
          → IsSynced (
              if b then db else elim o [
                | none ↦ db
                | some m ↦ put fields (some m) (with_status status now m) db
              ])
      go true apart o e = w
      go false apart none e = w
      go false apart (some m) e =
          let there : lookup k db.metas ≡ some m = apart refl ∙ e in
          put-IsSynced (some m) (with_status status now m) db
            (ap (λ j. lookup j db.metas) (w.1 k m there) ∙ there) w

  -- The index is kept by every write of a conditional's data: a new one, an update, and the closing
  -- of a pair, whose two writes are both made from what was stored before.
  pub metas-IsSynced :
      (db db' : MetaDb) (m : Meta) (key now : ℕ) (status : Status)
      → IsSynced db
      → (create_meta fields m db ≡ ok db')
        ⊎ (update_meta fields m db ≡ ok db')
        ⊎ (close_pair fields key status now db ≡ ok db')
      → IsSynced db'
  unfolding create_meta update_meta close_pair
  metas-IsSynced db db' m key now status w (inl h) = elim (Option-cases (lookup m.key db.metas)) [
    | inr (old, e) ↦ absurd (ground arith)
    | inl new ↦
        let same : db' ≡ put fields none m db = ground arith in
        rw (same) (put-IsSynced none m db new w)
  ]
  metas-IsSynced db db' m key now status w (inr (inl h)) =
      elim (Option-cases (lookup m.key db.metas)) [
        | inl nil ↦ absurd (ground arith)
        | inr (old, e) ↦
            let same : db' ≡ put fields (some old) m db = ground arith in
            rw (same) (put-IsSynced (some old) m db e w)
      ]
  metas-IsSynced db db' m key now status w (inr (inr h)) =
      elim (Option-cases (lookup key db.metas)) [
        | inl nil ↦ absurd (ground arith)
        | inr (old, e) ↦
            let next = with_status status now old in
            let own = w.1 key old e in
            let same : db'
                ≡ close_linked fields old.key (linked_key_of old) status now db.metas
                    (put fields (some old) next db) =
              ground arith in
            rw (same) (
              linked-IsSynced old.key now status (linked_key_of old) db.metas
                (put fields (some old) next db)
                (λ k ne. ground (arith, lookup-insert k old.key next db.metas))
                (put-IsSynced (some old) next db (ap (λ j. lookup j db.metas) own ∙ e) w))
      ]

  -- Closing a pair gives both conditionals the status, whichever side of the pair was named; the
  -- linked one is that of the incoming side or else of the outgoing side, and it is left out only
  -- when nothing is stored for it.
  close_pair-both :
      (db db' : MetaDb) (m : Meta) (key now k : ℕ) (status : Status)
      → IsSynced db
      → lookup key db.metas ≡ some m
      → linked_key_of m ≡ some k
      → k ≢ key
      → close_pair fields key status now db ≡ ok db'
      → (get_meta key db' ≡ ok (with_status status now m))
        × ((x : Meta) → lookup k db.metas ≡ some x → get_meta k db' ≡ ok (with_status status now x))
        × (lookup k db.metas ≡ none → get_meta k db' ≡ err not_found)
  unfolding close_pair get_meta
  close_pair-both db db' m key now k status w e l ne h =
      let own = w.1 key m e in
      let next = with_status status now m in
      let first = λ (j : ℕ). lookup-insert j m.key next db.metas in
      (
        elim (Option-cases (lookup k db.metas)) [
          | inl nil ↦ ground (arith, first key)
          | inr (x, f) ↦ ground (
            arith,
            first key,
            w.1 k x f,
            lookup-insert key x.key (with_status status now x) (insert m.key next db.metas),
          )
        ],
        λ x f. ground (
          arith,
          first k,
          w.1 k x f,
          lookup-insert k x.key (with_status status now x) (insert m.key next db.metas),
        ),
        λ nil. ground (arith, first k),
      )
