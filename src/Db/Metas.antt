-- ===== src/Db/Metas.antt =====
-- tonpayments/db/virtual-channel.go: what the node knows of a conditional, and the index of the
-- active incoming ones with special details (the derivatives).
pub mod Index
use ton_payment_network.Base.{
  ℕ, ◌≡◌, Bool, true, false, not, ◌&&◌, ◌||◌, Option, none, some, List, [], ◌∷◌, Result, ok, err,
  ◌>>=◌, ◌>>◌, raise_if, or_raise, ◌==◌, if◌then◌else◌,
}
use ton_payment_network.Base.Dict.{Dict, lookup, insert, erase}
use ton_payment_network.Db.{DbError, not_found, already_exists}

-- `ConditionalStatus`
pub data Status : Type 0 where
  active want_close closed want_remove removed pending : Status

-- `ConditionalMetaSide`: `linked_key` is there when it has the 32 bytes of a key.
pub record MetaSide : Type 0 where
  pub channel_address : ℕ
  pub conditional : ℕ
  pub uncooperative_deadline : ℕ
  pub safe_deadline : ℕ
  pub sender_key : ℕ
  pub linked_key : Option ℕ

-- `ConditionalMeta`; keys, cells and details are the numbers that their bytes spell.
pub record Meta : Type 0 where
  pub key : ℕ
  pub status : Status
  pub incoming : Option MetaSide
  pub outgoing : Option MetaSide
  pub last_known_resolve : Option ℕ
  pub final_destination : ℕ
  pub special_details : Option ℕ
  pub created_at : ℕ
  pub updated_at : ℕ

-- The keys `vch:<key>` and `vchi:ActiveSpecialMetas:<key>`
pub record MetaDb : Type 0 where
  pub metas : Dict Meta
  pub special : Dict ℕ

abbrev is_active : Status → Bool
is_active active = true
is_active _ = false

-- `shouldIndexActiveSpecialMeta` and `hasSpecialDetails`, whose JSON encoding is a parameter: `fields`
-- says that the details encode to an object with at least one field.
abbrev pub should_index : (ℕ → Bool) → Meta → Bool
should_index fields m = elim m.incoming [
  | none ↦ false
  | some side ↦ is_active m.status && elim m.special_details [ none ↦ false | some d ↦ fields d ]
]

abbrev side_key : Option MetaSide → Option ℕ
side_key none = none
side_key (some side) = side.linked_key

-- `resolveLinkedKey`: the incoming side's, or else the outgoing side's.
abbrev pub linked_key_of : Meta → Option ℕ
linked_key_of m = elim (side_key m.incoming) [ some k ↦ some k | none ↦ side_key m.outgoing ]

abbrev pub with_status : Status → ℕ → Meta → Meta
with_status status now m = record m { status = status; updated_at = now }

-- `GetVirtualChannelMeta`
unfoldable pub get_meta : ℕ → MetaDb → Result DbError Meta
get_meta key db = or_raise (lookup key db.metas) not_found

module _ (fields : ℕ → Bool) where
  -- The first half of `syncActiveSpecialMetasIndex`, with a `next` that is not nil
  abbrev pub clear_index : Option Meta → Meta → Dict ℕ → Dict ℕ
  clear_index none next special = special
  clear_index (some p) next special =
      if should_index fields p && (not (should_index fields next) || not (p.key == next.key))
      then erase p.key special
      else special

  -- `syncActiveSpecialMetasIndex`
  unfoldable pub sync_index : Option Meta → Meta → Dict ℕ → Dict ℕ
  sync_index prev next special =
      let cleared = clear_index prev next special in
      if should_index fields next then insert next.key next.key cleared else cleared

  abbrev pub put : Option Meta → Meta → MetaDb → MetaDb
  put prev next db = record {
    metas = insert next.key next db.metas;
    special = sync_index prev next db.special;
  }

  -- `CreateVirtualChannelMeta`
  unfoldable pub create_meta : Meta → MetaDb → Result DbError MetaDb
  create_meta m db = elim (lookup m.key db.metas) [
    | some old ↦ err already_exists
    | none ↦ ok (put none m db)
  ]

  -- `UpdateVirtualChannelMeta`, as a transaction of its own or as the only write to the meta in one: a
  -- second write would read the snapshot, as `close_pair` does
  unfoldable pub update_meta : Meta → MetaDb → Result DbError MetaDb
  update_meta m db = do prev ← or_raise (lookup m.key db.metas) not_found; ok (put (some prev) m db)

  abbrev pub close_linked : ℕ → Option ℕ → Status → ℕ → Dict Meta → MetaDb → MetaDb
  close_linked key none status now snapshot db = db
  close_linked key (some k) status now snapshot db =
      if k == key then db else elim (lookup k snapshot) [
        | none ↦ db
        | some m ↦ put (some m) (with_status status now m) db
      ]

  -- `ClosePairMeta` at the time `now`: both reads are of the state that the transaction began with.
  unfoldable pub close_pair : ℕ → Status → ℕ → MetaDb → Result DbError MetaDb
  close_pair key status now db = do
    m ← or_raise (lookup key db.metas) not_found
    ok (
        close_linked m.key (linked_key_of m) status now db.metas
          (put (some m) (with_status status now m) db))
