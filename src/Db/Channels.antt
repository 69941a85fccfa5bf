-- ===== src/Db/Channels.antt =====
-- tonpayments/db/channel.go: the stored channels with their versions, the states that wait for the
-- other party's signature, and the history of one channel.
pub mod Versions
pub mod Pending
pub mod History
use ton_payment_network.Base.{
  ℕ, ◌+◌, ◌≡◌, Bool, true, false, not, ◌&&◌, ◌||◌, Option, none, some, List, [], ◌∷◌, Result, ok,
  err, ◌>>=◌, ◌>>◌, raise_if, or_raise, leb, ltb, ◌==◌, if◌then◌else◌,
}
use ton_payment_network.Base.Dict.{Dict, lookup, insert}

-- `Channel`, as far as the storage reads it; `Body` is the type of the other fields.
pub record Channel (Body : Type 0) : Type 0 where
  pub address : ℕ
  pub status : ℕ
  pub db_version : ℕ
  pub body : Body

pub data ChannelError : Type 0 where
  no_channel channel_exists version_mismatch : ChannelError

-- A write, and what `onChannelStateChange` is called with: the channel and whether its status is new.
pub record Written (Body : Type 0) : Type 0 where
  pub channels : Dict (Channel Body)
  pub notified : Channel Body × Bool

module _ {Body : Type 0} where
  -- `CreateChannel` at the time `now`
  unfoldable pub create_channel :
      ℕ → Channel Body → Dict (Channel Body) → Result ChannelError (Written Body)
  create_channel now ch channels = elim (lookup ch.address channels) [
    | some old ↦ err channel_exists
    | none ↦
        let stored = record ch { db_version = now } in
        ok (record { channels = insert ch.address stored channels; notified = (stored, true) })
  ]

  -- `GetChannel`
  unfoldable pub get_channel : ℕ → Dict (Channel Body) → Result ChannelError (Channel Body)
  get_channel address channels = or_raise (lookup address channels) no_channel

  -- `UpdateChannel` at the time `now`
  unfoldable pub update_channel :
      ℕ → Channel Body → Dict (Channel Body) → Result ChannelError (Written Body)
  update_channel now ch channels = do
    cur ← get_channel ch.address channels
    raise_if (not (cur.db_version == ch.db_version)) version_mismatch
    let stored = record ch { db_version = now }
    ok (record {
      channels = insert ch.address stored channels;
      notified = (stored, not (cur.status == ch.status));
    })

-- A saved state of one channel: the key is the seqno and the hash of the body that it waits for.
pub record Saved (State : Type 0) : Type 0 where
  pub seqno : ℕ
  pub hash : ℕ
  pub state : State

module _ {State : Type 0} where
  abbrev pub is_at : ℕ → ℕ → Saved State → Bool
  is_at seqno hash s = s.seqno == seqno && s.hash == hash

  -- `GetChannelPendingState`
  unfoldable pub get_pending : ℕ → ℕ → List (Saved State) → Option State
  get_pending seqno hash [] = none
  get_pending seqno hash (s ∷ more) =
      if is_at seqno hash s then some s.state else get_pending seqno hash more

  abbrev pub saved_before : ℕ → ℕ → Saved State → Bool
  saved_before seqno hash s = ltb seqno s.seqno || (seqno == s.seqno && ltb hash s.hash)

  unfoldable pub put_pending : Saved State → List (Saved State) → List (Saved State)
  put_pending s [] = s ∷ []
  put_pending s (p ∷ more) =
      let rest = put_pending s more in
      if saved_before s.seqno s.hash p then s ∷ p ∷ more else p ∷ rest

  -- `SaveChannelPendingState`: the first state that was saved for a body stays.
  unfoldable pub save_pending : Saved State → List (Saved State) → List (Saved State)
  save_pending s saved = elim (get_pending s.seqno s.hash saved) [
    | some old ↦ saved
    | none ↦ put_pending s saved
  ]

  unfoldable pub delete_pending : ℕ → ℕ → List (Saved State) → List (Saved State)
  delete_pending seqno hash [] = []
  delete_pending seqno hash (s ∷ more) =
      let rest = delete_pending seqno hash more in if is_at seqno hash s then rest else s ∷ rest

  -- The loop of `CleanupChannelPendingStates`, which stops at the first key that is not before the
  -- seqno.
  unfoldable pub drop_older : ℕ → List (Saved State) → List (Saved State)
  drop_older seqno [] = []
  drop_older seqno (s ∷ more) =
      let rest = drop_older seqno more in if leb seqno s.seqno then s ∷ more else rest

  -- `CleanupChannelPendingStates`
  unfoldable pub cleanup_pending : ℕ → ℕ → List (Saved State) → List (Saved State)
  cleanup_pending seqno hash saved = drop_older seqno (delete_pending seqno hash saved)

-- `ChannelHistoryItem` with its time
pub record HistoryItem : Type 0 where
  pub at : ℕ
  pub action : ℕ
  pub payload : ℕ

abbrev pub is_earlier : ℕ → Option ℕ → Bool
is_earlier at none = false
is_earlier at (some bound) = ltb at bound

abbrev pub is_later : ℕ → Option ℕ → Bool
is_later at none = false
is_later at (some bound) = ltb bound at

-- The loop of `GetChannelsHistoryByPeriod` over a channel's items, the newest first; `taken` items
-- were taken before.
unfoldable pub history_loop : ℕ → ℕ → Option ℕ → Option ℕ → List HistoryItem → List HistoryItem
history_loop limit taken before after [] = []
history_loop limit taken before after (h ∷ more) = elim (is_earlier h.at after) [
  | true ↦ history_loop limit taken before after more
  | false ↦ elim (is_later h.at before) [
    | true ↦ []
    | false ↦ elim (ltb 0 limit && leb limit (1 + taken)) [
      | true ↦ h ∷ []
      | false ↦ h ∷ history_loop limit (1 + taken) before after more
    ]
  ]
]

-- `GetChannelsHistoryByPeriod`
unfoldable pub get_history : ℕ → Option ℕ → Option ℕ → List HistoryItem → List HistoryItem
get_history limit before after items = history_loop limit 0 before after items
