-- ===== src/Locks.antt =====
-- tonpayments/service.go: the lock of a channel. The left side of a channel is the lock's master:
-- the right side asks it before it changes the channel. Locks are mutexes that are only tried, so
-- each function here runs whole, and the other party's answer is an argument.
pub mod Holding
pub mod Parties
pub mod Exclusion
use ton_payment_network.Base.{
  ℕ, ◌≡◌, Bool, true, false, not, ◌&&◌, ◌||◌, Option, none, some, List, [], ◌∷◌, Result, ok, err,
  ltb, ◌==◌, if◌then◌else◌,
}
use ton_payment_network.Base.Int.{ℤ, pos, negsuc, pos_part, neg_part, sub_ℕ, ltb_ℤ, leb_ℤ, eqb_ℤ}
use ton_payment_network.Base.Dict.{Dict, lookup, insert}

-- `channelLock`
pub record ChannelLock : Type 0 where
  pub held : Bool
  pub id : ℤ

-- What the locks read of a stored channel
pub record LockedChannel : Type 0 where
  pub we_left : Bool
  pub their_key : ℕ

-- What the function that a caller gets to unlock does: nothing, unlock here, or unlock here and then
-- ask the master to.
pub data Unlock : Type 0 where
  nothing : Unlock
  local : ℕ → Unlock
  both : ℕ → ℤ → Unlock

-- The state of one service; `external` is the unlock function that is kept for the other party.
pub record Node : Type 0 where
  pub channels : Dict LockedChannel
  pub locks : Dict ChannelLock
  pub external : Option Unlock

pub data LockError : Type 0 where
  id_not_positive unknown_channel unauthorized not_master channel_busy still_locked : LockError
  no_answer : LockError

abbrev pub or_free : Option ChannelLock → ChannelLock
or_free none = record { held = false; id = pos 0 }
or_free (some l) = l

abbrev pub lock_at : ℕ → Node → ChannelLock
lock_at addr node = or_free (lookup addr node.locks)

abbrev pub set_lock : ℕ → Bool → ℤ → Node → Node
set_lock addr held id node = record node {
  locks = insert addr (record { held = held; id = id }) node.locks;
}

-- `l.mx.Unlock()`
unfoldable pub release : ℕ → Node → Node
release addr node = set_lock addr false (lock_at addr node).id node

abbrev pub run_unlock : Unlock → Node → Node
run_unlock nothing node = node
run_unlock (local addr) node = release addr node
run_unlock (both addr id) node = release addr node

abbrev pub is_same_id : Option ℤ → ℤ → Bool
is_same_id none held = false
is_same_id (some id) held = eqb_ℤ id held

abbrev pub id_or : Option ℤ → ℕ → ℤ
id_or none now = pos now
id_or (some id) now = id

-- `RequestChannelLock` of the master: no answer, or whether it agreed.
abbrev pub Answer : Type 0
Answer = Option Bool

-- The end of `AcquireChannel`, once the mutex is taken
abbrev pub finish : ℕ → ℤ → Bool → Answer → Node → Node × Result LockError Unlock
finish addr id true answer node = (node, ok (local addr))
finish addr id false none node = (release addr node, err no_answer)
finish addr id false (some false) node = (release addr node, err channel_busy)
finish addr id false (some true) node = (node, ok (both addr id))

-- `AcquireChannel` at the time `now`, with the id of the lock or none, and the master's answer if it
-- is asked: the state that is left, and the unlock function.
unfoldable pub acquire_channel : ℕ → Option ℤ → ℕ → Answer → Node → Node × Result LockError Unlock
acquire_channel addr id now answer node = elim (lookup addr node.channels) [
  | none ↦ (node, err unknown_channel)
  | some ch ↦
      if (lock_at addr node).held
      then (node, if is_same_id id (lock_at addr node).id then ok nothing else err channel_busy)
      else finish addr (id_or id now) (ch.we_left || ltb_ℤ (id_or id now) (pos 0)) answer
          (set_lock addr true (id_or id now) node)
]

abbrev pub neg_id : ℤ → ℤ
neg_id id = sub_ℕ (neg_part id) (pos_part id)

-- What both handlers check first
abbrev pub check_peer : ℕ → ℕ → ℤ → Node → Result LockError LockedChannel
check_peer key addr id node =
    if leb_ℤ id (pos 0) then err id_not_positive else elim (lookup addr node.channels) [
      | none ↦ err unknown_channel
      | some ch ↦ if ch.their_key == key then ok ch else err unauthorized
    ]

abbrev pub keep_external : Node × Result LockError Unlock → Node × Result LockError Unit
keep_external (node, ok u) = (record node { external = some u }, ok tt)
keep_external (node, err e) = (node, err e)

abbrev pub free_external : Option Unlock → Node → Node
free_external none node = node
free_external (some u) node = run_unlock u (record node { external = none })

-- `ProcessExternalChannelLock`: the other party locks or unlocks.
unfoldable pub process_external_lock : ℕ → ℕ → ℤ → Bool → ℕ → Node → Node × Result LockError Unit
process_external_lock key addr id lock now node = elim (check_peer key addr id node) [
  | err e ↦ (node, err e)
  | ok ch ↦ if not ch.we_left then (node, err not_master) else elim lock [
    | false ↦ (free_external node.external node, ok tt)
    | true ↦ elim node.external [
      | some u ↦ (node, err channel_busy)
      | none ↦ keep_external (acquire_channel addr (some (neg_id id)) now none node)
    ]
  ]
]

-- `ProcessIsChannelLocked`
unfoldable pub process_is_locked : ℕ → ℕ → ℤ → Node → Result LockError Unit
process_is_locked key addr id node = elim (check_peer key addr id node) [
  | err e ↦ err e
  | ok ch ↦
      if eqb_ℤ (lock_at addr node).id (neg_id id) && (lock_at addr node).held
      then err still_locked
      else ok tt
]
