-- ===== src/Locks/Parties.antt =====
-- The two parties of one channel: how each comes to hold it, and what holds at every moment.
use ton_payment_network.Base.{
  ℕ, ◌≡◌, ◌≢◌, refl, Bool, true, false, ◌||◌, none, some, Option-cases, Bool-cases, Result-cases,
  Result, ok, err, arith, inl, inr, ◌⊎◌,
}
use ton_payment_network.Base.Int.{ℤ, pos, ltb_ℤ, ◌<ℤ◌}
use ton_payment_network.Base.Dict.{lookup, lookup-insert}
use ton_payment_network.Locks.{
  Unlock, local, Node, LockError, channel_busy, unknown_channel, Answer, lock_at, release, set_lock,
  acquire_channel, process_external_lock, neg_id, finish, check_peer, keep_external,
}
use ton_payment_network.Locks.Holding.{finished}

-- The master's side of a channel, its state, and which of the two parties works on the channel
pub record Parties : Type 0 where
  pub left : Node
  pub left_holds : Bool
  pub right_holds : Bool

-- The master takes and drops its own lock; the other party asks for the lock, is told yes or no, and
-- asks to unlock when it works on the channel no more. Other channels' requests are left out.
pub data Move (addr key : ℕ) : Parties → Parties → Type 0 where
  left_takes :
      {p : Parties} {left' : Node}
      → (now : ℕ) (answer : Answer) (u : Unlock) → p.left_holds ≡ false
      → acquire_channel addr none now answer p.left ≡ (left', ok u)
      → Move addr key p (record p { left = left'; left_holds = true })
  left_drops :
      {p : Parties}
      → p.left_holds ≡ true
      → Move addr key p (record p { left = release addr p.left; left_holds = false })
  right_takes :
      {p : Parties} {left' : Node}
      → (id : ℤ) (now : ℕ) → process_external_lock key addr id true now p.left ≡ (left', ok tt)
      → Move addr key p (record p { left = left'; right_holds = true })
  right_fails :
      {p : Parties} {left' : Node}
      → (id : ℤ) (now : ℕ) (e : LockError)
      → process_external_lock key addr id true now p.left ≡ (left', err e)
      → Move addr key p (record p { left = left' })
  right_drops : {p : Parties} → Move addr key p (record p { right_holds = false })
  right_frees :
      {p : Parties} {left' : Node}
      → (id : ℤ) (now : ℕ) → p.right_holds ≡ false
      → process_external_lock key addr id false now p.left ≡ (left', ok tt)
      → Move addr key p (record p { left = left' })

pub data Moves (addr key : ℕ) : Parties → Parties → Type 0 where
  stay : {p : Parties} → Moves addr key p p
  move : {p q r : Parties} → Move addr key p q → Moves addr key q r → Moves addr key p r

-- What holds at every moment: the right party holds only under the external lock, which is this
-- channel's; a held lock is the master's own, under a positive id, or the external one; and the
-- master's own and the external lock are never there together.
abbrev pub IsApart : ℕ → Parties → Type 0
IsApart addr p =
    (p.right_holds ≡ true → p.left.external ≡ some (local addr))
    × ((u : Unlock)
        → p.left.external ≡ some u
        → (u ≡ local addr) × ((lock_at addr p.left).held ≡ true) × (p.left_holds ≡ false))
    × (p.left_holds ≡ true
        → ((lock_at addr p.left).held ≡ true) × (ltb_ℤ (lock_at addr p.left).id (pos 0) ≡ false))
    × ((lock_at addr p.left).held ≡ true
        → (p.left_holds ≡ true) ⊎ (p.left.external ≡ some (local addr)))

pub own :
    (addr now : ℕ) (answer : Answer) (node node' : Node) (u : Unlock)
    → acquire_channel addr none now answer node ≡ (node', ok u)
    → ((lock_at addr node).held ≡ false) × (node' ≡ set_lock addr true (pos now) node)
unfolding acquire_channel
own addr now answer node node' u h = elim (Option-cases (lookup addr node.channels)) [
  | inl nil ↦ absurd (ground arith)
  | inr (ch, e) ↦ elim (Bool-cases (lock_at addr node).held) [
    | inl held ↦ absurd (ground arith)
    | inr free ↦ (
      free,
      (finished addr (pos now) (ch.we_left || ltb_ℤ (pos now) (pos 0)) answer
          (set_lock addr true (pos now) node) node' u (ground arith)).0,
    )
  ]
]

pub lock-set :
    (addr : ℕ) (held : Bool) (id : ℤ) (node : Node)
    → lock_at addr (set_lock addr held id node) ≡ record { held = held; id = id }
lock-set addr held id node =
    ground (arith, lookup-insert addr addr (record { held = held; id = id }) node.locks)

pub no_external :
    (addr : ℕ) (p : Parties)
    → IsApart addr p
    → ((lock_at addr p.left).held ≡ false) ⊎ (p.left_holds ≡ true)
    → p.left.external ≡ none
no_external addr p (a, b, c, d) h = elim (Option-cases p.left.external) [
  | inl nil ↦ nil
  | inr (u, e) ↦ absurd (ground (arith, b u e))
]

pub left_takes-IsApart :
    (addr now : ℕ) (answer : Answer) (p : Parties) (left' : Node) (u : Unlock)
    → p.left_holds ≡ false
    → acquire_channel addr none now answer p.left ≡ (left', ok u)
    → IsApart addr p
    → IsApart addr (record p { left = left'; left_holds = true })
left_takes-IsApart addr now answer p left' u idle h (a, b, c, d) =
    let (free, same) = own addr now answer p.left left' u h in
    let nil = no_external addr p (a, b, c, d) (inl free) in
    let set = lock-set addr true (pos now) p.left in
    (
      λ r. absurd (ground (arith, a r)),
      λ v e. absurd (ground arith),
      λ t. (ground (arith, set), ground (arith, set)),
      λ t. inl refl,
    )

pub left_drops-IsApart :
    (addr : ℕ) (p : Parties)
    → p.left_holds ≡ true
    → IsApart addr p
    → IsApart addr (record p { left = release addr p.left; left_holds = false })
unfolding release
left_drops-IsApart addr p holds (a, b, c, d) =
    let nil = no_external addr p (a, b, c, d) (inr holds) in
    let set = lock-set addr false (lock_at addr p.left).id p.left in
    (
      λ r. absurd (ground (arith, a r)),
      λ v e. absurd (ground arith),
      λ t. absurd (ground arith),
      λ t. absurd (ground (arith, set)),
    )

pub asked :
    (key addr now : ℕ) (id : ℤ) (node left' : Node) (r : Result LockError Unit)
    → process_external_lock key addr id true now node ≡ (left', r)
    → ((left' ≡ node) × (r ≢ ok tt))
      ⊎ ((pos 0 <ℤ id)
          × (node.external ≡ none)
          × (keep_external (acquire_channel addr (some (neg_id id)) now none node) ≡ (left', r)))
unfolding process_external_lock
asked key addr now id node left' r h = elim (Result-cases (check_peer key addr id node)) [
  | inr (e, x) ↦ inl (ground arith, ground arith)
  | inl (ch, x) ↦ elim (Bool-cases ch.we_left) [
    | inr no_master ↦ inl (ground arith, ground arith)
    | inl master ↦ elim (Option-cases node.external) [
      | inr (u, e) ↦ inl (ground arith, ground arith)
      | inl nil ↦ inr (ground arith, nil, ground arith)
    ]
  ]
]

pub neg-below : (id : ℤ) → pos 0 <ℤ id → ltb_ℤ (neg_id id) (pos 0) ≡ true
neg-below id h = ground arith

finished_alone :
    (addr : ℕ) (id : ℤ) (alone : Bool) (node : Node)
    → alone ≡ true
    → finish addr id alone none node ≡ (node, ok (local addr))
finished_alone addr id true node h = refl
finished_alone addr id false node h = absurd (ground arith)

-- The master's lock for the other party: taken only when it is free, and nothing changes otherwise.
pub foreign :
    (addr now : ℕ) (id : ℤ) (node : Node)
    → pos 0 <ℤ id
    → ((lock_at addr node).held ≡ true → ltb_ℤ (lock_at addr node).id (pos 0) ≡ false)
    → ((e : LockError) × (acquire_channel addr (some (neg_id id)) now none node ≡ (node, err e)))
      ⊎ (((lock_at addr node).held ≡ false)
          × (acquire_channel addr (some (neg_id id)) now none node
              ≡ (set_lock addr true (neg_id id) node, ok (local addr))))
unfolding acquire_channel
foreign addr now id node p own_id =
    let below = neg-below id p in
    elim (Option-cases (lookup addr node.channels)) [
      | inl nil ↦ inl (unknown_channel, ground arith)
      | inr (ch, e) ↦ elim (Bool-cases (lock_at addr node).held) [
        | inl held ↦ inl (channel_busy, ground arith)
        | inr free ↦ inr (
          free,
          ground (
            arith,
            finished_alone addr (neg_id id) (ch.we_left || ltb_ℤ (neg_id id) (pos 0))
                (set_lock addr true (neg_id id) node),
          ),
        )
      ]
    ]
