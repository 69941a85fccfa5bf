-- ===== src/Locks/Holding.antt =====
-- Who may hold a lock, and who can take it away.
use ton_payment_network.Base.{
  ℕ, ◌≡◌, ◌≢◌, Bool, true, false, ◌||◌, Option, none, some, Option-cases, Bool-cases, ok, err,
  if◌then◌else◌, arith, inl, inr,
}
use ton_payment_network.Base.Int.{ℤ, pos, ltb_ℤ, eqb_ℤ, ◌<ℤ◌}
use ton_payment_network.Base.Dict.{lookup, lookup-insert}
use ton_payment_network.Locks.{
  LockedChannel, Unlock, nothing, local, Node, channel_busy, Answer, lock_at, release, id_or,
  set_lock, finish, is_same_id, acquire_channel, process_external_lock,
}

pub finished :
    (addr : ℕ) (i : ℤ) (alone : Bool) (answer : Answer) (node node' : Node) (u : Unlock)
    → finish addr i alone answer node ≡ (node', ok u)
    → (node' ≡ node) × (u ≢ nothing)
finished addr i true answer node node' u h = (ground arith, ground arith)
finished addr i false none node node' u h = absurd (ground arith)
finished addr i false (some false) node node' u h = absurd (ground arith)
finished addr i false (some true) node node' u h = (ground arith, ground arith)

-- What a call that took the lock has done
pub took :
    (addr : ℕ) (id : Option ℤ) (now : ℕ) (answer : Answer) (node node' : Node) (u : Unlock)
    → acquire_channel addr id now answer node ≡ (node', ok u)
    → u ≢ nothing
    → (ch : LockedChannel) × (lookup addr node.channels ≡ some ch)
      × ((lock_at addr node).held ≡ false)
      × (node' ≡ set_lock addr true (id_or id now) node)
unfolding acquire_channel
took addr id now answer node node' u h taken = elim (Option-cases (lookup addr node.channels)) [
  | inl nil ↦ absurd (ground arith)
  | inr (ch, e) ↦ elim (Bool-cases (lock_at addr node).held) [
    | inl held ↦ absurd (ground arith)
    | inr free ↦
        let (same, new) =
          finished addr (id_or id now) (ch.we_left || ltb_ℤ (id_or id now) (pos 0)) answer
            (set_lock addr true (id_or id now) node) node' u (ground arith) in
        (ch, e, free, same)
  ]
]

shut :
    (addr : ℕ) (id : Option ℤ) (now : ℕ) (answer : Answer) (node : Node) (ch : LockedChannel)
    → lookup addr node.channels ≡ some ch
    → (lock_at addr node).held ≡ true
    → acquire_channel addr id now answer node
      ≡ (node, if is_same_id id (lock_at addr node).id then ok nothing else err channel_busy)
unfolding acquire_channel
shut addr id now answer node ch e h = ground arith

-- A lock that was taken, not entered again: it was free, it is held under the caller's id, and no
-- other id and no call without an id gets it, whatever the master would answer. A call with the
-- same id enters again and changes nothing.
acquire_channel-holds :
    (addr : ℕ) (id : Option ℤ) (now : ℕ) (answer : Answer) (node node' : Node) (u : Unlock)
    → acquire_channel addr id now answer node ≡ (node', ok u)
    → u ≢ nothing
    → ((lock_at addr node).held ≡ false)
      × (lock_at addr node' ≡ record { held = true; id = id_or id now })
      × ((later : ℕ) (answer' : Answer)
          → acquire_channel addr none later answer' node' ≡ (node', err channel_busy))
      × ((other : ℤ) (later : ℕ) (answer' : Answer)
          → acquire_channel addr (some other) later answer' node'
            ≡ (node', if eqb_ℤ other (id_or id now) then ok nothing else err channel_busy))
acquire_channel-holds addr id now answer node node' u h taken =
    let (ch, e, free, same) = took addr id now answer node node' u h taken in
    let set : lock_at addr node' ≡ record { held = true; id = id_or id now } =
      ground
        (arith, lookup-insert addr addr (record { held = true; id = id_or id now }) node.locks) in
    let known : lookup addr node'.channels ≡ some ch = ground arith in
    (
      free,
      set,
      λ later answer'. ground (arith, shut addr none later answer' node' ch known),
      λ other later answer'. ground (arith, shut addr (some other) later answer' node' ch known),
    )

-- The external lock is one for all channels. Whoever is the other party of any channel of which
-- this side is the master may unlock it: the lock that was taken for another channel is free
-- afterwards, under whatever id the request is made.
pub process_external_lock-frees_any :
    (key addr mine : ℕ) (id : ℤ) (now : ℕ) (node : Node) (ch : LockedChannel)
    → pos 0 <ℤ id
    → lookup addr node.channels ≡ some ch
    → ch.their_key ≡ key
    → ch.we_left ≡ true
    → node.external ≡ some (local mine)
    → let after = process_external_lock key addr id false now node in
      (after.1 ≡ ok tt) × (after.0.external ≡ none) × ((lock_at mine after.0).held ≡ false)
unfolding process_external_lock release
process_external_lock-frees_any key addr mine id now node ch p e k l x = (
  ground arith,
  ground arith,
  ground (
    arith,
    lookup-insert mine mine (record { held = false; id = (lock_at mine node).id }) node.locks,
  ),
)
