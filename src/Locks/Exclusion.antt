-- ===== src/Locks/Exclusion.antt =====
-- The two parties of one channel never hold it both.
use ton_payment_network.Base.{
  ℕ, ◌≡◌, refl, true, false, none, some, Option-cases, Bool-cases, Result-cases, ok, err, arith,
  inl, inr, ◌⊎◌,
}
use ton_payment_network.Base.Int.{ℤ}
use ton_payment_network.Locks.{
  Unlock, local, Node, LockError, lock_at, release, set_lock, process_external_lock, neg_id,
  check_peer, run_unlock,
}
use ton_payment_network.Locks.Parties.{
  Parties, Move, left_takes, left_drops, right_takes, right_fails, right_drops, right_frees, Moves,
  stay, move, IsApart, lock-set, left_takes-IsApart, left_drops-IsApart, asked, foreign,
}

right_takes-IsApart :
    (addr key now : ℕ) (id : ℤ) (p : Parties) (left' : Node)
    → process_external_lock key addr id true now p.left ≡ (left', ok tt)
    → IsApart addr p
    → IsApart addr (record p { left = left'; right_holds = true })
right_takes-IsApart addr key now id p left' h (a, b, c, d) =
    elim (asked key addr now id p.left left' (ok tt) h) [
      | inl (same, bad) ↦ absurd (bad refl)
      | inr (pos_id, nil, k) ↦
          elim (foreign addr now id p.left pos_id (λ t. ground (arith, c, d t))) [
            | inl (e, f) ↦ absurd (ground arith)
            | inr (free, f) ↦
                let set = lock-set addr true (neg_id id) p.left in
                let new : left' ≡ record (set_lock addr true (neg_id id) p.left) {
                  external = some (local addr);
                } =
                  ground arith in
                (
                  λ r. ground arith,
                  λ u e. (ground arith, ground (arith, set), ground (arith, c)),
                  λ t. absurd (ground (arith, c t)),
                  λ t. inr (ground arith),
                )
          ]
    ]

right_fails_same :
    (addr key now : ℕ) (id : ℤ) (p : Parties) (left' : Node) (e : LockError)
    → process_external_lock key addr id true now p.left ≡ (left', err e)
    → IsApart addr p
    → left' ≡ p.left
right_fails_same addr key now id p left' e h (a, b, c, d) =
    elim (asked key addr now id p.left left' (err e) h) [
      | inl (same, bad) ↦ same
      | inr (pos_id, nil, k) ↦
          elim (foreign addr now id p.left pos_id (λ t. ground (arith, c, d t))) [
            | inl (f, g) ↦ ground arith
            | inr (free, g) ↦ absurd (ground arith)
          ]
    ]

freed :
    (key addr now : ℕ) (id : ℤ) (node left' : Node)
    → process_external_lock key addr id false now node ≡ (left', ok tt)
    → (left' ≡ node)
      ⊎ ((u : Unlock) × (node.external ≡ some u)
          × (left' ≡ run_unlock u (record node { external = none })))
unfolding process_external_lock
freed key addr now id node left' h = elim (Result-cases (check_peer key addr id node)) [
  | inr (e, x) ↦ absurd (ground arith)
  | inl (ch, x) ↦ elim (Bool-cases ch.we_left) [
    | inr no_master ↦ absurd (ground arith)
    | inl master ↦ elim (Option-cases node.external) [
      | inl nil ↦ inl (ground arith)
      | inr (u, e) ↦ inr (u, e, ground arith)
    ]
  ]
]

right_frees-IsApart :
    (addr key now : ℕ) (id : ℤ) (p : Parties) (left' : Node)
    → p.right_holds ≡ false
    → process_external_lock key addr id false now p.left ≡ (left', ok tt)
    → IsApart addr p
    → IsApart addr (record p { left = left' })
unfolding release
right_frees-IsApart addr key now id p left' idle h (a, b, c, d) =
    elim (freed key addr now id p.left left' h) [
      | inl same ↦ rw (same) (a, b, c, d)
      | inr (u, e, new) ↦
          let (mine, held, alone) = b u e in
          let set = lock-set addr false (lock_at addr p.left).id p.left in
          let free : left'
              ≡ record (set_lock addr false (lock_at addr p.left).id p.left) { external = none } =
            ground arith in
          (
            λ r. absurd (ground arith),
            λ v f. absurd (ground arith),
            λ t. absurd (ground arith),
            λ t. absurd (ground (arith, set)),
          )
    ]

Move-IsApart : (addr key : ℕ) (p q : Parties) → Move addr key p q → IsApart addr p → IsApart addr q
Move-IsApart addr key p q (left_takes {left' = left'} now answer u idle h) w =
    left_takes-IsApart addr now answer p left' u idle h w
Move-IsApart addr key p q (left_drops holds) w = left_drops-IsApart addr p holds w
Move-IsApart addr key p q (right_takes {left' = left'} id now h) w =
    right_takes-IsApart addr key now id p left' h w
Move-IsApart addr key p q (right_fails {left' = left'} id now e h) w =
    rw (right_fails_same addr key now id p left' e h w) w
Move-IsApart addr key p q right_drops (a, b, c, d) = (λ r. absurd (ground arith), b, c, d)
Move-IsApart addr key p q (right_frees {left' = left'} id now idle h) w =
    right_frees-IsApart addr key now id p left' idle h w

Moves-IsApart :
    (addr key : ℕ) (p q : Parties) → Moves addr key p q → IsApart addr p → IsApart addr q
Moves-IsApart addr key p q stay w = w
Moves-IsApart addr key p q (move {q = mid} m more) w =
    Moves-IsApart addr key mid q more (Move-IsApart addr key p mid m w)

-- From a channel that nobody holds, whatever the two parties do and in whatever order their requests
-- for this channel are served, they never hold it both, also when requests fail and when the master
-- is asked again and again. An unlock request is served while the other party does not hold the
-- channel, and the requests for other channels are left out.
pub Moves-exclusive :
    (addr key : ℕ) (p q : Parties)
    → p.left.external ≡ none
    → (lock_at addr p.left).held ≡ false
    → p.left_holds ≡ false
    → p.right_holds ≡ false
    → Moves addr key p q
    → (q.left_holds ≡ true → q.right_holds ≡ false) × (q.right_holds ≡ true → q.left_holds ≡ false)
Moves-exclusive addr key p q nil free idle off m =
    let (a, b, c, d) = Moves-IsApart addr key p q m (
      λ r. absurd (ground arith),
      λ u e. absurd (ground arith),
      λ t. absurd (ground arith),
      λ t. absurd (ground arith),
    ) in
    let right : q.right_holds ≡ true → q.left_holds ≡ false = λ r. (b (local addr) (a r)).2 in
    (λ l. ground (arith, right), right)
