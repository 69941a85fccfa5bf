-- ===== src/Exchange/Commits/Same.antt =====
-- A cooperative commit on the two copies of a channel.
use ton_payment_network.Base.{
  ℕ, ◌≡◌, refl, sym, ◌⊎◌, not, Bool, true, false, Option, some, none, [], ◌∷◌, ok, inl, inr,
  Bool-cases, arith, raise_if, bind-ok, ok-same, if◌then◌else◌,
}
use ton_payment_network.Base.Dict.{Dict}
use ton_payment_network.Actions.{PendingMessageInfo}
use ton_payment_network.Exchange.{Channel, Crypto, wrong_signature}
use ton_payment_network.Exchange.Conds.{CondEnv}
use ton_payment_network.Exchange.Balances.{Resolver}
use ton_payment_network.Exchange.Commits.{
  are_none, Signed, CommitRequest, CommitProposal, from_us, from_them, get_commit_request,
  check_pending, with_commit, propose_coop_commit, process_coop_commit,
}
use ton_payment_network.Exchange.Swaps.Same.{IsExchanged}
use ton_payment_network.Exchange.Commits.Flip.{IsCommon, flip, request_flips, turned_states}

not-not : (b : Bool) → not (not b) ≡ b
not-not true = refl
not-not false = refl

-- Who is charged by the proposer and by the other party.
abbrev proposer_fee : {Cell : Type 0} → CommitProposal → Channel Cell → Option Bool
proposer_fee act p = if act.with_fee then some p.we_left else none

abbrev other_fee : CommitProposal → Option Bool
other_fee act = if act.with_fee then some false else none

same_fee :
    {Cell : Type 0} (act : CommitProposal) (p : Channel Cell)
    → (act.with_fee ≡ false) ⊎ (p.we_left ≡ true)
    → (from_us (other_fee act) ≡ from_them (proposer_fee act p))
      × (from_them (other_fee act) ≡ from_us (proposer_fee act p))
same_fee act p (inl free) = (ground arith, ground arith)
same_fee act p (inr left) = elim (Bool-cases act.with_fee) [
  | inl paid ↦ (ground arith, ground arith)
  | inr free ↦ (ground arith, ground arith)
]

are_none_comm : (a b : Dict PendingMessageInfo) → are_none b a ≡ are_none a b
are_none_comm [] [] = refl
are_none_comm [] (t ∷ ts) = refl
are_none_comm (t ∷ ts) [] = refl
are_none_comm (t ∷ ts) (u ∷ us) = refl

same_pending :
    {Cell : Type 0} (p r : Channel Cell) → IsCommon p r → check_pending r ≡ check_pending p
same_pending p r m =
    let x = m.exchanged in
    rw
      (
        ← x.theirs,
        ← x.ours,
        ← m.commits,
        are_none_comm p.our.pending_onchain_transfers p.their.pending_onchain_transfers,
      )
      refl

module _ {Cell : Type 0} (to_cell : Signed Cell → Cell) where
  with_commit_flips :
      (p r : Channel Cell) (id : ℕ) (q : CommitRequest Cell)
      → IsCommon p r
      → IsExchanged (with_commit to_cell id p q) (with_commit to_cell id r (flip q))
  unfolding with_commit
  with_commit_flips p r id q m =
      let x = m.exchanged in
      record {
        turned = x.turned;
        ours = rw (← x.ours, x.turned, turned_states p.we_left q.signed.action) refl;
        theirs = rw (← x.theirs, x.turned, turned_states p.we_left q.signed.action) refl;
      }

  with_commit_waits :
      (p r : Channel Cell) (id : ℕ) (q : CommitRequest Cell)
      → (with_commit to_cell id p q).pending_commit
        ≡ (with_commit to_cell id r (flip q)).pending_commit
  unfolding with_commit
  with_commit_waits p r id q = refl

module _ {Cell : Type 0} (crypto : Crypto Cell) (env : CondEnv Cell) (resolver : Resolver)
    (to_cell : Signed Cell → Cell) (hash : Cell → ℕ) where
  -- A cooperative commit on the two copies of a channel, where both nodes resolve alike: they know
  -- the same coins, with the same fees for a withdrawal, the same send actions and conditionals, and
  -- read the same clock and prices. Where the proposer takes no fee or is the left party, the other
  -- party finds the same message, which the proposer's signature is for, and both copies are each
  -- other's exchange again and wait for that one message.
  pub process_coop_commit-propose_coop_commit :
      (act : CommitProposal) (p r p' : Channel Cell)
      → IsCommon p r
      → (act.with_fee ≡ false) ⊎ (p.we_left ≡ true)
      → propose_coop_commit crypto env resolver to_cell hash act p ≡ ok p'
      → (r' : Channel Cell) × (process_coop_commit crypto env resolver to_cell hash act r ≡ ok r')
        × IsExchanged p' r'
        × (p'.pending_commit ≡ r'.pending_commit)
  unfolding propose_coop_commit process_coop_commit
  process_coop_commit-propose_coop_commit act p r p' m fits h =
      let (clear, e1, h1) = bind-ok (check_pending p) h in
      let (q, e2, h2) =
        bind-ok
          (get_commit_request env resolver p act.action_id (not act.with_fee) (proposer_fee act p))
          h1 in
      let (signed, e3, h3) =
        bind-ok
          (raise_if (not (crypto.verify p.our.key (hash (to_cell q.signed)) act.msg_signature))
            wrong_signature)
          h2 in
      let fees = same_fee act p fits in
      let found : get_commit_request env resolver r act.action_id act.with_fee (other_fee act)
          ≡ ok (flip q) =
        request_flips env resolver p r act.action_id (not act.with_fee) act.with_fee
          (proposer_fee act p) (other_fee act) q m (sym (not-not act.with_fee)) fees.0 fees.1 e2 in
      let known : raise_if
            (not (crypto.verify r.their.key (hash (to_cell q.signed)) act.msg_signature))
            wrong_signature
          ≡ ok signed =
        rw (← m.exchanged.ours) e3 in
      (
        with_commit to_cell act.action_id r (flip q),
        rw (same_pending p r m, e1, found, known) refl,
        rw (← ok-same h3) (with_commit_flips to_cell p r act.action_id q m),
        rw (← ok-same h3) (with_commit_waits to_cell p r act.action_id q),
      )
