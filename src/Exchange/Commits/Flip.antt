-- ===== src/Exchange/Commits/Flip.antt =====
-- The message of a cooperative commit, as the two parties of a channel make it.
use ton_payment_network.Base.{
  ℕ, ◌+◌, ◌%◌, ◌^◌, ◌≡◌, refl, ap, not, ◌&&◌, Bool, true, false, Option, some, none, ok, arith,
  raise_if, Result, err, bind-ok, or_raise, if◌then◌else◌,
}
use ton_payment_network.Exchange.{
  ExchangeError, Channel, load_signed_state, unknown_action, not_onchain, nothing_to_commit,
}
use ton_payment_network.Exchange.Conds.{CondEnv}
use ton_payment_network.Exchange.Balances.{Resolver, calc_balance}
use ton_payment_network.Exchange.Commits.{
  states_for, CommitAction, CommitRequest, from_us, from_them, nothing, state_of, prepare_side,
  get_commit_request,
}
use ton_payment_network.Exchange.Swaps.Same.{IsExchanged}

-- The copies also have the last state, the channel's id and what is pending in common.
pub record IsCommon {Cell : Type 0} (p r : Channel Cell) : Type 0 where
  pub exchanged : IsExchanged p r
  pub ids : p.id ≡ r.id
  pub bodies : (load_signed_state p).body ≡ (load_signed_state r).body
  pub commits : p.pending_commit ≡ r.pending_commit

-- The request as the other party has it.
abbrev pub flip : {Cell : Type 0} → CommitRequest Cell → CommitRequest Cell
flip q = record { signed = q.signed; our_tx = q.their_tx; their_tx = q.our_tx }

swapped_on :
    (a b : Bool) {u : Unit}
    → raise_if (not (a && b)) not_onchain ≡ ok u
    → raise_if (not (b && a)) not_onchain ≡ ok tt
swapped_on true b h = ground arith
swapped_on false b h = absurd (ground arith)

swapped_state :
    {Cell : Type 0} (a b : Option Cell) {u : Unit}
    → raise_if (nothing a b) nothing_to_commit ≡ ok u
    → raise_if (nothing b a) nothing_to_commit ≡ ok tt
swapped_state none none h = absurd (ground arith)
swapped_state none (some b) h = refl
swapped_state (some a) none h = refl
swapped_state (some a) (some b) h = refl

abbrev flipped :
    {Cell : Type 0}
    → Result ExchangeError (CommitRequest Cell)
    → Result ExchangeError (CommitRequest Cell)
flipped (ok q) = ok (flip q)
flipped (err e) = err e

same_from :
    (left by_us : Bool)
    → (if not by_us then not left else not (not left)) ≡ (if by_us then left else not left)
same_from true true = refl
same_from true false = refl
same_from false true = refl
same_from false false = refl

turned_choice :
    {A : Type 0} (left : Bool) (a b : A) → (if not left then a else b) ≡ (if left then b else a)
turned_choice true a b = refl
turned_choice false a b = refl

module _ {Cell : Type 0} (env : CondEnv Cell) (resolver : Resolver) where
  pub request_flips :
      (p r : Channel Cell) (id : ℕ) (by_us by_us' : Bool) (fee fee' : Option Bool)
      (q : CommitRequest Cell)
      → IsCommon p r
      → by_us' ≡ not by_us
      → from_us fee' ≡ from_them fee
      → from_them fee' ≡ from_us fee
      → get_commit_request env resolver p id by_us fee ≡ ok q
      → get_commit_request env resolver r id by_us' fee' ≡ ok (flip q)
  unfolding get_commit_request
  request_flips p r id by_us by_us' fee fee' q m by us them h =
      let seqno = ((load_signed_state p).body.seqno + 1) % 2 ^ 64 in
      let (on, e1, h1) =
        bind-ok (raise_if (not (p.our.active_onchain && p.their.active_onchain)) not_onchain) h in
      let (act, e2, h2) = bind-ok (or_raise (resolver.send_actions id) unknown_action) h1 in
      let (some_state, e3, h3) =
        bind-ok
          (raise_if (nothing (state_of id p.our.agreed) (state_of id p.their.agreed))
            nothing_to_commit)
          h2 in
      let (ours, e4, h4) =
        bind-ok
          (prepare_side env act p.their.address seqno (from_us fee)
            (calc_balance env resolver p false) (state_of id p.our.agreed))
          h3 in
      let (theirs, e5, h5) =
        bind-ok
          (prepare_side env act p.our.address seqno (from_them fee)
            (calc_balance env resolver p true) (state_of id p.their.agreed))
          h4 in
      let seqno' = ((load_signed_state r).body.seqno + 1) % 2 ^ 64 in
      let x = m.exchanged in
      let on' : raise_if (not (r.our.active_onchain && r.their.active_onchain)) not_onchain
          ≡ ok tt =
        rw (← x.theirs, ← x.ours) (swapped_on p.our.active_onchain p.their.active_onchain e1) in
      let some_state' : raise_if (nothing (state_of id r.our.agreed) (state_of id r.their.agreed))
            nothing_to_commit
          ≡ ok tt =
        rw (← x.theirs, ← x.ours)
          (swapped_state (state_of id p.our.agreed) (state_of id p.their.agreed) e3) in
      let ours' : prepare_side env act r.their.address seqno' (from_us fee')
            (calc_balance env resolver r false) (state_of id r.our.agreed)
          ≡ ok theirs =
        rw (← m.bodies, ← x.theirs, ← x.ours, us) e5 in
      let theirs' : prepare_side env act r.our.address seqno' (from_them fee')
            (calc_balance env resolver r true) (state_of id r.their.agreed)
          ≡ ok ours =
        rw (← m.bodies, ← x.theirs, ← x.ours, them) e4 in
      rw (on', e2, some_state', ours', theirs')
        (rw
          (
            ← m.bodies,
            ← m.ids,
            x.turned,
            by,
            same_from p.we_left by_us,
            turned_choice p.we_left theirs.0 ours.0,
            turned_choice p.we_left ours.0 theirs.0,
          )
          (ap flipped h5))

pub turned_states :
    {Cell : Type 0} (left : Bool) (o : Option (CommitAction Cell))
    → (states_for (not left) o ≡ ((states_for left o).1, (states_for left o).0))
turned_states true none = refl
turned_states false none = refl
turned_states true (some a) = refl
turned_states false (some a) = refl
