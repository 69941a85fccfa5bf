-- ===== src/Exchange/Swaps/Same.antt =====
-- A swap on the two copies of a channel.
use ton_payment_network.Base.{
  ℕ, ◌≡◌, ap, ◌∙◌, not, Bool, Option, some, ok, inl, inr, Bool-cases, arith, bind-ok, ok-pair,
  or_raise-ok, or_raise, raise_if,
}
use ton_payment_network.Balance.{CoinConfig}
use ton_payment_network.Actions.{SendAction}
use ton_payment_network.Exchange.{
  Agreed, Channel, side_a, side_b, not_whitelisted, swaps_disabled, swap_refused,
}
use ton_payment_network.Exchange.Conds.{CondEnv}
use ton_payment_network.Exchange.Balances.{Resolver}
use ton_payment_network.Exchange.Swaps.{
  Wallets, Coins, Swap, new_send_action, put_coins, check_balances, propose_swap, process_swap,
}

-- Two copies of a channel that know the same of both sides.
pub record IsExchanged {Cell : Type 0} (p r : Channel Cell) : Type 0 where
  pub turned : r.we_left ≡ not p.we_left
  pub ours : p.our ≡ r.their
  pub theirs : p.their ≡ r.our

pub side_a-exchanged : {Cell : Type 0} (p r : Channel Cell) → IsExchanged p r → side_a r ≡ side_a p
side_a-exchanged p r m = elim (Bool-cases p.we_left) [
  | inl left ↦ ground (arith, m.turned, m.ours, m.theirs)
  | inr right ↦ ground (arith, m.turned, m.ours, m.theirs)
]

pub side_b-exchanged : {Cell : Type 0} (p r : Channel Cell) → IsExchanged p r → side_b r ≡ side_b p
side_b-exchanged p r m = elim (Bool-cases p.we_left) [
  | inl left ↦ ground (arith, m.turned, m.ours, m.theirs)
  | inr right ↦ ground (arith, m.turned, m.ours, m.theirs)
]

module _ {Cell : Type 0} (env : CondEnv Cell) (w : Wallets) (coins : Coins) where
  -- What a swap that is accepted comes to, on either copy: the two coins' actions, and the sides.
  pub record Swapped (swap : Swap) (ch : Channel Cell) (payer getter paid got : Agreed Cell)
      : Type 0 where
    pub from_cc : CoinConfig
    pub to_cc : CoinConfig
    pub from_act : ℕ × SendAction
    pub to_act : ℕ × SendAction
    pub from_known : coins swap.from_balance_id ≡ some from_cc
    pub to_known : coins swap.to_balance_id ≡ some to_cc
    pub from_made : new_send_action w from_cc (side_a ch).address (side_b ch).address ≡ ok from_act
    pub to_made : new_send_action w to_cc (side_a ch).address (side_b ch).address ≡ ok to_act
    pub pays : put_coins env from_act.0 from_cc swap.from_amount payer ≡ ok paid
    pub gets : put_coins env to_act.0 to_cc swap.to_amount getter ≡ ok got

  proposed-Swapped :
      (resolver : Resolver) (swap : Swap) (p : Channel Cell) (our their : Agreed Cell)
      → propose_swap env w coins resolver swap p ≡ ok (our, their)
      → Swapped swap p p.our.agreed p.their.agreed our their
  unfolding propose_swap
  proposed-Swapped resolver swap p our their h =
      let (from_cc, e1, h1) = bind-ok (or_raise (coins swap.from_balance_id) not_whitelisted) h in
      let (to_cc, e2, h2) = bind-ok (or_raise (coins swap.to_balance_id) not_whitelisted) h1 in
      let (from_act, e3, h3) =
        bind-ok (new_send_action w from_cc (side_a p).address (side_b p).address) h2 in
      let (to_act, e4, h4) =
        bind-ok (new_send_action w to_cc (side_a p).address (side_b p).address) h3 in
      let (got, e5, h5) = bind-ok (put_coins env to_act.0 to_cc swap.to_amount p.their.agreed) h4 in
      let (paid, e6, h6) =
        bind-ok (put_coins env from_act.0 from_cc swap.from_amount p.our.agreed) h5 in
      let (checked, e7, h7) =
        bind-ok (check_balances env _ _ from_cc.balance_id to_cc.balance_id) h6 in
      record {
        from_cc = from_cc;
        to_cc = to_cc;
        from_act = from_act;
        to_act = to_act;
        from_known = or_raise-ok (coins swap.from_balance_id) not_whitelisted e1;
        to_known = or_raise-ok (coins swap.to_balance_id) not_whitelisted e2;
        from_made = e3;
        to_made = e4;
        pays = e6 ∙ ap ok (ok-pair h7).0;
        gets = e5 ∙ ap ok (ok-pair h7).1;
      }

  processed-Swapped :
      (resolver : Resolver) (on_swap : Option (Swap → Bool)) (swap : Swap) (r : Channel Cell)
      (our their : Agreed Cell)
      → process_swap env w coins resolver on_swap swap r ≡ ok (our, their)
      → Swapped swap r r.their.agreed r.our.agreed their our
  unfolding process_swap
  processed-Swapped resolver on_swap swap r our their h =
      let (approve, e0, h0) = bind-ok (or_raise on_swap swaps_disabled) h in
      let (from_cc, e1, h1) = bind-ok (or_raise (coins swap.from_balance_id) not_whitelisted) h0 in
      let (to_cc, e2, h2) = bind-ok (or_raise (coins swap.to_balance_id) not_whitelisted) h1 in
      let (from_act, e3, h3) =
        bind-ok (new_send_action w from_cc (side_a r).address (side_b r).address) h2 in
      let (to_act, e4, h4) =
        bind-ok (new_send_action w to_cc (side_a r).address (side_b r).address) h3 in
      let (paid, e5, h5) =
        bind-ok (put_coins env from_act.0 from_cc swap.from_amount r.their.agreed) h4 in
      let (got, e6, h6) = bind-ok (put_coins env to_act.0 to_cc swap.to_amount r.our.agreed) h5 in
      let (checked, e7, h7) =
        bind-ok (check_balances env _ _ from_cc.balance_id to_cc.balance_id) h6 in
      let (approved, e8, h8) = bind-ok (raise_if (not (approve swap)) swap_refused) h7 in
      record {
        from_cc = from_cc;
        to_cc = to_cc;
        from_act = from_act;
        to_act = to_act;
        from_known = or_raise-ok (coins swap.from_balance_id) not_whitelisted e1;
        to_known = or_raise-ok (coins swap.to_balance_id) not_whitelisted e2;
        from_made = e3;
        to_made = e4;
        pays = e5 ∙ ap ok (ok-pair h8).1;
        gets = e6 ∙ ap ok (ok-pair h8).0;
      }

  -- There is one way to swap.
  Swapped-unique :
      (swap : Swap) (p r : Channel Cell) (payer getter paid got paid' got' : Agreed Cell)
      → IsExchanged p r
      → Swapped swap p payer getter paid got
      → Swapped swap r payer getter paid' got'
      → (paid ≡ paid') × (got ≡ got')
  Swapped-unique swap p r payer getter paid got paid' got' m s t =
      let a = side_a-exchanged p r m in
      let b = side_b-exchanged p r m in
      let from_same : s.from_cc ≡ t.from_cc = ground (arith, s.from_known, t.from_known) in
      let to_same : s.to_cc ≡ t.to_cc = ground (arith, s.to_known, t.to_known) in
      let from_act_same : s.from_act ≡ t.from_act =
        ground (arith, s.from_made, t.from_made, a, b, from_same) in
      let to_act_same : s.to_act ≡ t.to_act = ground (arith, s.to_made, t.to_made, a, b, to_same) in
      (
        ground (arith, s.pays, t.pays, from_same, from_act_same),
        ground (arith, s.gets, t.gets, to_same, to_act_same),
      )

  -- A swap comes out the same on both copies of the channel: if the proposer's update and the other
  -- party's both succeed, where both parties know the same of both sides and make the same
  -- actions for the coins, then what each gets for its own side is what the other gets for it,
  -- whatever either resolves or approves.
  pub process_swap-propose_swap :
      (presolver rresolver : Resolver) (on_swap : Option (Swap → Bool)) (swap : Swap)
      (p r : Channel Cell) (our their our' their' : Agreed Cell)
      → IsExchanged p r
      → propose_swap env w coins presolver swap p ≡ ok (our, their)
      → process_swap env w coins rresolver on_swap swap r ≡ ok (our', their')
      → (our ≡ their') × (their ≡ our')
  process_swap-propose_swap presolver rresolver on_swap swap p r our their our' their' m h g =
      let done = proposed-Swapped presolver swap p our their h in
      let again = processed-Swapped rresolver on_swap swap r our' their' g in
      Swapped-unique swap p r p.our.agreed p.their.agreed our their their' our' m done
        (rw (m.ours, m.theirs) again)
