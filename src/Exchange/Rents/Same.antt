-- ===== src/Exchange/Rents/Same.antt =====
-- Renting capacity on the two copies of a channel.
use ton_payment_network.Base.{
  ℕ, ◌-◌, ◌*◌, ◌≡◌, ap, ◌∙◌, true, some, ok, arith, raise_if, ltb, bind-ok, ok-pair, or_raise-ok,
  or_raise, ◌==◌,
}
use ton_payment_network.Base.Dict.{lookup}
use ton_payment_network.Balance.{Float64, CoinConfig}
use ton_payment_network.Actions.{SendAction}
use ton_payment_network.Exchange.{
  Agreed, Channel, side_a, side_b, not_whitelisted, too_long, amount_not_increased, too_big_to_rent,
  no_payment,
}
use ton_payment_network.Exchange.Conds.{CondEnv}
use ton_payment_network.Exchange.Balances.{Resolver, calc_balance}
use ton_payment_network.Exchange.Swaps.{Wallets, Coins, new_send_action}
use ton_payment_network.Exchange.Swaps.Same.{IsExchanged, side_a-exchanged, side_b-exchanged}
use ton_payment_network.Exchange.Rents.{
  Rent, second, running, growth, calc_deposit_fee, seconds_left, with_deposit, check_growth,
  check_usable, longest, add_fee, propose_rent, process_rent,
}

-- Both clocks show the same whole seconds until `till`, and agree on which deposits still run.
pub record IsTimely {Cell : Type 0} (pnow rnow till : ℕ) (keeper : Agreed Cell) : Type 0 where
  pub left : seconds_left pnow till ≡ seconds_left rnow till
  pub runs :
      (id : ℕ)
      → running pnow (lookup id keeper.locked_deposits)
        ≡ running rnow (lookup id keeper.locked_deposits)

module _ {Cell : Type 0} (env : CondEnv Cell) (hundredth : Float64 → Float64) (w : Wallets) where
  -- What renting comes to on either copy, at the time that is left and the deposit that still runs.
  pub record Rented (coins : Coins) (rent : Rent) (ch : Channel Cell) (now : ℕ)
      (payer keeper paid kept : Agreed Cell) : Type 0 where
    pub coin : CoinConfig
    pub act : ℕ × SendAction
    pub fee : ℕ
    pub known : coins rent.balance_id ≡ some coin
    pub made : new_send_action w coin (side_a ch).address (side_b ch).address ≡ ok act
    pub costs :
        calc_deposit_fee hundredth coin rent.amount now rent.till keeper.locked_deposits ≡ ok fee
    pub pays : add_fee env act.0 fee payer ≡ ok paid
    pub keeps :
        with_deposit coin.balance_id rent
          (running now (lookup coin.balance_id keeper.locked_deposits))
          keeper
        ≡ kept

  proposed-Rented :
      (coins : Coins) (now : ℕ) (rent : Rent) (p : Channel Cell) (our their : Agreed Cell)
      → propose_rent env hundredth w coins now rent p ≡ ok (our, their)
      → Rented coins rent p now p.our.agreed p.their.agreed our their
  unfolding propose_rent
  proposed-Rented coins now rent p our their h =
      let (coin, e1, h1) = bind-ok (or_raise (coins rent.balance_id) not_whitelisted) h in
      let (fee, e2, h2) =
        bind-ok
          (calc_deposit_fee hundredth coin rent.amount now rent.till p.their.agreed.locked_deposits)
          h1 in
      let (act, e3, h3) =
        bind-ok (new_send_action w coin (side_a p).address (side_b p).address) h2 in
      let (paid, e4, h4) = bind-ok (add_fee env act.0 fee p.our.agreed) h3 in
      let (grown, e5, h5) =
        bind-ok
          (check_growth rent (running now (lookup coin.balance_id p.their.agreed.locked_deposits)))
          h4 in
      record {
        coin = coin;
        act = act;
        fee = fee;
        known = or_raise-ok (coins rent.balance_id) not_whitelisted e1;
        made = e3;
        costs = e2;
        pays = e4 ∙ ap ok (ok-pair h5).0;
        keeps = (ok-pair h5).1;
      }

  processed-Rented :
      (coins : Coins) (resolver : Resolver) (now : ℕ) (rent : Rent) (r : Channel Cell)
      (our their : Agreed Cell)
      → process_rent env hundredth w coins resolver now rent r ≡ ok (our, their)
      → Rented coins rent r now r.their.agreed r.our.agreed their our
  unfolding process_rent
  processed-Rented coins resolver now rent r our their h =
      let (coin, e1, h1) = bind-ok (or_raise (coins rent.balance_id) not_whitelisted) h in
      let (act, e2, h2) =
        bind-ok (new_send_action w coin (side_a r).address (side_b r).address) h1 in
      let ld = running now (lookup coin.balance_id r.our.agreed.locked_deposits) in
      let (short, e3, h3) =
        bind-ok (raise_if (ltb longest (rent.till * second - now)) too_long) h2 in
      let (more, e4, h4) =
        bind-ok (raise_if (growth ld rent.amount == 0) amount_not_increased) h3 in
      let (small, e5, h5) =
        bind-ok
          (raise_if
            (ltb coin.virtual_tunnel_config.max_capacity_to_rent_per_tx (growth ld rent.amount))
            too_big_to_rent)
          h4 in
      let (fee, e6, h6) =
        bind-ok
          (calc_deposit_fee hundredth coin rent.amount now rent.till r.our.agreed.locked_deposits)
          h5 in
      let (paying, e7, h7) = bind-ok (raise_if (fee == 0) no_payment) h6 in
      let (balances, e8, h8) = bind-ok (calc_balance env resolver r true) h7 in
      let (usable, e9, h9) = bind-ok (check_usable coin.balance_id fee balances) h8 in
      let (paid, e10, h10) = bind-ok (add_fee env act.0 fee r.their.agreed) h9 in
      record {
        coin = coin;
        act = act;
        fee = fee;
        known = or_raise-ok (coins rent.balance_id) not_whitelisted e1;
        made = e2;
        costs = e6;
        pays = e10 ∙ ap ok (ok-pair h10).1;
        keeps = (ok-pair h10).0;
      }

  Rented-unique :
      (pcoins rcoins : Coins) (rent : Rent) (p r : Channel Cell) (pnow rnow : ℕ)
      (payer keeper paid kept paid' kept' : Agreed Cell)
      → IsExchanged p r
      → IsTimely pnow rnow rent.till keeper
      → pcoins rent.balance_id ≡ rcoins rent.balance_id
      → Rented pcoins rent p pnow payer keeper paid kept
      → Rented rcoins rent r rnow payer keeper paid' kept'
      → (paid ≡ paid') × (kept ≡ kept')
  Rented-unique pcoins rcoins rent p r pnow rnow payer keeper paid kept paid' kept' m timely alike s
        t =
      let a = side_a-exchanged p r m in
      let b = side_b-exchanged p r m in
      let coin_same : s.coin ≡ t.coin = ground (arith, s.known, t.known, alike) in
      let act_same : s.act ≡ t.act = ground (arith, s.made, t.made, a, b, coin_same) in
      let runs = timely.runs s.coin.balance_id in
      let fee_same : s.fee ≡ t.fee =
        ground (arith, s.costs, t.costs, coin_same, timely.left, runs) in
      (
        ground (arith, s.pays, t.pays, act_same, fee_same),
        ground (arith, s.keeps, t.keeps, coin_same, runs),
      )

  -- Renting comes out the same on both copies of the channel: if the proposer's update and the other
  -- party's both succeed, where both know the same of both sides, have the coin configured alike, its
  -- fees included, make the same action for it and have clocks that agree on the seconds that are
  -- left and the deposits that run, then what each gets for its own side is what the other gets for
  -- it.
  pub process_rent-propose_rent :
      (pcoins rcoins : Coins) (resolver : Resolver) (pnow rnow : ℕ) (rent : Rent)
      (p r : Channel Cell) (our their our' their' : Agreed Cell)
      → IsExchanged p r
      → IsTimely pnow rnow rent.till p.their.agreed
      → pcoins rent.balance_id ≡ rcoins rent.balance_id
      → propose_rent env hundredth w pcoins pnow rent p ≡ ok (our, their)
      → process_rent env hundredth w rcoins resolver rnow rent r ≡ ok (our', their')
      → (our ≡ their') × (their ≡ our')
  process_rent-propose_rent pcoins rcoins resolver pnow rnow rent p r our their our' their' m timely
        alike h g =
      let done = proposed-Rented pcoins pnow rent p our their h in
      let again = processed-Rented rcoins resolver rnow rent r our' their' g in
      Rented-unique pcoins rcoins rent p r pnow rnow p.our.agreed p.their.agreed our their their'
        our' m timely alike done (rw (m.ours, m.theirs) again)
