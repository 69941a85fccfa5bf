-- ===== src/Monitor/Removal/Sides.antt =====
-- The two tests of whether a position is open, on the two sides of a pair.
use ton_payment_network.Base.{
  ℕ, ◌<◌, ◌≡◌, ◌≢◌, Bool, true, false, not, some, List, [], ◌∷◌, Result, ok, err, if◌then◌else◌,
  arith,
}
use ton_payment_network.Base.Int.{ℤ}
use ton_payment_network.Db.Metas.{Meta, linked_key_of}
use ton_payment_network.Conditionals.Resolvable.Defs.{ConditionalResolvable}
use ton_payment_network.Monitor.{MonitorState, fresh, apply_samples}
use ton_payment_network.Monitor.Entry.{any_reaches, apply_samples-entry_crossed}
use ton_payment_network.Monitor.Removal.{
  RefreshError, already_opened, incoming_key_for_remove, canonical_is_long,
  ensure_derivative_removable,
}
use ton_payment_network.Monitor.Removal.Opened.{any_opens, ensure_derivative_removable-unopened}

any_opens-linked :
    (c : ConditionalResolvable) (samples : List (ℕ × ℤ))
    → any_opens (not c.details.is_long) c samples ≡ any_reaches c samples
any_opens-linked c [] = ground arith
any_opens-linked c ((at, price) ∷ more) = ground (arith, any_opens-linked c more)

linked-canonical :
    (key : ℕ → ℕ) (meta : Meta) (c : ConditionalResolvable) (base : ℕ)
    → linked_key_of meta ≡ some base
    → c.key ≡ key base
    → canonical_is_long key meta c ≡ not c.details.is_long
unfolding canonical_is_long
linked-canonical key meta c base l k = ground (arith, l, k)

own-canonical :
    (key : ℕ → ℕ) (meta : Meta) (c : ConditionalResolvable) (linked : ℕ)
    → linked_key_of meta ≡ some linked
    → c.key ≢ key linked
    → canonical_is_long key meta c ≡ c.details.is_long
unfolding canonical_is_long
own-canonical key meta c linked l k = ground (arith, l, k)

unopened-reaches :
    (c : ConditionalResolvable) (at : ℕ) (price : ℤ) (more : List (ℕ × ℤ))
    → any_opens c.details.is_long c ((at, price) ∷ more) ≡ false
    → any_reaches c ((at, price) ∷ more) ≡ true
unopened-reaches c at price more h = ground arith

-- On the side whose incoming conditional has the derived key, the removal of a derivative with an
-- entry price is refused exactly when the monitor counts the position as open.
ensure_derivative_removable-linked :
    (key : ℕ → ℕ) (hedged : Meta → Bool)
    (refresh : ℕ → Result RefreshError (Meta × ConditionalResolvable × MonitorState))
    (load : ℕ → Result RefreshError Meta) (outgoing : Meta) (incoming : ℕ) (meta : Meta)
    (c : ConditionalResolvable) (samples : List (ℕ × ℤ)) (last base : ℕ)
    → 0 < c.details.entry_price
    → incoming_key_for_remove outgoing ≡ some incoming
    → refresh incoming ≡ ok (meta, c, apply_samples c samples (fresh last))
    → linked_key_of meta ≡ some base
    → c.key ≡ key base
    → ensure_derivative_removable key hedged refresh load outgoing
      ≡ (if (apply_samples c samples (fresh last)).entry_crossed then err already_opened else ok tt)
ensure_derivative_removable-linked key hedged refresh load outgoing incoming meta c samples last
      base p k r l d =
    ground (
      arith,
      ensure_derivative_removable-unopened key hedged refresh load outgoing incoming meta c samples
          last p k r,
      linked-canonical key meta c base l d,
      any_opens-linked c samples,
      apply_samples-entry_crossed c last samples p,
    )

-- On the side whose incoming conditional has the key that the order was made with, the two tests
-- look the opposite way: when every price so far lies on the far side of the entry and there was at
-- least one, the monitor counts the position as open, and still its removal is allowed.
pub ensure_derivative_removable-while_open :
    (key : ℕ → ℕ) (hedged : Meta → Bool)
    (refresh : ℕ → Result RefreshError (Meta × ConditionalResolvable × MonitorState))
    (load : ℕ → Result RefreshError Meta) (outgoing : Meta) (incoming : ℕ) (meta : Meta)
    (c : ConditionalResolvable) (at : ℕ) (price : ℤ) (more : List (ℕ × ℤ)) (last linked : ℕ)
    → 0 < c.details.entry_price
    → incoming_key_for_remove outgoing ≡ some incoming
    → refresh incoming ≡ ok (meta, c, apply_samples c ((at, price) ∷ more) (fresh last))
    → linked_key_of meta ≡ some linked
    → c.key ≢ key linked
    → any_opens c.details.is_long c ((at, price) ∷ more) ≡ false
    → ((apply_samples c ((at, price) ∷ more) (fresh last)).entry_crossed ≡ true)
      × (ensure_derivative_removable key hedged refresh load outgoing ≡ ok tt)
ensure_derivative_removable-while_open key hedged refresh load outgoing incoming meta c at price
      more last linked p k r l d h =
    (
      ground (
        arith,
        apply_samples-entry_crossed c last ((at, price) ∷ more) p,
        unopened-reaches c at price more h,
      ),
      ground (
        arith,
        ensure_derivative_removable-unopened key hedged refresh load outgoing incoming meta c
            ((at, price) ∷ more) last p k r,
        own-canonical key meta c linked l d,
      ),
    )
