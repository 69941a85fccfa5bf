-- ===== src/Tests/Removals.antt =====
-- Removals of a long position entered at 100, on its two sides.
use ton_payment_network.Base.{
  ℕ, suc, ◌≡◌, refl, Bool, true, Option, none, some, List, [], ◌∷◌, Result, ok, err, arith,
}
use ton_payment_network.Base.Int.{ℤ, pos}
use ton_payment_network.Db.Metas.{active, Meta, MetaSide}
use ton_payment_network.Conditionals.Resolvable.Defs.{ConditionalResolvable}
use ton_payment_network.Monitor.{MonitorState, fresh, apply_samples}
use ton_payment_network.Monitor.Removal.{
  RefreshError, already_opened, incoming_key_for_remove, canonical_is_long,
  ensure_derivative_removable,
}
use ton_payment_network.Monitor.Removal.Opened.{ensure_derivative_removable-unopened}
use ton_payment_network.Monitor.Removal.Sides.{ensure_derivative_removable-while_open}
use ton_payment_network.Tests.Fixtures.{position}

-- The key that is derived from the key k
abbrev key_of : ℕ → ℕ
key_of k = suc k

abbrev side : ℕ → MetaSide
side linked = record {
  channel_address = 1;
  conditional = 2;
  uncooperative_deadline = 3;
  safe_deadline = 4;
  sender_key = 5;
  linked_key = some linked;
}

abbrev meta : ℕ → Option MetaSide → Option MetaSide → Meta
meta key incoming outgoing = record {
  key = key;
  status = active;
  incoming = incoming;
  outgoing = outgoing;
  last_known_resolve = none;
  final_destination = 0;
  special_details = some 1;
  created_at = 7;
  updated_at = 7;
}

abbrev hedged : Meta → Bool
hedged m = true

abbrev load : ℕ → Result RefreshError Meta
load key = ok (meta key none none)

-- The position's key is 11, and the linked conditional's key is 12.
abbrev outgoing : Meta
outgoing = meta 12 none (some (side 11))

abbrev incoming : Meta
incoming = meta 11 (some (side 12)) none

abbrev above : List (ℕ × ℤ)
above = (1, pos 104) ∷ (2, pos 140) ∷ []

abbrev below : List (ℕ × ℤ)
below = (1, pos 104) ∷ (2, pos 90) ∷ []

abbrev watched :
    Meta
    → ConditionalResolvable
    → List (ℕ × ℤ)
    → ℕ
    → Result RefreshError (Meta × ConditionalResolvable × MonitorState)
watched m c samples key = ok (m, c, apply_samples c samples (fresh 0))

ensure_derivative_removable-unopened_example :
    ensure_derivative_removable key_of hedged (watched incoming position below) load outgoing
    ≡ err already_opened
unfolding incoming_key_for_remove canonical_is_long
ensure_derivative_removable-unopened_example =
    ensure_derivative_removable-unopened key_of hedged (watched incoming position below) load
      outgoing 11 incoming position below 0 (ground arith) refl refl

ensure_derivative_removable-while_open_example :
    ((apply_samples position above (fresh 0)).entry_crossed ≡ true)
    × (ensure_derivative_removable key_of hedged (watched incoming position above) load outgoing
        ≡ ok tt)
unfolding incoming_key_for_remove
ensure_derivative_removable-while_open_example =
    ensure_derivative_removable-while_open key_of hedged (watched incoming position above) load
      outgoing 11 incoming position 1 (pos 104) ((2, pos 140) ∷ []) 0 12 (ground arith) refl refl
      refl (ground arith) refl
