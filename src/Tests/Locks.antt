-- ===== src/Tests/Locks.antt =====
-- Runs of the locks: the master of the channels 1 and 2, whose other parties have the keys 7 and 8.
use ton_payment_network.Base.{◌≡◌, refl, true, false, none, some, [], ◌∷◌, ok, arith}
use ton_payment_network.Base.Int.{pos, negsuc}
use ton_payment_network.Base.Dict.{lookup, insert}
use ton_payment_network.Locks.{
  local, Node, lock_at, release, acquire_channel, process_external_lock,
}
use ton_payment_network.Locks.Holding.{process_external_lock-frees_any}
use ton_payment_network.Locks.Parties.{
  Parties, Move, left_takes, left_drops, right_takes, Moves, stay, move,
}
use ton_payment_network.Locks.Exclusion.{Moves-exclusive}

abbrev free : Node
free = record {
  channels =
      (1, record { we_left = true; their_key = 7 })
      ∷ (2, record { we_left = true; their_key = 8 })
      ∷ [];
  locks = [];
  external = none;
}

abbrev own : Node
own = record free { locks = (1, record { held = true; id = pos 5 }) ∷ [] }

abbrev dropped : Node
dropped = record free { locks = (1, record { held = false; id = pos 5 }) ∷ [] }

abbrev lent : Node
lent = record free {
  locks = (1, record { held = true; id = negsuc 8 }) ∷ [];
  external = some (local 1);
}

takes : acquire_channel 1 none 5 none free ≡ (own, ok (local 1))
unfolding acquire_channel lookup insert
takes = refl

lends : process_external_lock 7 1 (pos 9) true 6 dropped ≡ (lent, ok tt)
unfolding process_external_lock acquire_channel lookup insert
lends = refl

-- The party of the channel 2 unlocks the channel 1.
process_external_lock-frees_any_example :
    ((process_external_lock 8 2 (pos 3) false 9 lent).1 ≡ ok tt)
    × ((process_external_lock 8 2 (pos 3) false 9 lent).0.external ≡ none)
    × ((lock_at 1 (process_external_lock 8 2 (pos 3) false 9 lent).0).held ≡ false)
unfolding lookup
process_external_lock-frees_any_example =
    process_external_lock-frees_any 8 2 1 (pos 3) 9 lent (record { we_left = true; their_key = 8 })
      (omega arith) refl refl refl refl

abbrev start : Parties
start = record { left = free; left_holds = false; right_holds = false }

abbrev after_own : Parties
after_own = record { left = own; left_holds = true; right_holds = false }

abbrev after_drop : Parties
after_drop = record { left = dropped; left_holds = false; right_holds = false }

abbrev after_lent : Parties
after_lent = record { left = lent; left_holds = false; right_holds = true }

drops : Move 1 7 after_own after_drop
unfolding release lookup insert
drops = left_drops refl

moves : Moves 1 7 start after_lent
moves =
    move (left_takes 5 none (local 1) refl takes)
      (move drops (move (right_takes (pos 9) 6 lends) stay))

Moves-exclusive_example :
    (after_lent.left_holds ≡ true → after_lent.right_holds ≡ false)
    × (after_lent.right_holds ≡ true → after_lent.left_holds ≡ false)
unfolding lookup
Moves-exclusive_example = Moves-exclusive 1 7 start after_lent refl refl refl refl moves
