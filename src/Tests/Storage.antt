-- ===== src/Tests/Storage.antt =====
-- Runs of the other storage: a pair of derivatives, a channel, its pending states and its history.
use ton_payment_network.Base.{
  ℕ, ◌≡◌, ◌≢◌, refl, Bool, true, false, Option, none, some, List, [], ◌∷◌, ok, err, arith, inr,
}
use ton_payment_network.Base.Dict.{lookup, insert, erase}
use ton_payment_network.Db.Metas.{
  Status, active, closed, Meta, MetaSide, MetaDb, sync_index, close_pair,
}
use ton_payment_network.Db.Metas.Index.{IsSynced, metas-IsSynced}
use ton_payment_network.Db.Channels.{
  Channel, version_mismatch, get_channel, update_channel, Saved, HistoryItem,
}
use ton_payment_network.Db.Channels.Versions.{update_channel-first_wins}
use ton_payment_network.Db.Channels.Pending.{IsOrdered}

abbrev all_fields : ℕ → Bool
all_fields d = true

abbrev side : MetaSide
side = record {
  channel_address = 1;
  conditional = 2;
  uncooperative_deadline = 3;
  safe_deadline = 4;
  sender_key = 5;
  linked_key = some 8;
}

abbrev meta : ℕ → Status → Option MetaSide → ℕ → Meta
meta key status incoming at = record {
  key = key;
  status = status;
  incoming = incoming;
  outgoing = none;
  last_known_resolve = none;
  final_destination = 0;
  special_details = some 1;
  created_at = 1;
  updated_at = at;
}

abbrev opened : MetaDb
opened = record {
  metas = (7, meta 7 active (some side) 1) ∷ (8, meta 8 active none 1) ∷ [];
  special = (7, 7) ∷ [];
}

abbrev done : MetaDb
done = record {
  metas = (7, meta 7 closed (some side) 2) ∷ (8, meta 8 closed none 2) ∷ [];
  special = [];
}

synced : IsSynced all_fields opened
unfolding lookup
synced = (λ k. ground arith, λ k m h. ground arith)

closes : close_pair all_fields 7 closed 2 opened ≡ ok done
unfolding close_pair sync_index lookup insert erase
closes = refl

metas-IsSynced_example : IsSynced all_fields done
metas-IsSynced_example =
    metas-IsSynced all_fields opened done (meta 7 active none 1) 7 2 closed synced
      (inr (inr closes))

abbrev channel : ℕ → ℕ → Channel ℕ
channel version body = record { address = 3; status = 1; db_version = version; body = body }

update_channel-first_wins_example :
    (get_channel 3 ((3, channel 60 10) ∷ []) ≡ ok (channel 60 10))
    × (update_channel 61 (channel 50 20) ((3, channel 60 10) ∷ []) ≡ err version_mismatch)
    × ((other : ℕ)
        → other ≢ 3
        → get_channel other ((3, channel 60 10) ∷ []) ≡ get_channel other ((3, channel 50 0) ∷ []))
unfolding update_channel get_channel lookup insert
update_channel-first_wins_example =
    update_channel-first_wins 60 61 (channel 50 10) (channel 50 20) ((3, channel 50 0) ∷ [])
      (record { channels = (3, channel 60 10) ∷ []; notified = (channel 60 10, false) }) refl refl
      (ground arith) refl

abbrev saved : List (Saved ℕ)
saved =
    record { seqno = 1; hash = 5; state = 0 }
    ∷ record { seqno = 2; hash = 6; state = 1 }
    ∷ record { seqno = 4; hash = 7; state = 2 }
    ∷ []

abbrev late : Saved ℕ
late = record { seqno = 3; hash = 9; state = 3 }

ordered : IsOrdered 0 saved
ordered = (omega arith, (omega arith, (omega arith, tt)))

abbrev item : ℕ → HistoryItem
item at = record { at = at; action = 1; payload = 0 }

abbrev history : List HistoryItem
history = item 30 ∷ item 20 ∷ item 10 ∷ []
