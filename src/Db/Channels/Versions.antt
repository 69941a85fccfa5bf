-- ===== src/Db/Channels/Versions.antt =====
-- Two workers that change one channel: the version lets only the first through.
use ton_payment_network.Base.{ℕ, ◌≡◌, ◌≢◌, Option-cases, ok, err, arith, inl, inr}
use ton_payment_network.Base.Dict.{Dict, lookup, insert, lookup-insert}
use ton_payment_network.Db.Channels.{
  Channel, version_mismatch, Written, get_channel, update_channel,
}

-- No update is lost: of two updates that were made from one version, the first to be stored can be
-- read back whole, with its new version, and makes the second fail, when the clock has moved since
-- that version; the second one's error leaves the channel as the first one stored it.
pub update_channel-first_wins :
    {Body : Type 0} (now later : ℕ) (a b : Channel Body) (channels : Dict (Channel Body))
    (w : Written Body)
    → b.address ≡ a.address
    → b.db_version ≡ a.db_version
    → now ≢ a.db_version
    → update_channel now a channels ≡ ok w
    → (get_channel a.address w.channels ≡ ok (record a { db_version = now }))
      × (update_channel later b w.channels ≡ err version_mismatch)
      × ((other : ℕ)
          → other ≢ a.address
          → get_channel other w.channels ≡ get_channel other channels)
unfolding update_channel get_channel
update_channel-first_wins now later a b channels w i v moved h =
    elim (Option-cases (lookup a.address channels)) [
      | inl nil ↦ absurd (ground arith)
      | inr (cur, e) ↦
          let stored = record a { db_version = now } in
          let new : w.channels ≡ insert a.address stored channels = ground arith in
          (
            ground (arith, lookup-insert a.address a.address stored channels),
            ground (arith, lookup-insert b.address a.address stored channels),
            λ other ne. ground (arith, lookup-insert other a.address stored channels),
          )
    ]
