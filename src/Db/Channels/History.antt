-- ===== src/Db/Channels/History.antt =====
-- Which items of a channel's history a request gets.
use ton_payment_network.Base.{
  ℕ, ◌+◌, ◌<◌, ◌≡◌, refl, false, Option, none, some, arith, if◌then◌else◌, List, [], ◌∷◌,
}
use ton_payment_network.Db.Channels.{HistoryItem, is_earlier, history_loop, get_history}

abbrev pub keep_from : Option ℕ → List HistoryItem → List HistoryItem
keep_from after [] = []
keep_from after (h ∷ more) =
    let rest = keep_from after more in if is_earlier h.at after then rest else h ∷ rest

loop_all :
    (taken : ℕ) (after : Option ℕ) (items : List HistoryItem)
    → history_loop 0 taken none after items ≡ keep_from after items
unfolding history_loop
loop_all taken after [] = refl
loop_all taken after (h ∷ more) =
    ground (arith, loop_all taken after more, loop_all (1 + taken) after more)

-- Without an upper bound and a limit a request gets all items that are not before `after`, in their
-- order; with an upper bound that the newest of them is later than, it gets nothing, however many
-- items there are between the bounds.
get_history-bounds :
    (limit bound : ℕ) (after : Option ℕ) (h : HistoryItem) (more : List HistoryItem)
    → is_earlier h.at after ≡ false
    → bound < h.at
    → (get_history 0 none after (h ∷ more) ≡ keep_from after (h ∷ more))
      × (get_history limit (some bound) after (h ∷ more) ≡ [])
unfolding get_history history_loop
get_history-bounds limit bound after h more e late = (loop_all 0 after (h ∷ more), ground arith)
