-- ===== src/Db/Channels/Pending.antt =====
-- The states that wait for a signature: what is read back after saving and cleaning up.
use ton_payment_network.Base.{
  ℕ, ◌≤◌, ◌<◌, ◌≡◌, refl, Bool, true, false, ◌&&◌, ◌||◌, Option, none, some, arith, leb, ltb, ◌==◌,
  if◌then◌else◌, List, [], ◌∷◌,
}
use ton_payment_network.Db.Channels.{
  Saved, is_at, get_pending, put_pending, save_pending, delete_pending, drop_older, cleanup_pending,
  saved_before,
}

module _ {State : Type 0} where
  -- Seqnos do not fall along the list, and the first is at least `from`.
  abbrev pub IsOrdered : ℕ → List (Saved State) → Type 0
  IsOrdered from [] = Unit
  IsOrdered from (s ∷ more) = (from ≤ s.seqno) × IsOrdered s.seqno more

  get-put_pending :
      (seqno hash : ℕ) (s : Saved State) (saved : List (Saved State))
      → get_pending s.seqno s.hash saved ≡ none
      → get_pending seqno hash (put_pending s saved)
        ≡ (if is_at seqno hash s then some s.state else get_pending seqno hash saved)
  unfolding get_pending put_pending
  get-put_pending seqno hash s [] n = refl
  get-put_pending seqno hash s (p ∷ more) n = ground (arith, get-put_pending seqno hash s more)

  get-delete_pending :
      (i j seqno hash : ℕ) (saved : List (Saved State))
      → get_pending i j (delete_pending seqno hash saved)
        ≡ (if i == seqno && j == hash then none else get_pending i j saved)
  unfolding get_pending delete_pending
  get-delete_pending i j seqno hash [] = ground arith
  get-delete_pending i j seqno hash (s ∷ more) =
      ground (arith, get-delete_pending i j seqno hash more)

  get-below :
      (i j from : ℕ) (saved : List (Saved State))
      → IsOrdered from saved
      → i < from
      → get_pending i j saved ≡ none
  unfolding get_pending
  get-below i j from [] w h = refl
  get-below i j from (s ∷ more) w h = ground (arith, get-below i j s.seqno more)

  get-drop_older :
      (i j seqno from : ℕ) (saved : List (Saved State))
      → IsOrdered from saved
      → get_pending i j (drop_older seqno saved)
        ≡ (if ltb i seqno then none else get_pending i j saved)
  unfolding get_pending drop_older
  get-drop_older i j seqno from [] w = ground arith
  get-drop_older i j seqno from (s ∷ more) w =
      ground (arith, get-drop_older i j seqno s.seqno more, get-below i j s.seqno more)

  lower :
      (from to : ℕ) (saved : List (Saved State))
      → to ≤ from
      → IsOrdered from saved
      → IsOrdered to saved
  lower from to [] h w = tt
  lower from to (s ∷ more) h w = (omega arith, w.1)

  IsOrdered-if :
      (from : ℕ) (b : Bool) (x y : List (Saved State))
      → (b ≡ true → IsOrdered from x)
      → (b ≡ false → IsOrdered from y)
      → IsOrdered from (if b then x else y)
  IsOrdered-if from true x y h k = h refl
  IsOrdered-if from false x y h k = k refl

  put_pending-IsOrdered :
      (from : ℕ) (s : Saved State) (saved : List (Saved State))
      → from ≤ s.seqno
      → IsOrdered from saved
      → IsOrdered from (put_pending s saved)
  unfolding put_pending
  put_pending-IsOrdered from s [] h w = (h, tt)
  put_pending-IsOrdered from s (p ∷ more) h w =
      IsOrdered-if from (saved_before s.seqno s.hash p) _ _ (λ b. (h, (ground arith, w.1)))
        (λ b. (w.0, put_pending-IsOrdered p.seqno s more (ground arith) (w.1)))

  delete_pending-IsOrdered :
      (from seqno hash : ℕ) (saved : List (Saved State))
      → IsOrdered from saved
      → IsOrdered from (delete_pending seqno hash saved)
  unfolding delete_pending
  delete_pending-IsOrdered from seqno hash [] w = tt
  delete_pending-IsOrdered from seqno hash (s ∷ more) w =
      let rest = delete_pending-IsOrdered s.seqno seqno hash more (w.1) in
      IsOrdered-if from (is_at seqno hash s) _ _ (λ b. lower s.seqno from _ (w.0) rest)
        (λ b. (w.0, rest))

  drop_older-IsOrdered :
      (from seqno : ℕ) (saved : List (Saved State))
      → IsOrdered from saved
      → IsOrdered from (drop_older seqno saved)
  unfolding drop_older
  drop_older-IsOrdered from seqno [] w = tt
  drop_older-IsOrdered from seqno (s ∷ more) w =
      IsOrdered-if from (leb seqno s.seqno) _ _ (λ b. w)
        (λ b. lower s.seqno from _ (w.0) (drop_older-IsOrdered s.seqno seqno more (w.1)))

  -- Saving a state: it is read back under its seqno and hash, unless another one was saved there
  -- before, which stays; no other key changes, and the order of the keys is kept.
  pub save_pending-get :
      (s : Saved State) (saved : List (Saved State))
      → IsOrdered 0 saved
      → ((seqno hash : ℕ)
          → get_pending seqno hash (save_pending s saved) ≡ (
              if is_at seqno hash s
              then elim (get_pending s.seqno s.hash saved) [
                | some old ↦ some old
                | none ↦ some s.state
              ]
              else get_pending seqno hash saved))
        × IsOrdered 0 (save_pending s saved)
  unfolding save_pending
  save_pending-get s saved w = go (get_pending s.seqno s.hash saved) refl
    where
      go :
          (o : Option State)
          → get_pending s.seqno s.hash saved ≡ o
          → ((seqno hash : ℕ)
              → get_pending seqno hash (elim o [ some old ↦ saved | none ↦ put_pending s saved ])
                ≡ (if is_at seqno hash s
                    then elim o [ some old ↦ some old | none ↦ some s.state ]
                    else get_pending seqno hash saved))
            × IsOrdered 0 (elim o [ some old ↦ saved | none ↦ put_pending s saved ])
      go (some old) e = (λ i j. ground (arith, e), w)
      go none e = (
        λ i j. ground (arith, get-put_pending i j s saved e),
        put_pending-IsOrdered 0 s saved (ground arith) w,
      )

  -- Cleaning up after a body: its own state and the states of all smaller seqnos are gone, every
  -- other one is still there, and the order of the keys is kept.
  cleanup_pending-get :
      (seqno hash : ℕ) (saved : List (Saved State))
      → IsOrdered 0 saved
      → ((i j : ℕ)
          → get_pending i j (cleanup_pending seqno hash saved)
            ≡ (if ltb i seqno || (i == seqno && j == hash) then none else get_pending i j saved))
        × IsOrdered 0 (cleanup_pending seqno hash saved)
  unfolding cleanup_pending
  cleanup_pending-get seqno hash saved w =
      let left = delete_pending-IsOrdered 0 seqno hash saved w in
      (
        λ i j. ground (
          arith,
          get-drop_older i j seqno 0 (delete_pending seqno hash saved) left,
          get-delete_pending i j seqno hash saved,
        ),
        drop_older-IsOrdered 0 seqno _ left,
      )
