-- ===== src/Db/Tasks/Scan.antt =====
-- The loop of `AcquireTask`: what each verdict means, and what the loop takes.
use ton_payment_network.Base.{
  ℕ, ◌≤◌, ◌≡◌, ◌≢◌, ◌⊎◌, refl, true, false, Option, none, some, Option-cases, Bool-cases, List, [],
  ◌∷◌, Result, ok, err, arith, inl, inr, ◌==◌,
}
use ton_payment_network.Base.Dict.{Dict, lookup, insert, lookup-insert}
use ton_payment_network.Db.{DbError}
use ton_payment_network.Db.Tasks.{
  Task, Entry, is_after, is_before, is_locked, Verdict, not_due, skipped, missing, done, busy,
  expired, ready, contains, judge, verdict, keep, scan,
}

abbrev pub IsEntry : Dict Task → Entry → Type 0
IsEntry tasks e =
    (t : Task) × (lookup e.id tasks ≡ some t)
    × (t.id ≡ e.id)
    × (t.queue ≡ e.queue)
    × (t.execute_after ≡ e.at)

abbrev pub IsAll : (Entry → Type 0) → List Entry → Type 0
IsAll own [] = Unit
IsAll own (e ∷ more) = own e × IsAll own more

-- Every entry leads to the task that it was made for.
abbrev pub IsIndexed : Dict Task → List Entry → Type 0
IsIndexed tasks index = IsAll (IsEntry tasks) index

pub owner :
    (tasks : Dict Task) (e : Entry)
    → IsEntry tasks e
    → (u : Task) → lookup e.id tasks ≡ some u
    → (u.id ≡ e.id) × (u.queue ≡ e.queue) × (u.execute_after ≡ e.at)
owner tasks e (t, l, i, q, a) u m = ground arith

-- A task that the loop may take: due, not completed, not held, not waiting, not expired.
abbrev pub IsReady : ℕ → ℕ → Task → Type 0
IsReady started now t =
    (t.execute_after ≤ now)
    × (t.completed_at ≡ none)
    × (is_locked started now t ≡ false)
    × (is_after t.re_execute_after now ≡ false)
    × (is_before t.execute_till now ≡ false)

pub judge-ready :
    (started now : ℕ) (t u : Task)
    → judge started now t ≡ ready u
    → (u ≡ t)
      × (t.completed_at ≡ none)
      × (is_locked started now t ≡ false)
      × (is_after t.re_execute_after now ≡ false)
      × (is_before t.execute_till now ≡ false)
unfolding judge
judge-ready started now t u h = ground (arith, Option-cases t.completed_at)

pub Verdict-cases :
    (v : Verdict)
    → (v ≡ not_due)
      ⊎ (v ≡ skipped)
      ⊎ (v ≡ missing)
      ⊎ (v ≡ done)
      ⊎ (v ≡ expired)
      ⊎ ((q : ℕ) × (v ≡ busy q))
      ⊎ ((t : Task) × (v ≡ ready t))
Verdict-cases not_due = inl refl
Verdict-cases skipped = inr (inl refl)
Verdict-cases missing = inr (inr (inl refl))
Verdict-cases done = inr (inr (inr (inl refl)))
Verdict-cases expired = inr (inr (inr (inr (inl refl))))
Verdict-cases (busy q) = inr (inr (inr (inr (inr (inl (q, refl))))))
Verdict-cases (ready t) = inr (inr (inr (inr (inr (inr (t, refl))))))

abbrev pub taken : Result DbError (Option Task × List Entry) → Option Task
taken (ok (t, index)) = t
taken (err e) = none

pub taken-keep :
    (e : Entry) (r : Result DbError (Option Task × List Entry)) → taken (keep e r) ≡ taken r
taken-keep e (ok (t, index)) = refl
taken-keep e (err x) = refl

module _ (started now : ℕ) (tasks : Dict Task) where
  pub verdict-ready :
      (skip : List ℕ) (e : Entry) (u : Task)
      → verdict started now tasks skip e ≡ ready u
      → (lookup e.id tasks ≡ some u)
        × (e.at ≤ now)
        × (contains e.queue skip ≡ false)
        × (judge started now u ≡ ready u)
  unfolding verdict
  verdict-ready skip e u h = elim (Option-cases (lookup e.id tasks)) [
    | inl nil ↦ absurd (ground arith)
    | inr (t, q) ↦ ground (arith, judge-ready started now t u)
  ]

  pub verdict-shut :
      (skip : List ℕ) (e : Entry) (u : Task)
      → lookup e.id tasks ≡ some u
      → (verdict started now tasks skip e ≡ skipped → contains e.queue skip ≡ true)
        × (verdict started now tasks skip e ≡ done → u.completed_at ≢ none)
        × ((q : ℕ) → verdict started now tasks skip e ≡ busy q → q ≡ u.queue)
  unfolding verdict judge
  verdict-shut skip e u l = (ground arith, ground arith, λ q v. ground arith)

  pub scan-takes :
      (skip : List ℕ) (index : List Entry) (u : Task)
      → IsIndexed tasks index
      → taken (scan started now tasks skip index) ≡ some u
      → IsReady started now u × (contains u.queue skip ≡ false) × (lookup u.id tasks ≡ some u)
  unfolding scan
  scan-takes skip [] u w h = absurd (ground arith)
  scan-takes skip (e ∷ more) u w h = elim (Verdict-cases (verdict started now tasks skip e)) [
    | inl v ↦ absurd (ground arith)
    | inr (inl v) ↦
        scan-takes skip more u (w.1)
          (ground (arith, taken-keep e (scan started now tasks skip more)))
    | inr (inr (inl v)) ↦ absurd (ground arith)
    | inr (inr (inr (inl v))) ↦
        scan-takes skip more u (w.1)
          (ground (arith, taken-keep e (scan started now tasks skip more)))
    | inr (inr (inr (inr (inl v)))) ↦ scan-takes skip more u (w.1) (ground arith)
    | inr (inr (inr (inr (inr (inl (q, v)))))) ↦
        let (r, c, l) =
          scan-takes (q ∷ skip) more u (w.1)
            (ground (arith, taken-keep e (scan started now tasks (q ∷ skip) more))) in
        (r, ground arith, l)
    | inr (inr (inr (inr (inr (inr (t, v)))))) ↦
        ground (arith, verdict-ready skip e t v, judge-ready started now t t, owner tasks e (w.0) t)
  ]

  pub scan_step :
      (skip : List ℕ) (e : Entry) (more : List Entry) (u : Task)
      → taken (scan started now tasks skip (e ∷ more)) ≡ some u
      → ((skip' : List ℕ) × (taken (scan started now tasks skip' more) ≡ some u))
        ⊎ (verdict started now tasks skip e ≡ ready u)
  unfolding scan
  scan_step skip e more u h = elim (Verdict-cases (verdict started now tasks skip e)) [
    | inl v ↦ absurd (ground arith)
    | inr (inl v) ↦ inl (skip, ground (arith, taken-keep e (scan started now tasks skip more)))
    | inr (inr (inl v)) ↦ absurd (ground arith)
    | inr (inr (inr (inl v))) ↦
        inl (skip, ground (arith, taken-keep e (scan started now tasks skip more)))
    | inr (inr (inr (inr (inl v)))) ↦ inl (skip, ground arith)
    | inr (inr (inr (inr (inr (inl (q, v)))))) ↦
        inl (q ∷ skip, ground (arith, taken-keep e (scan started now tasks (q ∷ skip) more)))
    | inr (inr (inr (inr (inr (inr (t, v)))))) ↦ inr (ground arith)
  ]

pub keep-ok :
    (e : Entry) (r : Result DbError (Option Task × List Entry)) (o : Option Task)
    (left : List Entry)
    → keep e r ≡ ok (o, left)
    → (left' : List Entry) × (r ≡ ok (o, left')) × (left ≡ e ∷ left')
keep-ok e (ok (t, index)) o left h = (index, ground arith, ground arith)
keep-ok e (err x) o left h = absurd (ground arith)

pub entry-insert :
    (tasks : Dict Task) (id : ℕ) (t t' : Task) (e : Entry)
    → lookup id tasks ≡ some t
    → t'.id ≡ id
    → t'.queue ≡ t.queue
    → t'.execute_after ≡ t.execute_after
    → IsEntry tasks e
    → IsEntry (insert id t' tasks) e
entry-insert tasks id t t' e l a b c (x, m, i, q, d) =
    let read = lookup-insert e.id id t' tasks in
    elim (Bool-cases (e.id == id)) [
      | inl same ↦ (t', ground arith, ground arith, ground arith, ground arith)
      | inr other ↦ (x, ground arith, i, q, d)
    ]

pub IsIndexed-insert :
    (tasks : Dict Task) (id : ℕ) (t t' : Task) (index : List Entry)
    → lookup id tasks ≡ some t
    → t'.id ≡ id
    → t'.queue ≡ t.queue
    → t'.execute_after ≡ t.execute_after
    → IsIndexed tasks index
    → IsIndexed (insert id t' tasks) index
IsIndexed-insert tasks id t t' [] l a b c w = tt
IsIndexed-insert tasks id t t' (e ∷ more) l a b c w =
    (entry-insert tasks id t t' e l a b c (w.0), IsIndexed-insert tasks id t t' more l a b c (w.1))

-- The loop keeps entries or drops them, so what is true of every entry stays so.
module _ (started now : ℕ) (tasks : Dict Task) where
  pub scan-IsAll :
      (skip : List ℕ) (index left : List Entry) (o : Option Task) (own : Entry → Type 0)
      → IsAll own index
      → scan started now tasks skip index ≡ ok (o, left)
      → IsAll own left
  unfolding scan
  scan-IsAll skip [] left o own w h = let nothing : left ≡ [] = ground arith in rw (nothing) tt
  scan-IsAll skip (e ∷ more) left o own w h =
      let whole : left ≡ e ∷ more → IsAll own left = λ same. rw (same) w in
      let kept : (s : List ℕ)
          → keep e (scan started now tasks s more) ≡ ok (o, left)
          → IsAll own left =
        λ s k.
          let (left', again, same) = keep-ok e _ o left k in
          rw (same) (w.0, scan-IsAll s more left' o own (w.1) again) in
      elim (Verdict-cases (verdict started now tasks skip e)) [
        | inl v ↦ whole (ground arith)
        | inr (inl v) ↦ kept skip (ground arith)
        | inr (inr (inl v)) ↦ absurd (ground arith)
        | inr (inr (inr (inl v))) ↦ kept skip (ground arith)
        | inr (inr (inr (inr (inl v)))) ↦ scan-IsAll skip more left o own (w.1) (ground arith)
        | inr (inr (inr (inr (inr (inl (q, v)))))) ↦ kept (q ∷ skip) (ground arith)
        | inr (inr (inr (inr (inr (inr (t, v)))))) ↦ whole (ground arith)
      ]
