-- ===== src/Db/Tasks/Held.antt =====
-- The queue of a task that is held: what the index looks like until it is given back.
use ton_payment_network.Base.{
  ℕ, ◌+◌, ◌<◌, ◌≡◌, ◌≢◌, ◌⊎◌, refl, Bool, true, false, Option, none, some, List, [], ◌∷◌, ok, arith,
  inl, inr, ap, sym, if◌then◌else◌,
}
use ton_payment_network.Base.Dict.{Dict, lookup, insert, lookup-insert}
use ton_payment_network.Db.Tasks.{
  Task, Entry, same_key, key_before, put_index, delete_index, is_locked, not_due, skipped, busy,
  contains, judge, verdict, keep, scan, lock_time,
}
use ton_payment_network.Db.Tasks.Scan.{
  IsEntry, IsIndexed, owner, taken, judge-ready, verdict-ready, Verdict-cases, taken-keep,
  scan-takes, scan_step, keep-ok, verdict-shut,
}

abbrev IsDone : Dict Task → ℕ → Type 0
IsDone tasks id = (t : Task) × (lookup id tasks ≡ some t) × (t.completed_at ≢ none)

-- What stands before the entry of the task `id` in its queue `q` is completed.
abbrev pub IsShut : ℕ → ℕ → Dict Task → List Entry → Type 0
IsShut q id tasks [] = Unit
IsShut q id tasks (e ∷ more) =
    (e.id ≡ id) ⊎ ((e.queue ≡ q → IsDone tasks e.id) × IsShut q id tasks more)

-- A change of a task of another queue, or a new one, leaves it so.
pub IsShut-insert :
    (q id k : ℕ) (t : Task) (tasks : Dict Task) (index : List Entry)
    → ((x : Task) → lookup k tasks ≡ some x → x.queue ≢ q)
    → IsIndexed tasks index
    → IsShut q id tasks index
    → IsShut q id (insert k t tasks) index
IsShut-insert q id k t tasks [] other w s = tt
IsShut-insert q id k t tasks (e ∷ more) other w (inl here) = inl here
IsShut-insert q id k t tasks (e ∷ more) other w (inr (done', s)) = inr (
  λ i.
      let (x, l, c) = done' i in
      let mine = owner tasks e (w.0) x l in
      let apart : e.id ≢ k = λ same. ground (arith, other x) in
      (x, ground (arith, lookup-insert e.id k t tasks), c),
  IsShut-insert q id k t tasks more other (w.1) s,
)

-- So does a change of the task itself, while it is open.
pub IsShut-own :
    (q id : ℕ) (t old : Task) (tasks : Dict Task) (index : List Entry)
    → lookup id tasks ≡ some old
    → old.completed_at ≡ none
    → IsIndexed tasks index
    → IsShut q id tasks index
    → IsShut q id (insert id t tasks) index
IsShut-own q id t old tasks [] l c w s = tt
IsShut-own q id t old tasks (e ∷ more) l c w (inl here) = inl here
IsShut-own q id t old tasks (e ∷ more) l c w (inr (done', s)) = inr (
  λ i.
      let (x, m, d) = done' i in
      let apart : e.id ≢ id = λ same. ground arith in
      (x, ground (arith, lookup-insert e.id id t tasks), d),
  IsShut-own q id t old tasks more l c (w.1) s,
)

IsShut-if :
    (q id : ℕ) (tasks : Dict Task) (b : Bool) (x y : List Entry)
    → (b ≡ true → IsShut q id tasks x)
    → IsShut q id tasks y
    → IsShut q id tasks (if b then x else y)
IsShut-if q id tasks true x y h k = h refl
IsShut-if q id tasks false x y h k = k

module _ (q id : ℕ) (tasks : Dict Task)
    (mine : (x : Task) → lookup id tasks ≡ some x → x.queue ≡ q) where
  own_queue : (e : Entry) → IsEntry tasks e → e.id ≡ id → e.queue ≡ q
  own_queue e (x, l, i, qs, a) same = ground (arith, mine x)

  pub IsShut-put_index :
      (e : Entry) (index : List Entry)
      → e.queue ≢ q
      → IsIndexed tasks index
      → IsShut q id tasks index
      → IsShut q id tasks (put_index e index)
  unfolding put_index
  IsShut-put_index e [] other w s = inr (λ i. absurd (other i), tt)
  IsShut-put_index e (f ∷ more) other w s =
      IsShut-if q id tasks (same_key e f) _ _
        (λ same. elim s [
          | inl here ↦ let same_queue = own_queue f (w.0) here in absurd (ground arith)
          | inr (done', rest) ↦ inr (λ i. absurd (other i), rest)
        ])
        (IsShut-if q id tasks (key_before e f) _ _ (λ first. inr (λ i. absurd (other i), s))
          (elim s [
            | inl here ↦ inl here
            | inr (done', rest) ↦ inr (done', IsShut-put_index e more other (w.1) rest)
          ]))

  pub IsShut-delete_index :
      (e : Entry) (index : List Entry)
      → e.queue ≢ q
      → IsIndexed tasks index
      → IsShut q id tasks index
      → IsShut q id tasks (delete_index e index)
  unfolding delete_index
  IsShut-delete_index e [] other w s = tt
  IsShut-delete_index e (f ∷ more) other w s =
      IsShut-if q id tasks (same_key e f) _ _
        (λ same. elim s [
          | inl here ↦ let same_queue = own_queue f (w.0) here in absurd (ground arith)
          | inr (done', rest) ↦ IsShut-delete_index e more other (w.1) rest
        ])
        (elim s [
          | inl here ↦ inl here
          | inr (done', rest) ↦ inr (done', IsShut-delete_index e more other (w.1) rest)
        ])

-- The loop that takes a task leaves the index shut for the task's queue.
pub scan-IsShut :
    (started now : ℕ) (tasks : Dict Task) (skip : List ℕ) (index left : List Entry) (t : Task)
    → IsIndexed tasks index
    → scan started now tasks skip index ≡ ok (some t, left)
    → IsShut t.queue t.id tasks left
unfolding scan
scan-IsShut started now tasks skip [] left t w h = absurd (ground arith)
scan-IsShut started now tasks skip (e ∷ more) left t w h =
    let kept : (s : List ℕ)
        → keep e (scan started now tasks s more) ≡ ok (some t, left)
        → (contains t.queue s ≡ false → e.queue ≡ t.queue → IsDone tasks e.id)
        → IsShut t.queue t.id tasks left =
      λ s k before.
        let (left', again, same) = keep-ok e _ (some t) left k in
        let (r, c, l) = scan-takes started now tasks s more t (w.1) (ap taken again) in
        rw (same) (inr (before c, scan-IsShut started now tasks s more left' t (w.1) again)) in
    elim (Verdict-cases (verdict started now tasks skip e)) [
      | inl v ↦ absurd (ground arith)
      | inr (inl v) ↦
          let (x, l, i, qs, a) = w.0 in
          kept skip (ground arith)
            (λ c z. absurd (ground (arith, verdict-shut started now tasks skip e x l)))
      | inr (inr (inl v)) ↦ absurd (ground arith)
      | inr (inr (inr (inl v))) ↦
          let (x, l, i, qs, a) = w.0 in
          kept skip (ground arith) (λ c z. (x, l, (verdict-shut started now tasks skip e x l).1 v))
      | inr (inr (inr (inr (inl v)))) ↦
          scan-IsShut started now tasks skip more left t (w.1) (ground arith)
      | inr (inr (inr (inr (inr (inl (p, v)))))) ↦
          let (x, l, i, qs, a) = w.0 in
          kept (p ∷ skip) (ground arith) (λ c z. absurd (
            ground
              (arith, (verdict-shut started now tasks skip e x l).2 p v, owner tasks e (w.0) x l)))
      | inr (inr (inr (inr (inr (inr (t', v)))))) ↦
          let at = verdict-ready started now tasks skip e t' v in
          let same : t' ≡ t = ground arith in
          let whole : left ≡ e ∷ more = ground arith in
          let l : lookup e.id tasks ≡ some t = ground arith in
          rw (whole) (inl (sym (owner tasks e (w.0) t l).0))
    ]

module _ (started now later : ℕ) (h : Task) (running : started < now)
    (open' : h.completed_at ≡ none) (at : h.locked_at ≡ some now)
    (till : h.locked_till ≡ some (now + lock_time)) (soon : later < now + lock_time)
    (tasks : Dict Task) (stored : lookup h.id tasks ≡ some h) where
  held_judge : judge started later h ≡ busy h.queue
  unfolding judge is_locked
  held_judge = ground arith

  held_verdict :
      (skip : List ℕ) (e : Entry)
      → e.id ≡ h.id
      → (verdict started later tasks skip e ≡ not_due)
        ⊎ ((verdict started later tasks skip e ≡ skipped) × (contains e.queue skip ≡ true))
        ⊎ (verdict started later tasks skip e ≡ busy h.queue)
  unfolding verdict
  held_verdict skip e i = ground (arith, held_judge)

  -- Where the index is shut for the queue of the held task, nothing of it is taken,
  pub shut-taken :
      (skip : List ℕ) (index : List Entry) (u : Task)
      → IsIndexed tasks index
      → IsShut h.queue h.id tasks index
      → taken (scan started later tasks skip index) ≡ some u
      → u.queue ≢ h.queue
  unfolding scan
  shut-taken skip [] u w s k = absurd (ground arith)
  shut-taken skip (e ∷ more) u w (inl here) k =
      let own = owner tasks e (w.0) h (ground arith) in
      let same = λ (s : List ℕ). taken-keep e (scan started later tasks s more) in
      elim (held_verdict skip e here) [
        | inl v ↦ absurd (ground arith)
        | inr (inl (v, c)) ↦
            let (r, d, l) =
              scan-takes started later tasks skip more u (w.1) (ground (arith, same skip)) in
            ground arith
        | inr (inr v) ↦
            let (r, d, l) =
              scan-takes started later tasks (h.queue ∷ skip) more u (w.1)
                (ground (arith, same (h.queue ∷ skip))) in
            ground arith
      ]
  shut-taken skip (e ∷ more) u w (inr (before, s)) k =
      elim (scan_step started later tasks skip e more u k) [
        | inl (skip', x) ↦ shut-taken skip' more u (w.1) s x
        | inr v ↦ λ same.
            let (l, due, c, j) = verdict-ready started later tasks skip e u v in
            let own = owner tasks e (w.0) u l in
            let (x, m, d) = before (ground arith) in ground (arith, judge-ready started later u u j)
      ]

  -- and the index stays shut.
  pub IsShut-left :
      (skip : List ℕ) (index left : List Entry) (o : Option Task)
      → IsShut h.queue h.id tasks index
      → scan started later tasks skip index ≡ ok (o, left)
      → IsShut h.queue h.id tasks left
  unfolding scan
  IsShut-left skip [] left o s k = let nothing : left ≡ [] = ground arith in rw (nothing) tt
  IsShut-left skip (e ∷ more) left o (inl here) k =
      let kept : (s : List ℕ)
          → keep e (scan started later tasks s more) ≡ ok (o, left)
          → IsShut h.queue h.id tasks left =
        λ s x. let (left', again, same) = keep-ok e _ o left x in rw (same) (inl here) in
      elim (held_verdict skip e here) [
        | inl v ↦ let whole : left ≡ e ∷ more = ground arith in rw (whole) (inl here)
        | inr (inl (v, c)) ↦ kept skip (ground arith)
        | inr (inr v) ↦ kept (h.queue ∷ skip) (ground arith)
      ]
  IsShut-left skip (e ∷ more) left o (inr (before, s)) k =
      let whole : left ≡ e ∷ more → IsShut h.queue h.id tasks left =
        λ same. rw (same) (inr (before, s)) in
      let kept : (p : List ℕ)
          → keep e (scan started later tasks p more) ≡ ok (o, left)
          → IsShut h.queue h.id tasks left =
        λ p x.
          let (left', again, same) = keep-ok e _ o left x in
          rw (same) (inr (before, IsShut-left p more left' o s again)) in
      elim (Verdict-cases (verdict started later tasks skip e)) [
        | inl v ↦ whole (ground arith)
        | inr (inl v) ↦ kept skip (ground arith)
        | inr (inr (inl v)) ↦ absurd (ground arith)
        | inr (inr (inr (inl v))) ↦ kept skip (ground arith)
        | inr (inr (inr (inr (inl v)))) ↦ IsShut-left skip more left o s (ground arith)
        | inr (inr (inr (inr (inr (inl (p, v)))))) ↦ kept (p ∷ skip) (ground arith)
        | inr (inr (inr (inr (inr (inr (t, v)))))) ↦ whole (ground arith)
      ]
