-- ===== src/Db/Tasks/Absent.antt =====
-- A stored task without an entry in the index stays so, and is not taken.
use ton_payment_network.Base.{
  ℕ, ◌≡◌, ◌≢◌, Bool, true, false, not, ◌||◌, ◌==◌, Option, none, some, Option-cases, Bool-cases,
  Result-cases, List, [], ◌∷◌, ok, arith, inl, inr, if◌then◌else◌,
}
use ton_payment_network.Base.Dict.{Dict, lookup, insert, lookup-insert}
use ton_payment_network.Db.Tasks.{
  Task, Entry, TaskDb, is_some, same_key, key_before, put_index, delete_index, entry_of, create,
  create_task, scan, locked, acquire_task, complete_task, retry_task,
}
use ton_payment_network.Db.Tasks.Scan.{
  IsAll, IsIndexed, scan-IsAll, owner, scan_step, verdict-ready, taken,
}
use ton_payment_network.Db.Tasks.Upkeep.{Steps, rest, step, creates, acquires, completes, retries}

-- No entry of the index is of the task `id`.
abbrev pub IsAbsent : ℕ → List Entry → Type 0
IsAbsent id index = IsAll (λ e. e.id ≢ id) index

pub absent-scan :
    (started now : ℕ) (tasks : Dict Task) (id : ℕ) (skip : List ℕ) (index : List Entry) (u : Task)
    → IsIndexed tasks index
    → IsAbsent id index
    → taken (scan started now tasks skip index) ≡ some u
    → u.id ≢ id
unfolding scan
absent-scan started now tasks id skip [] u w n h = absurd (ground arith)
absent-scan started now tasks id skip (e ∷ more) u w n h =
    elim (scan_step started now tasks skip e more u h) [
      | inl (s, k) ↦ absent-scan started now tasks id s more u (w.1) (n.1) k
      | inr v ↦
          ground (arith, n.0, owner tasks e (w.0) u, verdict-ready started now tasks skip e u v)
    ]

pub IsAbsent-new :
    (tasks : Dict Task) (id : ℕ) (index : List Entry)
    → lookup id tasks ≡ none
    → IsIndexed tasks index
    → IsAbsent id index
IsAbsent-new tasks id [] n w = tt
IsAbsent-new tasks id (e ∷ more) n ((x, l, i, q, a), w) =
    (λ same. ground arith, IsAbsent-new tasks id more n w)

IsAbsent-if :
    (id : ℕ) (b : Bool) (x y : List Entry)
    → IsAbsent id x
    → IsAbsent id y
    → IsAbsent id (if b then x else y)
IsAbsent-if id true x y h k = h
IsAbsent-if id false x y h k = k

pub IsAbsent-put_index :
    (id : ℕ) (e : Entry) (index : List Entry)
    → e.id ≢ id
    → IsAbsent id index
    → IsAbsent id (put_index e index)
unfolding put_index
IsAbsent-put_index id e [] d n = (d, tt)
IsAbsent-put_index id e (f ∷ more) d n =
    IsAbsent-if id (same_key e f) _ _ (d, n.1)
      (IsAbsent-if id (key_before e f) _ _ (d, n) (n.0, IsAbsent-put_index id e more d (n.1)))

-- The task `id` is stored, and no entry leads to it.
abbrev pub IsLost : ℕ → TaskDb → Type 0
IsLost id db = ((x : Task) × (lookup id db.tasks ≡ some x)) × IsAbsent id db.index

IsAbsent-delete_index :
    (id : ℕ) (e : Entry) (index : List Entry)
    → IsAbsent id index
    → IsAbsent id (delete_index e index)
unfolding delete_index
IsAbsent-delete_index id e [] n = tt
IsAbsent-delete_index id e (f ∷ more) n =
    IsAbsent-if id (same_key e f) _ _ (IsAbsent-delete_index id e more (n.1))
      (n.0, IsAbsent-delete_index id e more (n.1))

stored_still :
    (tasks : Dict Task) (id k : ℕ) (t x : Task)
    → lookup id tasks ≡ some x
    → (y : Task) × (lookup id (insert k t tasks) ≡ some y)
stored_still tasks id k t x l = elim (Bool-cases (id == k)) [
  | inl same ↦ (t, ground (arith, lookup-insert id k t tasks))
  | inr other ↦ (x, ground (arith, lookup-insert id k t tasks))
]

-- An operation stores tasks under their ids, and puts only a new task's entry into the index.
IsLost-create :
    (id : ℕ) (t : Task) (db db' : TaskDb) → create_task t db ≡ ok db' → IsLost id db → IsLost id db'
unfolding create_task create
IsLost-create id t db db' h ((x, l), n) = elim (Option-cases (lookup t.id db.tasks)) [
  | inr (old, e) ↦ let same : db' ≡ db = ground arith in rw (same) ((x, l), n)
  | inl new ↦
      let same : db'
          ≡ record { tasks = insert t.id t db.tasks; index = put_index (entry_of t) db.index } =
        ground arith in
      rw (same) (
        stored_still db.tasks id t.id t x l,
        IsAbsent-put_index id (entry_of t) db.index (λ i. ground arith) n,
      )
]

IsLost-acquire :
    (id started now : ℕ) (o : Option Task) (db db' : TaskDb)
    → acquire_task started now db ≡ ok (o, db')
    → IsLost id db
    → IsLost id db'
unfolding acquire_task
IsLost-acquire id started now o db db' h ((x, l), n) =
    elim (Result-cases (scan started now db.tasks [] db.index)) [
      | inr (e, f) ↦ absurd (ground arith)
      | inl ((o', left), f) ↦
          let rest = scan-IsAll started now db.tasks [] db.index left o' (λ e. e.id ≢ id) n f in
          elim (Option-cases o') [
            | inl nil ↦
                let same : db' ≡ record { tasks = db.tasks; index = left } = ground arith in
                rw (same) ((x, l), rest)
            | inr (t, some') ↦
                let same : db'
                    ≡ record { tasks = insert t.id (locked now t) db.tasks; index = left } =
                  ground arith in
                rw (same) (stored_still db.tasks id t.id (locked now t) x l, rest)
          ]
    ]

IsLost-complete :
    (id now : ℕ) (t old : Task) (db db' : TaskDb)
    → lookup t.id db.tasks ≡ some old
    → complete_task now t db ≡ ok db'
    → IsLost id db
    → IsLost id db'
unfolding complete_task
IsLost-complete id now t old db db' k h ((x, l), n) = elim (Option-cases t.completed_at) [
  | inr (at, e) ↦ let same : db' ≡ db = ground arith in rw (same) ((x, l), n)
  | inl opened ↦
      let t' = record t { completed_at = some now; locked_till = none } in
      let same : db'
          ≡ record { tasks = insert t.id t' db.tasks; index = delete_index (entry_of t) db.index } =
        ground arith in
      rw (same)
        (stored_still db.tasks id t.id t' x l, IsAbsent-delete_index id (entry_of t) db.index n)
]

IsLost-retry :
    (id : ℕ) (t old : Task) (reason at : ℕ) (db db' : TaskDb)
    → lookup t.id db.tasks ≡ some old
    → retry_task t reason at db ≡ ok db'
    → IsLost id db
    → IsLost id db'
unfolding retry_task
IsLost-retry id t old reason at db db' k h ((x, l), n) =
    let t' = record t { locked_till = none; last_error = reason; re_execute_after = some at } in
    elim (Bool-cases (is_some t.completed_at || not (is_some t.locked_till))) [
      | inl skip ↦ let same : db' ≡ db = ground arith in rw (same) ((x, l), n)
      | inr held ↦
          let same : db' ≡ record db { tasks = insert t.id t' db.tasks } = ground arith in
          rw (same) (stored_still db.tasks id t.id t' x l, n)
    ]

pub Steps-IsLost :
    (id started : ℕ) (db db' : TaskDb) → Steps started db db' → IsLost id db → IsLost id db'
Steps-IsLost id started db db' rest n = n
Steps-IsLost id started db db' (step {mid = mid} (creates t h) more) n =
    Steps-IsLost id started mid db' more (IsLost-create id t db mid h n)
Steps-IsLost id started db db' (step {mid = mid} (acquires now o h) more) n =
    Steps-IsLost id started mid db' more (IsLost-acquire id started now o db mid h n)
Steps-IsLost id started db db' (step {mid = mid} (completes now t old l q a h) more) n =
    Steps-IsLost id started mid db' more (IsLost-complete id now t old db mid l h n)
Steps-IsLost id started db db' (step {mid = mid} (retries t old reason at l q a h) more) n =
    Steps-IsLost id started mid db' more (IsLost-retry id t old reason at db mid l h n)
