-- ===== src/Db/Tasks/Upkeep.antt =====
-- The index through every operation, and what becomes of a completed task.
use ton_payment_network.Base.{
  ℕ, ◌≡◌, refl, Bool, true, false, not, ◌||◌, Option, none, some, Option-cases, Bool-cases,
  Result-cases, List, [], ◌∷◌, ok, arith, inl, inr, if◌then◌else◌, ap,
}
use ton_payment_network.Base.Dict.{Dict, lookup, insert, lookup-insert}
use ton_payment_network.Db.Tasks.{
  Task, Entry, TaskDb, is_some, same_key, key_before, put_index, delete_index, entry_of, create,
  create_task, scan, locked, acquire_task, complete_task, retry_task,
}
use ton_payment_network.Db.Tasks.Scan.{
  IsEntry, IsIndexed, IsIndexed-insert, scan-IsAll, scan-takes, taken,
}
use ton_payment_network.Db.Tasks.Locks.{scanned}

IsIndexed-if :
    (tasks : Dict Task) (b : Bool) (x y : List Entry)
    → IsIndexed tasks x
    → IsIndexed tasks y
    → IsIndexed tasks (if b then x else y)
IsIndexed-if tasks true x y h k = h
IsIndexed-if tasks false x y h k = k

IsIndexed-put_index :
    (tasks : Dict Task) (e : Entry) (index : List Entry)
    → IsEntry tasks e
    → IsIndexed tasks index
    → IsIndexed tasks (put_index e index)
unfolding put_index
IsIndexed-put_index tasks e [] own w = (own, tt)
IsIndexed-put_index tasks e (f ∷ more) own w =
    IsIndexed-if tasks (same_key e f) _ _ (own, w.1)
      (IsIndexed-if tasks (key_before e f) _ _ (own, w)
        (w.0, IsIndexed-put_index tasks e more own (w.1)))

IsIndexed-delete_index :
    (tasks : Dict Task) (e : Entry) (index : List Entry)
    → IsIndexed tasks index
    → IsIndexed tasks (delete_index e index)
unfolding delete_index
IsIndexed-delete_index tasks e [] w = tt
IsIndexed-delete_index tasks e (f ∷ more) w =
    IsIndexed-if tasks (same_key e f) _ _ (IsIndexed-delete_index tasks e more (w.1))
      (w.0, IsIndexed-delete_index tasks e more (w.1))

-- A new task leaves the entries of the others as they were.
pub IsIndexed-new :
    (tasks : Dict Task) (t : Task) (index : List Entry)
    → lookup t.id tasks ≡ none
    → IsIndexed tasks index
    → IsIndexed (insert t.id t tasks) index
IsIndexed-new tasks t [] n w = tt
IsIndexed-new tasks t (e ∷ more) n ((x, l, i, q, a), w) =
    ((x, ground (arith, lookup-insert e.id t.id t tasks), i, q, a), IsIndexed-new tasks t more n w)

-- The changes that the operations of the queue make, one after another. A worker gives back the
-- task that it took: one whose id, queue and time are the stored task's.
pub data Step (started : ℕ) : TaskDb → TaskDb → Type 0 where
  creates : {db db' : TaskDb} → (t : Task) → create_task t db ≡ ok db' → Step started db db'
  acquires :
      {db db' : TaskDb}
      → (now : ℕ) (t : Option Task) → acquire_task started now db ≡ ok (t, db')
      → Step started db db'
  completes :
      {db db' : TaskDb}
      → (now : ℕ) (t old : Task) → lookup t.id db.tasks ≡ some old
      → t.queue ≡ old.queue
      → t.execute_after ≡ old.execute_after
      → complete_task now t db ≡ ok db'
      → Step started db db'
  retries :
      {db db' : TaskDb}
      → (t old : Task) (reason at : ℕ) → lookup t.id db.tasks ≡ some old
      → t.queue ≡ old.queue
      → t.execute_after ≡ old.execute_after
      → retry_task t reason at db ≡ ok db'
      → Step started db db'

-- Runs of the queue: any number of changes.
pub data Steps (started : ℕ) : TaskDb → TaskDb → Type 0 where
  rest : {db : TaskDb} → Steps started db db
  step : {db mid db' : TaskDb} → Step started db mid → Steps started mid db' → Steps started db db'

pub created :
    (t : Task) (db db' : TaskDb)
    → create_task t db ≡ ok db'
    → IsIndexed db.tasks db.index
    → IsIndexed db'.tasks db'.index
unfolding create_task create
created t db db' h w = elim (Option-cases (lookup t.id db.tasks)) [
  | inr (old, e) ↦ let same : db' ≡ db = ground arith in rw (same) w
  | inl new ↦
      let same : db'
          ≡ record { tasks = insert t.id t db.tasks; index = put_index (entry_of t) db.index } =
        ground arith in
      rw (same) (
        IsIndexed-put_index _ (entry_of t) db.index
          (t, ground (arith, lookup-insert t.id t.id t db.tasks), refl, refl, refl)
          (IsIndexed-new db.tasks t db.index new w))
]

pub completed :
    (now : ℕ) (t old : Task) (db db' : TaskDb)
    → lookup t.id db.tasks ≡ some old
    → t.queue ≡ old.queue
    → t.execute_after ≡ old.execute_after
    → complete_task now t db ≡ ok db'
    → IsIndexed db.tasks db.index
    → IsIndexed db'.tasks db'.index
unfolding complete_task
completed now t old db db' l q a h w = elim (Option-cases t.completed_at) [
  | inr (at, e) ↦ let same : db' ≡ db = ground arith in rw (same) w
  | inl opened ↦
      let t' = record t { completed_at = some now; locked_till = none } in
      let same : db'
          ≡ record { tasks = insert t.id t' db.tasks; index = delete_index (entry_of t) db.index } =
        ground arith in
      rw (same) (
        IsIndexed-delete_index _ (entry_of t) db.index
          (IsIndexed-insert db.tasks t.id old t' db.index l refl q a w))
]

retried :
    (t old : Task) (reason at : ℕ) (db db' : TaskDb)
    → lookup t.id db.tasks ≡ some old
    → t.queue ≡ old.queue
    → t.execute_after ≡ old.execute_after
    → retry_task t reason at db ≡ ok db'
    → IsIndexed db.tasks db.index
    → IsIndexed db'.tasks db'.index
unfolding retry_task
retried t old reason at db db' l q a h w =
    let t' = record t { locked_till = none; last_error = reason; re_execute_after = some at } in
    elim (Bool-cases (is_some t.completed_at || not (is_some t.locked_till))) [
      | inl skip ↦ let same : db' ≡ db = ground arith in rw (same) w
      | inr held ↦
          let same : db' ≡ record db { tasks = insert t.id t' db.tasks } = ground arith in
          rw (same) (IsIndexed-insert db.tasks t.id old t' db.index l refl q a w)
    ]

idle :
    (started now : ℕ) (db db' : TaskDb)
    → acquire_task started now db ≡ ok (none, db')
    → IsIndexed db.tasks db.index
    → IsIndexed db'.tasks db'.index
unfolding acquire_task
idle started now db db' h w = elim (Result-cases (scan started now db.tasks [] db.index)) [
  | inr (x, e) ↦ absurd (ground arith)
  | inl ((some t, left), e) ↦ absurd (ground arith)
  | inl ((none, left), e) ↦
      let same : db' ≡ record { tasks = db.tasks; index = left } = ground arith in
      rw (same) (scan-IsAll started now db.tasks [] db.index left none (IsEntry db.tasks) w e)
]

pub Step-IsIndexed :
    (started : ℕ) (db db' : TaskDb)
    → Step started db db'
    → IsIndexed db.tasks db.index
    → IsIndexed db'.tasks db'.index
Step-IsIndexed started db db' (creates t h) w = created t db db' h w
Step-IsIndexed started db db' (acquires now none h) w = idle started now db db' h w
Step-IsIndexed started db db' (acquires now (some t) h) w =
    let (t', left, s, e, a) = scanned started now db db' t h in
    let (r, c, l) = scan-takes started now db.tasks [] db.index t' w (ap taken s) in
    rw (a) (
      scan-IsAll started now db.tasks [] db.index left (some t') (IsEntry _)
        (IsIndexed-insert db.tasks t'.id t' (locked now t') db.index l refl refl refl w) s)
Step-IsIndexed started db db' (completes now t old l q a h) w = completed now t old db db' l q a h w
Step-IsIndexed started db db' (retries t old reason at l q a h) w =
    retried t old reason at db db' l q a h w

-- Every operation keeps the index sound: each entry leads to a stored task of the entry's queue and
-- time. So no entry is left without its task, whatever tasks are created, taken, completed and
-- retried, in whatever order.
pub Steps-IsIndexed :
    (started : ℕ) (db db' : TaskDb)
    → Steps started db db'
    → IsIndexed db.tasks db.index
    → IsIndexed db'.tasks db'.index
Steps-IsIndexed started db db' rest w = w
Steps-IsIndexed started db db' (step {mid = mid} s more) w =
    Steps-IsIndexed started mid db' more (Step-IsIndexed started db mid s w)
