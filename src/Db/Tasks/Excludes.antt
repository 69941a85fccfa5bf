-- ===== src/Db/Tasks/Excludes.antt =====
-- `AcquireTask` while a task of the queue is held.
use ton_payment_network.Base.{
  ℕ, ◌+◌, ◌<◌, ◌≡◌, ◌≢◌, refl, not, ◌||◌, Option, none, some, Option-cases, Bool-cases,
  Result-cases, [], ok, arith, inl, inr, ap,
}
use ton_payment_network.Base.Dict.{lookup, insert, lookup-insert}
use ton_payment_network.Db.Tasks.{
  Task, TaskDb, is_some, put_index, delete_index, entry_of, create, create_task, scan, lock_time,
  locked, acquire_task, complete_task, retry_task,
}
use ton_payment_network.Db.Tasks.Scan.{
  IsEntry, IsIndexed, IsIndexed-insert, scan-IsAll, taken, scan-takes,
}
use ton_payment_network.Db.Tasks.Locks.{scanned}
use ton_payment_network.Db.Tasks.Upkeep.{
  Step, creates, acquires, completes, retries, Step-IsIndexed, IsIndexed-new,
}
use ton_payment_network.Db.Tasks.Held.{
  IsShut, IsShut-insert, IsShut-own, IsShut-put_index, IsShut-delete_index, scan-IsShut, shut-taken,
  IsShut-left,
}

-- What may happen between two acquires: tasks of other queues than `q` are created, given back
-- completed or retried, and any worker of the process asks for a task, before the time `till`.
pub data Meanwhile (started q till : ℕ) : TaskDb → TaskDb → Type 0 where
  nothing : {db : TaskDb} → Meanwhile started q till db db
  created_other :
      {db mid db' : TaskDb}
      → (t : Task) → t.queue ≢ q
      → create_task t db ≡ ok mid
      → Meanwhile started q till mid db'
      → Meanwhile started q till db db'
  asked :
      {db mid db' : TaskDb}
      → (later : ℕ) (o : Option Task) → later < till
      → acquire_task started later db ≡ ok (o, mid)
      → Meanwhile started q till mid db'
      → Meanwhile started q till db db'
  completed_other :
      {db mid db' : TaskDb}
      → (at : ℕ) (t old : Task) → t.queue ≢ q
      → lookup t.id db.tasks ≡ some old
      → t.queue ≡ old.queue
      → t.execute_after ≡ old.execute_after
      → complete_task at t db ≡ ok mid
      → Meanwhile started q till mid db'
      → Meanwhile started q till db db'
  retried_other :
      {db mid db' : TaskDb}
      → (t old : Task) (reason at : ℕ) → t.queue ≢ q
      → lookup t.id db.tasks ≡ some old
      → t.queue ≡ old.queue
      → t.execute_after ≡ old.execute_after
      → retry_task t reason at db ≡ ok mid
      → Meanwhile started q till mid db'
      → Meanwhile started q till db db'

-- The held task is stored as it was given out, and its queue is shut.
record IsHeld (h : Task) (db : TaskDb) : Type 0 where
  indexed : IsIndexed db.tasks db.index
  stored : lookup h.id db.tasks ≡ some h
  shut : IsShut h.queue h.id db.tasks db.index

module _ (h : Task) (db : TaskDb) (s : IsHeld h db) where
  mine : (x : Task) → lookup h.id db.tasks ≡ some x → x.queue ≡ h.queue
  mine x l = let st = s.stored in ground arith

  other_stored :
      (t : Task)
      → ((x : Task) → lookup t.id db.tasks ≡ some x → x.queue ≢ h.queue)
      → lookup h.id (insert t.id t db.tasks) ≡ some h
  other_stored t other =
      let st = s.stored in
      let apart : h.id ≢ t.id = λ same. ground (arith, other h) in
      ground (arith, lookup-insert h.id t.id t db.tasks)

  held_create :
      (t : Task) (db' : TaskDb)
      → t.queue ≢ h.queue
      → create_task t db ≡ ok db'
      → (lookup h.id db'.tasks ≡ some h) × IsShut h.queue h.id db'.tasks db'.index
  unfolding create_task create
  held_create t db' other c = elim (Option-cases (lookup t.id db.tasks)) [
    | inr (old, e) ↦ let same : db' ≡ db = ground arith in rw (same) (s.stored, s.shut)
    | inl new ↦
        let same : db'
            ≡ record { tasks = insert t.id t db.tasks; index = put_index (entry_of t) db.index } =
          ground arith in
        let vacant : (x : Task) → lookup t.id db.tasks ≡ some x → x.queue ≢ h.queue =
          λ x l. absurd (ground arith) in
        rw (same) (
          other_stored t vacant,
          IsShut-put_index h.queue h.id (insert t.id t db.tasks)
              (λ x l. let st = other_stored t vacant in ground arith) (entry_of t) db.index other
              (IsIndexed-new db.tasks t db.index new s.indexed)
              (IsShut-insert h.queue h.id t.id t db.tasks db.index vacant s.indexed s.shut),
        )
  ]

  held_acquire :
      (started now later : ℕ) (o : Option Task) (db' : TaskDb)
      → started < now
      → h.completed_at ≡ none
      → h.locked_at ≡ some now
      → h.locked_till ≡ some (now + lock_time)
      → later < now + lock_time
      → acquire_task started later db ≡ ok (o, db')
      → (lookup h.id db'.tasks ≡ some h) × IsShut h.queue h.id db'.tasks db'.index
  unfolding acquire_task
  held_acquire started now later o db' run opened at till soon k =
      elim (Result-cases (scan started later db.tasks [] db.index)) [
        | inr (x, f) ↦ absurd (ground arith)
        | inl ((none, left), f) ↦
            let same : db' ≡ record { tasks = db.tasks; index = left } = ground arith in
            let rest =
              IsShut-left started now later h run opened at till soon db.tasks s.stored [] db.index
                left none s.shut f in
            rw (same) (s.stored, rest)
        | inl ((some u, left), f) ↦
            let u' = locked later u in
            let same : db' ≡ record { tasks = insert u.id u' db.tasks; index = left } =
              ground arith in
            let rest =
              IsShut-left started now later h run opened at till soon db.tasks s.stored [] db.index
                left (some u) s.shut f in
            let apart =
              shut-taken started now later h run opened at till soon db.tasks s.stored [] db.index u
                s.indexed s.shut (ap taken f) in
            let (r, c, l) =
              scan-takes started later db.tasks [] db.index u s.indexed (ap taken f) in
            let other : (x : Task) → lookup u.id db.tasks ≡ some x → x.queue ≢ h.queue =
              λ x m. ground arith in
            let sound =
              scan-IsAll started later db.tasks [] db.index left (some u) (IsEntry db.tasks)
                s.indexed f in
            rw (same) (
              other_stored u' other,
              IsShut-insert h.queue h.id u.id u' db.tasks left other sound rest,
            )
      ]

  held_complete :
      (now : ℕ) (t old : Task) (db' : TaskDb)
      → t.queue ≢ h.queue
      → lookup t.id db.tasks ≡ some old
      → t.queue ≡ old.queue
      → t.execute_after ≡ old.execute_after
      → complete_task now t db ≡ ok db'
      → (lookup h.id db'.tasks ≡ some h) × IsShut h.queue h.id db'.tasks db'.index
  unfolding complete_task
  held_complete now t old db' apart l q a k = elim (Option-cases t.completed_at) [
    | inr (at, e) ↦ let same : db' ≡ db = ground arith in rw (same) (s.stored, s.shut)
    | inl opened ↦
        let t' = record t { completed_at = some now; locked_till = none } in
        let same : db' ≡ record {
          tasks = insert t.id t' db.tasks;
          index = delete_index (entry_of t) db.index;
        } =
          ground arith in
        let other : (x : Task) → lookup t.id db.tasks ≡ some x → x.queue ≢ h.queue =
          λ x m. ground arith in
        let still = other_stored t' other in
        rw (same) (
          still,
          IsShut-delete_index h.queue h.id (insert t.id t' db.tasks) (λ x m. ground arith)
              (entry_of t) db.index apart
              (IsIndexed-insert db.tasks t.id old t' db.index l refl q a s.indexed)
              (IsShut-insert h.queue h.id t.id t' db.tasks db.index other s.indexed s.shut),
        )
  ]

  held_retry :
      (t old : Task) (reason at : ℕ) (db' : TaskDb)
      → t.queue ≢ h.queue
      → lookup t.id db.tasks ≡ some old
      → t.queue ≡ old.queue
      → retry_task t reason at db ≡ ok db'
      → (lookup h.id db'.tasks ≡ some h) × IsShut h.queue h.id db'.tasks db'.index
  unfolding retry_task
  held_retry t old reason at db' apart l q k =
      let t' = record t { locked_till = none; last_error = reason; re_execute_after = some at } in
      let other : (x : Task) → lookup t.id db.tasks ≡ some x → x.queue ≢ h.queue =
        λ x m. ground arith in
      elim (Bool-cases (is_some t.completed_at || not (is_some t.locked_till))) [
        | inl skip ↦ let same : db' ≡ db = ground arith in rw (same) (s.stored, s.shut)
        | inr held ↦
            let same : db' ≡ record db { tasks = insert t.id t' db.tasks } = ground arith in
            rw (same) (
              other_stored t' other,
              IsShut-insert h.queue h.id t.id t' db.tasks db.index other s.indexed s.shut,
            )
      ]

module _ (started now : ℕ) (h : Task) (run : started < now) (opened : h.completed_at ≡ none)
    (at : h.locked_at ≡ some now) (till : h.locked_till ≡ some (now + lock_time)) where
  IsHeld-on :
      (db mid : TaskDb)
      → Step started db mid
      → IsHeld h db
      → (lookup h.id mid.tasks ≡ some h) × IsShut h.queue h.id mid.tasks mid.index
      → IsHeld h mid
  IsHeld-on db mid st s next = record {
    indexed = Step-IsIndexed started db mid st s.indexed;
    stored = next.0;
    shut = next.1;
  }

  Meanwhile-IsHeld :
      (db db' : TaskDb)
      → Meanwhile started h.queue (now + lock_time) db db'
      → IsHeld h db
      → IsHeld h db'
  Meanwhile-IsHeld db db' nothing s = s
  Meanwhile-IsHeld db db' (created_other {mid = mid} t other c more) s =
      Meanwhile-IsHeld mid db' more
        (IsHeld-on db mid (creates t c) s (held_create h db s t mid other c))
  Meanwhile-IsHeld db db' (asked {mid = mid} later o soon c more) s =
      Meanwhile-IsHeld mid db' more (
        IsHeld-on db mid (acquires later o c) s
          (held_acquire h db s started now later o mid run opened at till soon c))
  Meanwhile-IsHeld db db' (completed_other {mid = mid} when t old other l q a c more) s =
      Meanwhile-IsHeld mid db' more (
        IsHeld-on db mid (completes when t old l q a c) s
          (held_complete h db s when t old mid other l q a c))
  Meanwhile-IsHeld db db' (retried_other {mid = mid} t old reason when other l q a c more) s =
      Meanwhile-IsHeld mid db' more (
        IsHeld-on db mid (retries t old reason when l q a c) s
          (held_retry h db s t old reason when mid other l q c))

-- Where the index is sound: while a task is held, no other task of its queue is taken by a worker
-- of the process that took the lock, before the lock's five minutes are over: however often workers
-- ask in between, and whatever tasks of other queues are created, completed and retried. Operations
-- on a task of the held task's own queue in between are not covered.
pub acquire_task-excludes :
    (started now later : ℕ) (db mid mid' last : TaskDb) (t u : Task)
    → IsIndexed db.tasks db.index
    → started < now
    → acquire_task started now db ≡ ok (some t, mid)
    → Meanwhile started t.queue (now + lock_time) mid mid'
    → later < now + lock_time
    → acquire_task started later mid' ≡ ok (some u, last)
    → u.queue ≢ t.queue
acquire_task-excludes started now later db mid mid' last t u w run first between soon second =
    let (t', left, s, e, a) = scanned started now db mid t first in
    let (r, c, l) = scan-takes started now db.tasks [] db.index t' w (ap taken s) in
    let other : (x : Task) → lookup t'.id db.tasks ≡ some x → x.queue ≡ t'.queue =
      λ x m. ground arith in
    let sound = scan-IsAll started now db.tasks [] db.index left (some t') (IsEntry db.tasks) w s in
    let taken_now : IsHeld t mid =
      rw (e, a)
        (record {
          indexed = IsIndexed-insert db.tasks t'.id t' (locked now t') left l refl refl refl sound;
          stored = ground (arith, lookup-insert t'.id t'.id (locked now t') db.tasks);
          shut =
              IsShut-own t'.queue t'.id (locked now t') t' db.tasks left l (ground arith) sound
                (scan-IsShut started now db.tasks [] db.index left t' w s);
        }) in
    let held =
      Meanwhile-IsHeld started now t run (ground arith) (ground arith) (ground arith) mid mid'
        between taken_now in
    let (u', left2, s2, e2, a2) = scanned started later mid' last u second in
    let apart =
      shut-taken started now later t run (ground arith) (ground arith) (ground arith) soon
        mid'.tasks held.stored [] mid'.index u' held.indexed held.shut (ap taken s2) in
    rw (e2) apart
