-- ===== src/Db/Tasks.antt =====
-- tonpayments/db/task.go: the queue of tasks of one pool, and the index that says their order.
pub mod Scan
pub mod Locks
pub mod Upkeep
pub mod Absent
pub mod Lost
pub mod Held
pub mod Excludes
use ton_payment_network.Base.{
  ℕ, suc, ◌+◌, ◌*◌, ◌≡◌, Bool, true, false, not, ◌&&◌, ◌||◌, Option, none, some, List, [], ◌∷◌,
  Result, ok, err, ◌>>=◌, ◌>>◌, raise_if, or_raise, leb, ltb, ◌==◌, if◌then◌else◌,
}
use ton_payment_network.Base.Dict.{Dict, lookup, insert}
use ton_payment_network.Db.{DbError, not_found, already_exists}

-- `Task`: texts and the data are the numbers that their bytes spell, times are nanoseconds.
pub record Task : Type 0 where
  pub id : ℕ
  pub kind : ℕ
  pub queue : ℕ
  pub payload : ℕ
  pub execute_after : ℕ
  pub re_execute_after : Option ℕ
  pub execute_till : Option ℕ
  pub created_at : ℕ
  pub locked_at : Option ℕ
  pub locked_till : Option ℕ
  pub completed_at : Option ℕ
  pub last_error : ℕ

-- An index entry: the key `ti:<pool>:<at><queue>` with the id of the task's key `tv:<id>`
pub record Entry : Type 0 where
  pub at : ℕ
  pub queue : ℕ
  pub id : ℕ

-- The index is listed in the order of its keys.
pub record TaskDb : Type 0 where
  pub tasks : Dict Task
  pub index : List Entry

-- The order of keys: the time in big-endian bytes, and then the queue's bytes.
abbrev pub key_before : Entry → Entry → Bool
key_before a b = ltb a.at b.at || (a.at == b.at && ltb a.queue b.queue)

abbrev pub same_key : Entry → Entry → Bool
same_key a b = a.at == b.at && a.queue == b.queue

-- `tx.Put` of an index entry
unfoldable pub put_index : Entry → List Entry → List Entry
put_index e [] = e ∷ []
put_index e (f ∷ more) =
    let rest = put_index e more in
    if same_key e f then e ∷ more else (if key_before e f then e ∷ f ∷ more else f ∷ rest)

-- `tx.Delete` of an index entry
unfoldable pub delete_index : Entry → List Entry → List Entry
delete_index e [] = []
delete_index e (f ∷ more) =
    let rest = delete_index e more in if same_key e f then rest else f ∷ rest

-- `getTaskIndexKey`
abbrev pub entry_of : Task → Entry
entry_of t = record { at = t.execute_after; queue = t.queue; id = t.id }

-- `createTask`
unfoldable pub create : Task → TaskDb → Result DbError TaskDb
create t db = elim (lookup t.id db.tasks) [
  | some old ↦ err already_exists
  | none ↦ ok (record { tasks = insert t.id t db.tasks; index = put_index (entry_of t) db.index })
]

-- `CreateTask`: a task that is there already is no error.
unfoldable pub create_task : Task → TaskDb → Result DbError TaskDb
create_task t db = elim (create t db) [
  | ok db' ↦ ok db'
  | err already_exists ↦ ok db
  | err not_found ↦ err not_found
]

-- `at != nil && at > than`
abbrev pub is_after : Option ℕ → ℕ → Bool
is_after none than = false
is_after (some at) than = ltb than at

-- `at != nil && at < than`
abbrev pub is_before : Option ℕ → ℕ → Bool
is_before none than = false
is_before (some at) than = ltb at than

abbrev pub is_some : Option ℕ → Bool
is_some none = false
is_some (some n) = true

-- "locked by someone else (already in progress)", since this process started
unfoldable pub is_locked : ℕ → ℕ → Task → Bool
is_locked started now t = is_after t.locked_till now && is_after t.locked_at started

-- What the loop of `AcquireTask` does with an entry
pub data Verdict : Type 0 where
  not_due skipped missing done expired : Verdict
  busy : ℕ → Verdict
  ready : Task → Verdict

abbrev pub contains : ℕ → List ℕ → Bool
contains q [] = false
contains q (p ∷ more) = let rest = contains q more in if q == p then true else rest

-- The states of one task, in the order of the loop's tests
unfoldable pub judge : ℕ → ℕ → Task → Verdict
judge started now t =
    if is_some t.completed_at
    then done
    else (if is_locked started now t || is_after t.re_execute_after now
        then busy t.queue
        else (if is_before t.execute_till now then expired else ready t))

unfoldable pub verdict : ℕ → ℕ → Dict Task → List ℕ → Entry → Verdict
verdict started now tasks skip e =
    if ltb now e.at
    then not_due
    else (if contains e.queue skip
        then skipped
        else elim (lookup e.id tasks) [ none ↦ missing | some t ↦ judge started now t ])

abbrev pub keep :
    Entry → Result DbError (Option Task × List Entry) → Result DbError (Option Task × List Entry)
keep e (ok (t, index)) = ok (t, e ∷ index)
keep e (err x) = err x

-- The loop of `AcquireTask`, with the queues to skip: the task that it takes, if any, and the index
-- without the entries of expired tasks.
unfoldable pub scan :
    ℕ → ℕ → Dict Task → List ℕ → List Entry → Result DbError (Option Task × List Entry)
scan started now tasks skip [] = ok (none, [])
scan started now tasks skip (e ∷ more) = elim (verdict started now tasks skip e) [
  | not_due ↦ ok (none, e ∷ more)
  | skipped ↦ keep e (scan started now tasks skip more)
  | missing ↦ err not_found
  | done ↦ keep e (scan started now tasks skip more)
  | busy q ↦ keep e (scan started now tasks (q ∷ skip) more)
  | expired ↦ scan started now tasks skip more
  | ready t ↦ ok (some t, e ∷ more)
]

-- 5 minutes
abbrev pub lock_time : ℕ
lock_time = 300 * 1000000000

abbrev pub locked : ℕ → Task → Task
locked now t = record t { locked_till = some (now + lock_time); locked_at = some now }

abbrev pub after_scan : ℕ → Dict Task → Option Task × List Entry → Option Task × TaskDb
after_scan now tasks (none, index) = (none, record { tasks = tasks; index = index })
after_scan now tasks (some t, index) =
    (some (locked now t), record { tasks = insert t.id (locked now t) tasks; index = index })

-- `AcquireTask` at the time `now` of a process that started at `started`
unfoldable pub acquire_task : ℕ → ℕ → TaskDb → Result DbError (Option Task × TaskDb)
acquire_task started now db = do
  found ← scan started now db.tasks [] db.index
  ok (after_scan now db.tasks found)

abbrev put_known : Task → TaskDb → Result DbError TaskDb
put_known t db = elim (lookup t.id db.tasks) [
  | none ↦ err not_found
  | some old ↦ ok (record db { tasks = insert t.id t db.tasks })
]

-- `CompleteTask`
unfoldable pub complete_task : ℕ → Task → TaskDb → Result DbError TaskDb
complete_task now t db = if is_some t.completed_at then ok db else do
  db' ← put_known (record t { completed_at = some now; locked_till = none }) db
  ok (record db' { index = delete_index (entry_of t) db'.index })

-- `RetryTask`
unfoldable pub retry_task : Task → ℕ → ℕ → TaskDb → Result DbError TaskDb
retry_task t reason retry_at db =
    if is_some t.completed_at || not (is_some t.locked_till)
    then ok db
    else put_known
        (record t { locked_till = none; last_error = reason; re_execute_after = some retry_at }) db

-- `ListActiveTasks`
unfoldable pub list_active : ℕ → Dict Task → List Entry → Result DbError (List Task)
list_active now tasks [] = ok []
list_active now tasks (e ∷ more) =
    let rest = list_active now tasks more in
    if ltb now e.at then ok [] else (do
      t ← or_raise (lookup e.id tasks) not_found
      ts ← rest
      ok (if is_some t.completed_at then ts else t ∷ ts))
