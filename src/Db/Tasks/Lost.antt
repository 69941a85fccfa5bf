-- ===== src/Db/Tasks/Lost.antt =====
-- Tasks that are taken no more: the completed ones, and one whose index key a later task took over.
use ton_payment_network.Base.{ℕ, ◌≡◌, ◌≢◌, true, none, some, List, [], ◌∷◌, ok, arith, ap, ◌∙◌}
use ton_payment_network.Base.Dict.{lookup, insert, lookup-insert}
use ton_payment_network.Db.Tasks.{
  Task, Entry, TaskDb, same_key, put_index, entry_of, create, create_task, acquire_task,
  complete_task,
}
use ton_payment_network.Db.Tasks.Scan.{IsIndexed, taken}
use ton_payment_network.Db.Tasks.Locks.{scanned, acquire_task-IsReady}
use ton_payment_network.Db.Tasks.Upkeep.{created, completed, Steps, Steps-IsIndexed}
use ton_payment_network.Db.Tasks.Absent.{
  IsAbsent, absent-scan, IsAbsent-new, IsAbsent-put_index, Steps-IsLost,
}

-- A task that was given back completed is not taken again.
complete_task-gone :
    (started now later : ℕ) (t old : Task) (db db' after : TaskDb) (u : Task)
    → IsIndexed db.tasks db.index
    → lookup t.id db.tasks ≡ some old
    → t.queue ≡ old.queue
    → t.execute_after ≡ old.execute_after
    → t.completed_at ≡ none
    → complete_task now t db ≡ ok db'
    → acquire_task started later db' ≡ ok (some u, after)
    → u.id ≢ t.id
unfolding complete_task
complete_task-gone started now later t old db db' after u w l q a opened h k =
    let (u', stored, fit, e, again) =
      acquire_task-IsReady started later db' after u (completed now t old db db' l q a h w) k in
    ground (
      arith,
      lookup-insert u.id t.id (record t { completed_at = some now; locked_till = none }) db.tasks,
    )

-- Writing a key twice leaves the second entry.
put_index-put_index :
    (e f : Entry) (index : List Entry)
    → same_key e f ≡ true
    → put_index e (put_index f index) ≡ put_index e index
unfolding put_index
put_index-put_index e f [] h = ground arith
put_index-put_index e f (g ∷ more) h = ground (arith, put_index-put_index e f more h)

new_index :
    (t : Task) (db db' : TaskDb)
    → lookup t.id db.tasks ≡ none
    → create_task t db ≡ ok db'
    → (db'.tasks ≡ insert t.id t db.tasks) × (db'.index ≡ put_index (entry_of t) db.index)
unfolding create_task create
new_index t db db' n h = ground arith

-- Two new tasks of one queue that are to run from the same moment on have one index key. Where the
-- index is sound, the second one takes the key over: the first stays stored, and is never taken,
-- whatever operations follow in the process, its workers giving tasks back with the id, queue and
-- time that they have.
pub create_task-collides :
    (started later : ℕ) (t u v : Task) (db mid both last after : TaskDb)
    → IsIndexed db.tasks db.index
    → lookup t.id db.tasks ≡ none
    → lookup u.id db.tasks ≡ none
    → u.id ≢ t.id
    → u.queue ≡ t.queue
    → u.execute_after ≡ t.execute_after
    → create_task t db ≡ ok mid
    → create_task u mid ≡ ok both
    → Steps started both last
    → ((x : Task) × (lookup t.id last.tasks ≡ some x))
      × (acquire_task started later last ≡ ok (some v, after) → v.id ≢ t.id)
create_task-collides started later t u v db mid both last after w nt nu d q a h k steps =
    let (tasks, index) = new_index t db mid nt h in
    let (tasks2, index2) =
      new_index u mid both (rw (tasks) (ground (arith, lookup-insert u.id t.id t db.tasks))) k in
    let kept : lookup t.id both.tasks ≡ some t =
      rw (tasks2, tasks)
        (ground (
          arith,
          lookup-insert t.id u.id u (insert t.id t db.tasks),
          lookup-insert t.id t.id t db.tasks,
        )) in
    let same : both.index ≡ put_index (entry_of u) db.index =
      index2
      ∙ ap (put_index (entry_of u)) index
      ∙ put_index-put_index (entry_of u) (entry_of t) db.index (ground arith) in
    let absent : IsAbsent t.id both.index = rw (same) (
      IsAbsent-put_index t.id (entry_of u) db.index d (IsAbsent-new db.tasks t.id db.index nt w)) in
    let lost = Steps-IsLost t.id started both last steps ((t, kept), absent) in
    let sound =
      Steps-IsIndexed started both last steps (created u mid both k (created t db mid h w)) in
    (
      lost.0,
      λ x.
          let (v', left, s, e, b) = scanned started later last after v x in
          let gone =
            absent-scan started later last.tasks t.id [] last.index v' sound (lost.1)
              (ap taken s) in
          rw (e) gone,
    )
