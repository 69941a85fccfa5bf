-- ===== src/Db/Tasks/Locks.antt =====
-- `AcquireTask`: what it takes is ready, and is stored with a lock.
use ton_payment_network.Base.{ℕ, ◌≡◌, none, some, Result-cases, List, [], ok, arith, inl, inr, ap}
use ton_payment_network.Base.Dict.{lookup, insert, lookup-insert}
use ton_payment_network.Db.Tasks.{Task, Entry, TaskDb, scan, locked, acquire_task}
use ton_payment_network.Db.Tasks.Scan.{IsIndexed, IsReady, taken, scan-takes}

pub scanned :
    (started now : ℕ) (db after : TaskDb) (t : Task)
    → acquire_task started now db ≡ ok (some t, after)
    → (t' : Task) × (left : List Entry) × (scan started now db.tasks [] db.index
        ≡ ok (some t', left))
      × (t ≡ locked now t')
      × (after ≡ record { tasks = insert t'.id (locked now t') db.tasks; index = left })
unfolding acquire_task
scanned started now db after t h = elim (Result-cases (scan started now db.tasks [] db.index)) [
  | inr (x, e) ↦ absurd (ground arith)
  | inl ((none, left), e) ↦ absurd (ground arith)
  | inl ((some t', left), e) ↦ (t', left, e, ground arith, ground arith)
]

-- What is taken is due, was stored open, unlocked, not waiting for a retry and not expired, and is
-- stored with a lock of five minutes before it is given out.
pub acquire_task-IsReady :
    (started now : ℕ) (db after : TaskDb) (t : Task)
    → IsIndexed db.tasks db.index
    → acquire_task started now db ≡ ok (some t, after)
    → (t' : Task) × (lookup t.id db.tasks ≡ some t')
      × IsReady started now t'
      × (t ≡ locked now t')
      × (lookup t.id after.tasks ≡ some t)
acquire_task-IsReady started now db after t w h =
    let (t', left, s, e, a) = scanned started now db after t h in
    let (r, c, l) = scan-takes started now db.tasks [] db.index t' w (ap taken s) in
    (
      t',
      rw (e) l,
      r,
      e,
      rw (e, a) (ground (arith, lookup-insert t'.id t'.id (locked now t') db.tasks)),
    )
