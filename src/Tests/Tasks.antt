-- ===== src/Tests/Tasks.antt =====
-- Runs of the task queue: two tasks of the queue 1, and one of the queue 2.
use ton_payment_network.Base.{ℕ, ◌≡◌, ◌≢◌, refl, none, some, [], ◌∷◌, ok, arith}
use ton_payment_network.Base.Dict.{lookup, insert}
use ton_payment_network.Db.Tasks.{
  Task, TaskDb, entry_of, create, create_task, put_index, scan, verdict, judge, is_locked,
  acquire_task, locked,
}
use ton_payment_network.Db.Tasks.Scan.{IsIndexed}
use ton_payment_network.Db.Tasks.Excludes.{nothing, created_other, acquire_task-excludes}
use ton_payment_network.Db.Tasks.Upkeep.{creates, acquires, rest, step, Steps-IsIndexed}
use ton_payment_network.Db.Tasks.Lost.{create_task-collides}

abbrev task : ℕ → ℕ → ℕ → Task
task id queue after = record {
  id = id;
  kind = 0;
  queue = queue;
  payload = 0;
  execute_after = after;
  re_execute_after = none;
  execute_till = none;
  created_at = 0;
  locked_at = none;
  locked_till = none;
  completed_at = none;
  last_error = 0;
}

abbrev a : Task
a = task 1 1 10

abbrev b : Task
b = task 2 1 20

abbrev c : Task
c = task 3 2 30

abbrev blank : TaskDb
blank = record { tasks = []; index = [] }

abbrev db : TaskDb
db = record {
  tasks = (1, a) ∷ (2, b) ∷ (3, c) ∷ [];
  index = entry_of a ∷ entry_of b ∷ entry_of c ∷ [];
}

sound : IsIndexed db.tasks db.index
unfolding lookup
sound =
    ((
      (a, refl, refl, refl, refl),
      ((b, refl, refl, refl, refl), ((c, refl, refl, refl, refl), tt)),
    ))

abbrev one : TaskDb
one = record { tasks = (1, a) ∷ []; index = entry_of a ∷ [] }

creates_a : create_task a blank ≡ ok one
unfolding create_task create put_index lookup insert
creates_a = refl

Steps-IsIndexed_example : IsIndexed one.tasks one.index
Steps-IsIndexed_example = Steps-IsIndexed 5 blank one (step (creates a creates_a) rest) tt

-- The queue at 100, once `a` is taken, and at 101, once `c` is taken too
abbrev holds_a : TaskDb
holds_a = record {
  tasks = (1, locked 100 a) ∷ (2, b) ∷ (3, c) ∷ [];
  index = entry_of a ∷ entry_of b ∷ entry_of c ∷ [];
}

takes_a : acquire_task 5 100 db ≡ ok (some (locked 100 a), holds_a)
unfolding acquire_task scan verdict judge is_locked lookup insert
takes_a = refl

-- While a is held, a task of the queue 3 is created.
abbrev e : Task
e = task 5 3 40

abbrev holds_more : TaskDb
holds_more = record {
  tasks = (1, locked 100 a) ∷ (2, b) ∷ (3, c) ∷ (5, e) ∷ [];
  index = entry_of a ∷ entry_of b ∷ entry_of c ∷ entry_of e ∷ [];
}

abbrev holds_both : TaskDb
holds_both = record {
  tasks = (1, locked 100 a) ∷ (2, b) ∷ (3, locked 101 c) ∷ (5, e) ∷ [];
  index = entry_of a ∷ entry_of b ∷ entry_of c ∷ entry_of e ∷ [];
}

creates_e : create_task e holds_a ≡ ok holds_more
unfolding create_task create put_index lookup insert
creates_e = refl

takes_c : acquire_task 5 101 holds_more ≡ ok (some (locked 101 c), holds_both)
unfolding acquire_task scan verdict judge is_locked lookup insert
takes_c = refl

acquire_task-excludes_example : (locked 101 c).queue ≢ (locked 100 a).queue
acquire_task-excludes_example =
    acquire_task-excludes 5 100 101 db holds_a holds_more holds_both (locked 100 a) (locked 101 c)
      sound (omega arith) takes_a (created_other e (ground arith) creates_e nothing) (omega arith)
      takes_c

abbrev finished : Task
finished = record (locked 100 a) { completed_at = some 102; locked_till = none }

abbrev without_a : TaskDb
without_a = record {
  tasks = (1, finished) ∷ (2, b) ∷ (3, c) ∷ [];
  index = entry_of b ∷ entry_of c ∷ [];
}

abbrev holds_b : TaskDb
holds_b = record {
  tasks = (1, finished) ∷ (2, locked 103 b) ∷ (3, c) ∷ [];
  index = entry_of b ∷ entry_of c ∷ [];
}

still_sound : IsIndexed holds_a.tasks holds_a.index
unfolding lookup
still_sound =
    ((
      (locked 100 a, refl, refl, refl, refl),
      ((b, refl, refl, refl, refl), ((c, refl, refl, refl, refl), tt)),
    ))

-- Two tasks of one queue and one time
abbrev d : Task
d = task 4 1 10

abbrev two : TaskDb
two = record { tasks = (1, a) ∷ (4, d) ∷ []; index = entry_of d ∷ [] }

-- The second of them is taken.
abbrev holds_d : TaskDb
holds_d = record { tasks = (1, a) ∷ (4, locked 100 d) ∷ []; index = entry_of d ∷ [] }

takes_d : acquire_task 5 100 two ≡ ok (some (locked 100 d), holds_d)
unfolding acquire_task scan verdict judge is_locked lookup insert
takes_d = refl

create_task-collides_example :
    ((x : Task) × (lookup 1 holds_d.tasks ≡ some x))
    × (acquire_task 5 200 holds_d ≡ ok (some (locked 100 d), two) → (locked 100 d).id ≢ 1)
unfolding create_task create put_index lookup insert
create_task-collides_example =
    create_task-collides 5 200 a d (locked 100 d) blank one two holds_d two tt refl refl
      (ground arith) refl refl refl refl (step (acquires 100 (some (locked 100 d)) takes_d) rest)
