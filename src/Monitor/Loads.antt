-- ===== src/Monitor/Loads.antt =====
-- The monitor's loads against the tasks that it tracks.
use open_research_agent.Base.{
  ℕ, suc, ◌+◌, ◌^◌, ◌≤◌, ◌<◌, ◌≡◌, refl, ap, ◌∙◌, ◌≢◌, inl, inr, List, [], ◌∷◌, Bool, true, false,
  not, ◌&&◌, Bool-cases, ℤ, pos, ◌+ℤ◌, ◌-ℤ◌, int64, int64-suc_pos, arith, some, none, String,
  str_eq, eq_iff, eq_refl, if◌then◌else◌, length, count_if,
}
use open_research_agent.Base.GoMap.{lookup, insert, lookup-insert}
use open_research_agent.Domain.{TaskStatus}
use open_research_agent.Monitor.{
  TaskProgress, ProgressMonitor, new_progress_monitor, load_of, track_task, newly_tracked,
  is_settled, drop_load, update_task_status,
}

-- The tasks that a worker has been given and that are not settled.
abbrev pub works_on : String → String × TaskProgress → Bool
works_on worker entry = str_eq entry.1.worker_id worker && not (is_settled entry.1.status)

abbrev pub open_tasks : String → ProgressMonitor → ℕ
open_tasks worker m = count_if (works_on worker) m.tasks

-- A new entry counts if it passes, and an entry that is overwritten counts no more.
module _ {ℓ} {V : Type ℓ} (p : String × V → Bool) where
  abbrev one : String → V → ℕ
  one k v = if p (k, v) then 1 else 0

  count_if-insert_new :
      (k : String) (v : V) (m : List (String × V))
      → lookup k m ≡ none
      → count_if p (insert k v m) ≡ count_if p m + one k v
  unfolding lookup insert
  count_if-insert_new k v [] h = omega arith
  count_if-insert_new k v ((j, w) ∷ m) h = ground (arith, eq_iff j k, count_if-insert_new k v m)

  count_if-insert_old :
      (k : String) (v w : V) (m : List (String × V))
      → lookup k m ≡ some w
      → count_if p (insert k v m) + one k w ≡ count_if p m + one k v
  unfolding lookup insert
  count_if-insert_old k v w [] h = cc
  count_if-insert_old k v w ((j, u) ∷ m) h = ground (arith, eq_iff j k, count_if-insert_old k v w m)

-- The load of each worker is the number of its open tasks.
pub record IsExact (m : ProgressMonitor) : Type 0 where
  pub loads : (worker : String) → load_of m.worker_loads worker ≡ pos (open_tasks worker m)

pub new_progress_monitor-IsExact : IsExact new_progress_monitor
unfolding new_progress_monitor load_of lookup
new_progress_monitor-IsExact = record { loads = λ worker. refl }

load_of-insert :
    (loads : List (String × ℤ)) (worker other : String) (load : ℤ)
    → load_of (insert worker load loads) other
      ≡ (if str_eq worker other then load else load_of loads other)
unfolding load_of
load_of-insert loads worker other load = ground (arith, lookup-insert worker other load loads)

-- Tracking a task that the monitor does not know keeps the loads exact.
track_task-IsExact :
    (now : ℕ) (task_id worker : String) (m : ProgressMonitor)
    → lookup task_id m.tasks ≡ none
    → open_tasks worker m + 1 < 2 ^ 63
    → IsExact m
    → IsExact (track_task now task_id worker m)
unfolding track_task
track_task-IsExact now task_id worker m new room v = record {
  loads = λ other. ground (
    arith,
    v.loads worker,
    v.loads other,
    load_of-insert m.worker_loads worker other (int64 (load_of m.worker_loads worker +ℤ pos 1)),
    count_if-insert_new (works_on other) task_id (newly_tracked now task_id worker) m.tasks new,
    int64-suc_pos (open_tasks worker m),
    eq_iff worker other,
  );
}

count_if-le-length {ℓ} : {A : Type ℓ} (p : A → Bool) (xs : List A) → count_if p xs ≤ length xs
count_if-le-length p [] = omega arith
count_if-le-length p (x ∷ xs) = ground (arith, count_if-le-length p xs)

int64-pred_pos : (n : ℕ) → n < 2 ^ 63 → int64 (pos (suc n) -ℤ pos 1) ≡ pos n
unfolding int64
int64-pred_pos n h = ground arith

-- A load that is exact at `suc n` falls to `n`.
load_of-drop_load :
    (loads : List (String × ℤ)) (worker other : String) (n : ℕ)
    → load_of loads worker ≡ pos (suc n)
    → n < 2 ^ 63
    → load_of (drop_load worker loads) other
      ≡ (if str_eq worker other then pos n else load_of loads other)
unfolding drop_load
load_of-drop_load loads worker other n e h = ground (
  arith,
  load_of-insert loads worker other (int64 (load_of loads worker -ℤ pos 1)),
  int64-pred_pos n h,
)

-- Settling an open task takes one from its worker's load.
settle-IsExact :
    (now : ℕ) (task_id : String) (status : TaskStatus) (p : TaskProgress) (m : ProgressMonitor)
    → lookup task_id m.tasks ≡ some p
    → is_settled p.status ≡ false
    → is_settled status ≡ true
    → length m.tasks < 2 ^ 63
    → IsExact m
    → IsExact (record {
      tasks = insert task_id (record p { status = status; end_time = some now }) m.tasks;
      worker_loads = drop_load p.worker_id m.worker_loads;
    })
settle-IsExact now task_id status p m known open_before settles room v =
    let p' : TaskProgress = record p { status = status; end_time = some now } in
    let w = p.worker_id in
    let less = count_if-insert_old (works_on w) task_id p' p m.tasks known in
    let few = count_if-le-length (works_on w) m.tasks in
    let n = count_if (works_on w) (insert task_id p' m.tasks) in
    let here : open_tasks w m ≡ suc n = ground (arith, less, eq_refl w) in
    record {
      loads = λ other. ground (
        arith,
        v.loads other,
        load_of-drop_load m.worker_loads w other n (v.loads w ∙ ap pos here) (omega arith),
        count_if-insert_old (works_on other) task_id p' p m.tasks known,
        eq_iff w other,
      );
    }

-- An update of an open task to an open status leaves the loads alone.
reopen-IsExact :
    (task_id : String) (status : TaskStatus) (p : TaskProgress) (m : ProgressMonitor)
    → lookup task_id m.tasks ≡ some p
    → is_settled p.status ≡ false
    → is_settled status ≡ false
    → IsExact m
    → IsExact (record m { tasks = insert task_id (record p { status = status }) m.tasks })
reopen-IsExact task_id status p m known open_before stays v =
    let p' : TaskProgress = record p { status = status } in
    record {
      loads = λ other.
          v.loads other
          ∙ ap pos
              (ground (arith, count_if-insert_old (works_on other) task_id p' p m.tasks known));
    }

update_task_status-IsExact :
    (now : ℕ) (task_id : String) (status : TaskStatus) (p : TaskProgress) (m : ProgressMonitor)
    → lookup task_id m.tasks ≡ some p
    → is_settled p.status ≡ false
    → length m.tasks < 2 ^ 63
    → IsExact m
    → IsExact (update_task_status now task_id status m)
unfolding update_task_status
update_task_status-IsExact now task_id status p m known open_before room v =
    elim (Bool-cases (is_settled status)) [
      | inl settles ↦
          rw (known, update_task_status)
            (rw settles (settle-IsExact now task_id status p m known open_before settles room v))
      | inr stays ↦
          rw (known, update_task_status)
            (rw stays (reopen-IsExact task_id status p m known open_before stays v))
    ]

-- What the monitor is told of: a task that it does not know is tracked, and an open task changes its
-- status. The number of tasks is an int.
pub data Step (m : ProgressMonitor) : ProgressMonitor → Type 0 where
  tracks :
      (now : ℕ) (task_id worker : String)
      → lookup task_id m.tasks ≡ none
      → length m.tasks + 1 < 2 ^ 63
      → Step m (track_task now task_id worker m)
  updates :
      (now : ℕ) (task_id : String) (status : TaskStatus) (p : TaskProgress)
      → lookup task_id m.tasks ≡ some p
      → is_settled p.status ≡ false
      → length m.tasks < 2 ^ 63
      → Step m (update_task_status now task_id status m)

pub data Reach (m : ProgressMonitor) : ProgressMonitor → Type 0 where
  here : Reach m m
  next : {n o : ProgressMonitor} → Reach m n → Step n o → Reach m o

Step-IsExact : {m n : ProgressMonitor} → Step m n → IsExact m → IsExact n
Step-IsExact {m} (tracks now task_id worker new room) v =
    track_task-IsExact now task_id worker m new
      (omega (arith, count_if-le-length (works_on worker) m.tasks)) v
Step-IsExact {m} (updates now task_id status p known open_before room) v =
    update_task_status-IsExact now task_id status p m known open_before room v

-- In every state that a new monitor reaches by tracking each task once and settling it once, the
-- load of each worker is the number of tasks that it has and that are not settled.
pub Reach-IsExact : {m : ProgressMonitor} → Reach new_progress_monitor m → IsExact m
Reach-IsExact here = new_progress_monitor-IsExact
Reach-IsExact (next r s) = Step-IsExact s (Reach-IsExact r)

-- A task that is tracked again for another worker, as `RebalanceTasks` does, leaves its first worker
-- a load of one too many.
pub track_task_again_leaks :
    (now : ℕ) (task_id worker : String) (p : TaskProgress) (m : ProgressMonitor)
    → IsExact m
    → lookup task_id m.tasks ≡ some p
    → is_settled p.status ≡ false
    → p.worker_id ≢ worker
    → let m' = track_task now task_id worker m in
      load_of m'.worker_loads p.worker_id ≡ pos (open_tasks p.worker_id m' + 1)
unfolding track_task
track_task_again_leaks now task_id worker p m v known open_before other = ground (
  arith,
  v.loads p.worker_id,
  load_of-insert m.worker_loads worker p.worker_id (int64 (load_of m.worker_loads worker +ℤ pos 1)),
  count_if-insert_old (works_on p.worker_id) task_id (newly_tracked now task_id worker) p m.tasks
      known,
  eq_iff worker p.worker_id,
  eq_refl p.worker_id,
)
