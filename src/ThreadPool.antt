-- ===== src/ThreadPool.antt =====
-- src/common/comm_class.cc: ThreadPool. A task is its id, which stands for the pointer too; `tasks`
-- holds the tasks that exist, with isDel, so a task that two places name is one. The threads and
-- the main thread take turns in any order; each function is one turn. The mutex guards mMainTasks
-- alone, and no turn leaves it locked.
pub mod Conservation
pub mod Turns
mod Examples
use cdroid_demo.Common.{
  ℕ, zero, suc, ◌+◌, Bool, true, false, ◌||◌, List, [], ◌∷◌, ◌++◌, Option, none, some, ltb, ◌==◌,
  if◌then◌else◌, replicate,
}

pub data ThreadStatus : Type 0 where
  ts_null ts_idle ts_busy ts_over : ThreadStatus

-- tdata is 0 until the first task, and keeps pointing to the last one.
pub record ThreadData : Type 0 where
  pub status : ThreadStatus
  pub tdata : Option ℕ

pub record ThreadPool : Type 0 where
  pub is_init : Bool
  pub task_id : ℕ
  pub threads : List ThreadData
  pub wait_tasks : List ℕ
  pub main_tasks : List ℕ
  pub tasks : List (ℕ × Bool)
  -- The tasks that the main thread has done with, and those whose onMain it called.
  pub freed : List ℕ
  pub called : List ℕ

unfoldable pub new_pool : ThreadPool
new_pool = record {
  is_init = false;
  task_id = 0;
  threads = [];
  wait_tasks = [];
  main_tasks = [];
  tasks = [];
  freed = [];
  called = [];
}

-- A count of 0 is 1; a negative one is not modelled.
pub init : ThreadPool → ℕ → ThreadPool
init p count = if p.is_init then p else record p {
  is_init = true;
  threads =
      p.threads
      ++ replicate (if count == 0 then 1 else count) (record { status = ts_null; tdata = none });
}

-- With a sink; the id is the new task_id.
pub add : ThreadPool → ThreadPool
add p = record p {
  task_id = p.task_id + 1;
  wait_tasks = p.wait_tasks ++ (p.task_id + 1) ∷ [];
  tasks = (p.task_id + 1, false) ∷ p.tasks;
}

-- isDel of a task, `none` where it has been freed.
pub is_del : ℕ → List (ℕ × Bool) → Option Bool
is_del id [] = none
is_del id ((key, flag) ∷ tasks) =
    let rest = is_del id tasks in if key == id then some flag else rest

pub mark_del : ℕ → List (ℕ × Bool) → List (ℕ × Bool)
mark_del id [] = []
mark_del id ((key, flag) ∷ tasks) =
    let rest = mark_del id tasks in if key == id then (key, true) ∷ rest else (key, flag) ∷ rest

pub data Found : Type 0 where
  -- td->tdata is 0, or points to a task that has been freed.
  null_pointer dangling : Found
  found absent : Found

-- The loop of `del` over the threads.
pub find_thread : ℕ → List (ℕ × Bool) → List ThreadData → Found
find_thread id tasks [] = absent
find_thread id tasks (td ∷ threads) =
    let rest = find_thread id tasks threads in
    elim td.tdata [
      | none ↦ null_pointer
      | some d ↦ elim (is_del d tasks) [
        | none ↦ dangling
        | some flag ↦ if d == id then found else rest
      ]
    ]

pub in_list : ℕ → List ℕ → Bool
in_list id [] = false
in_list id (d ∷ ds) = let rest = in_list id ds in d == id || rest

pub data DelResult : Type 0 where
  crashed : DelResult
  deleted : ThreadPool → DelResult
  no_task : DelResult

pub del : ThreadPool → ℕ → DelResult
del p id = elim (find_thread id p.tasks p.threads) [
  | null_pointer ↦ crashed
  | dangling ↦ crashed
  | found ↦ deleted (record p { tasks = mark_del id p.tasks })
  | absent ↦
      if in_list id p.wait_tasks
      then deleted (record p { tasks = mark_del id p.tasks })
      else no_task
]

-- getIdle, and the task given to the thread.
pub give_idle : ℕ → List ThreadData → Option (List ThreadData)
give_idle id [] = none
give_idle id (td ∷ threads) =
    let rest : Option (List ThreadData) = elim (give_idle id threads) [
      | none ↦ none
      | some given ↦ some (td ∷ given)
    ] in
    elim td.status [
      | ts_idle ↦ some (record { status = ts_busy; tdata = some id } ∷ threads)
      | _ ↦ rest
    ]

-- The first loop of handleEvents.
pub give_tasks : List ThreadData → List ℕ → List ThreadData × List ℕ
give_tasks threads [] = (threads, [])
give_tasks threads (id ∷ wait) = elim (give_idle id threads) [
  | none ↦ (threads, id ∷ wait)
  | some given ↦ give_tasks given wait
]

pub free_task : ℕ → List (ℕ × Bool) → List (ℕ × Bool)
free_task id [] = []
free_task id ((key, flag) ∷ tasks) =
    let rest = free_task id tasks in if key == id then rest else (key, flag) ∷ rest

-- The second loop, with `n` rounds left; `slow` tells after which task more than half a second has
-- passed.
pub end_tasks : ℕ → (ℕ → Bool) → ThreadPool → List ℕ → ThreadPool
end_tasks zero slow p main = record p { main_tasks = main }
end_tasks (suc n) slow p [] = record p { main_tasks = [] }
end_tasks (suc n) slow p (id ∷ main) =
    let ended : ThreadPool = record p {
      tasks = free_task id p.tasks;
      freed = id ∷ p.freed;
      called = elim (is_del id p.tasks) [ some false ↦ id ∷ p.called | _ ↦ p.called ];
    } in
    let rest = end_tasks n slow ended main in
    if slow id then record ended { main_tasks = main } else rest

pub handle_events : ThreadPool → (ℕ → Bool) → ThreadPool
handle_events p slow =
    let (threads, wait) = give_tasks p.threads p.wait_tasks in
    end_tasks 3 slow (record p { threads = threads; wait_tasks = wait }) p.main_tasks

-- One turn of onThread of the thread `i`; `done` tells whether onTask answers 0.
pub run_thread : ℕ → Bool → List (ℕ × Bool) → List ThreadData → List ℕ → List ThreadData × List ℕ
run_thread i done tasks [] main = ([], main)
run_thread (suc i) done tasks (td ∷ threads) main =
    let rest = run_thread i done tasks threads main in (td ∷ rest.0, rest.1)
run_thread zero done tasks (td ∷ threads) main = elim td.status [
  | ts_null ↦ (record td { status = ts_idle } ∷ threads, main)
  | ts_idle ↦ (td ∷ threads, main)
  | ts_over ↦ (td ∷ threads, main)
  | ts_busy ↦ elim td.tdata [
    | none ↦ (td ∷ threads, main)
    | some id ↦
        if elim (is_del id tasks) [ some flag ↦ flag | none ↦ false ] || done
        then (record td { status = ts_idle } ∷ threads, main ++ id ∷ [])
        else (td ∷ threads, main)
  ]
]

pub on_thread : ThreadPool → ℕ → Bool → ThreadPool
on_thread p i done =
    let (threads, main) = run_thread i done p.tasks p.threads p.main_tasks in
    record p { threads = threads; main_tasks = main }
