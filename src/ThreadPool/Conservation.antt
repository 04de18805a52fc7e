-- ===== src/ThreadPool/Conservation.antt =====
-- No task is lost, and none is done twice.
use cdroid_demo.Common.{
  ℕ, zero, suc, ◌+◌, ◌≡◌, refl, inl, inr, Bool, false, List, [], ◌∷◌, ◌++◌, Option, none, some,
  ◌==◌, arith, if◌then◌else◌, replicate, Option-cases,
}
use cdroid_demo.ThreadPool.{
  ThreadPool, ThreadData, ThreadStatus, ts_null, ts_idle, ts_busy, ts_over, give_idle, give_tasks,
  end_tasks, run_thread, is_del, free_task,
}

-- How often a task stands in a list, and how many threads are busy with it.
unfoldable pub count : ℕ → List ℕ → ℕ
count x [] = 0
count x (y ∷ ys) = (if y == x then 1 else 0) + count x ys

unfoldable pub works_on : ℕ → ThreadData → ℕ
works_on x td = elim td.status [
  | ts_busy ↦ elim td.tdata [ none ↦ 0 | some d ↦ if d == x then 1 else 0 ]
  | _ ↦ 0
]

unfoldable pub busy : ℕ → List ThreadData → ℕ
busy x [] = 0
busy x (td ∷ threads) = works_on x td + busy x threads

-- The places of a task: it waits, a thread is busy with it, it waits for the main thread, or the
-- main thread is done with it.
unfoldable pub places : ℕ → ThreadPool → ℕ
places x p = count x p.wait_tasks + busy x p.threads + count x p.main_tasks + count x p.freed

pub count-append : (x : ℕ) (ys zs : List ℕ) → count x (ys ++ zs) ≡ count x ys + count x zs
unfolding count
count-append x [] zs = omega arith
count-append x (y ∷ ys) zs = omega (arith, count-append x ys zs)

pub busy-append : (x : ℕ) (ts us : List ThreadData) → busy x (ts ++ us) ≡ busy x ts + busy x us
unfolding busy
busy-append x [] us = omega arith
busy-append x (t ∷ ts) us = omega (arith, busy-append x ts us)

pub busy-new : (x n : ℕ) → busy x (replicate n (record { status = ts_null; tdata = none })) ≡ 0
unfolding busy works_on
busy-new x zero = refl
busy-new x (suc n) = omega (arith, busy-new x n)

abbrev GivesOne : ℕ → ℕ → List ThreadData → Option (List ThreadData) → Type 0
GivesOne x id threads none = Unit
GivesOne x id threads (some given) = busy x given ≡ (if id == x then 1 else 0) + busy x threads

GivesOne-cons :
    (x id : ℕ) (td : ThreadData) (threads : List ThreadData) (r : Option (List ThreadData))
    → GivesOne x id threads r
    → GivesOne x id (td ∷ threads) (elim r [ none ↦ none | some given ↦ some (td ∷ given) ])
unfolding busy
GivesOne-cons x id td threads none g = tt
GivesOne-cons x id td threads (some given) g = omega (arith, g)

idle-works_on : (x : ℕ) (td : ThreadData) → td.status ≡ ts_idle → works_on x td ≡ 0
unfolding works_on
idle-works_on x td e = rw e

give_idle-busy :
    (x id : ℕ) (threads : List ThreadData) → GivesOne x id threads (give_idle id threads)
unfolding give_idle
give_idle-busy x id [] = tt
give_idle-busy x id (td ∷ threads) =
    by_status (GivesOne-cons x id td threads (give_idle id threads) (give_idle-busy x id threads))
      td.status refl
  where
    by_status :
        GivesOne x id
          (td ∷ threads)
          (elim (give_idle id threads) [ none ↦ none | some given ↦ some (td ∷ given) ])
        → (s : ThreadStatus) → td.status ≡ s
        → let rest : Option (List ThreadData) = elim (give_idle id threads) [
          | none ↦ none
          | some given ↦ some (td ∷ given)
        ] in
          GivesOne x id (td ∷ threads) (elim s [
            | ts_idle ↦ some (record { status = ts_busy; tdata = some id } ∷ threads)
            | _ ↦ rest
          ])
    by_status later ts_null e = later
    by_status later ts_idle e = unfold busy works_on in omega (arith, idle-works_on x td e)
    by_status later ts_busy e = later
    by_status later ts_over e = later

pub give_tasks-busy :
    (x : ℕ) (threads : List ThreadData) (wait : List ℕ)
    → count x (give_tasks threads wait).1 + busy x (give_tasks threads wait).0
      ≡ count x wait + busy x threads
unfolding give_tasks count
give_tasks-busy x threads [] = refl
give_tasks-busy x threads (id ∷ wait) =
    given (give_idle id threads) (give_idle-busy x id threads) (λ ts. give_tasks-busy x ts wait)
  where
    given :
        (r : Option (List ThreadData))
        → GivesOne x id threads r
        → ((ts : List ThreadData)
            → count x (give_tasks ts wait).1 + busy x (give_tasks ts wait).0
              ≡ count x wait + busy x ts)
        → let out : List ThreadData × List ℕ = elim r [
          | none ↦ (threads, id ∷ wait)
          | some ts ↦ give_tasks ts wait
        ] in
          count x out.1 + busy x out.0 ≡ (if id == x then 1 else 0) + count x wait + busy x threads
    given none g ih = refl
    given (some ts) g ih = omega (arith, g, ih ts)

pub end_tasks-places :
    (n x : ℕ) (slow : ℕ → Bool) (p : ThreadPool) (main : List ℕ)
    → places x (end_tasks n slow p main) ≡ places x (record p { main_tasks = main })
unfolding end_tasks places count
end_tasks-places zero x slow p main = refl
end_tasks-places (suc n) x slow p [] = refl
end_tasks-places (suc n) x slow p (id ∷ main) = ground (
  arith,
  end_tasks-places n x slow
      (record p {
        tasks = free_task id p.tasks;
        freed = id ∷ p.freed;
        called = elim (is_del id p.tasks) [ some false ↦ id ∷ p.called | _ ↦ p.called ];
      })
      main,
)

pub run_thread-busy :
    (x i : ℕ) (done : Bool) (tasks : List (ℕ × Bool)) (threads : List ThreadData) (main : List ℕ)
    → busy x (run_thread i done tasks threads main).0
        + count x (run_thread i done tasks threads main).1
      ≡ busy x threads + count x main
unfolding run_thread busy works_on count
run_thread-busy x i done tasks [] main = ground arith
run_thread-busy x (suc i) done tasks (td ∷ threads) main =
    omega (arith, run_thread-busy x i done tasks threads main)
run_thread-busy x zero done tasks (td ∷ threads) main = elim (Option-cases td.tdata) [
  | inl nothing ↦ ground (arith, nothing)
  | inr (d, task) ↦ ground (arith, task, count-append x main (d ∷ []))
]

pub end_tasks-task_id :
    (n : ℕ) (slow : ℕ → Bool) (p : ThreadPool) (main : List ℕ)
    → (end_tasks n slow p main).task_id ≡ p.task_id
unfolding end_tasks
end_tasks-task_id zero slow p main = refl
end_tasks-task_id (suc n) slow p [] = refl
end_tasks-task_id (suc n) slow p (id ∷ main) = ground (
  arith,
  end_tasks-task_id n slow
      (record p {
        tasks = free_task id p.tasks;
        freed = id ∷ p.freed;
        called = elim (is_del id p.tasks) [ some false ↦ id ∷ p.called | _ ↦ p.called ];
      })
      main,
)
