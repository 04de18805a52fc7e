-- ===== src/ThreadPool/Turns.antt =====
-- Any sequence of turns of the main thread and the pool's threads.
use cdroid_demo.Common.{
  ℕ, zero, suc, ◌+◌, ◌≡◌, refl, sym, ap, ◌∙◌, Bool, false, ◌&&◌, List, [], ◌∷◌, none, arith,
  if◌then◌else◌, leb, ◌==◌, replicate,
}
use cdroid_demo.ThreadPool.{
  ThreadPool, ts_null, new_pool, init, add, del, crashed, deleted, handle_events, on_thread,
  give_tasks, find_thread,
}
use cdroid_demo.ThreadPool.Conservation.{
  places, count, busy, count-append, busy-append, busy-new, give_tasks-busy, end_tasks-places,
  end_tasks-task_id, run_thread-busy,
}

pub data Turn : Type 0 where
  inits : ℕ → Turn
  adds : Turn
  dels : ℕ → Turn
  handles : (ℕ → Bool) → Turn
  works : ℕ → Bool → Turn

-- A `del` that crashes is left out of the sequence.
pub turn : ThreadPool → Turn → ThreadPool
turn p (inits n) = init p n
turn p adds = add p
turn p (dels id) = elim (del p id) [ deleted q ↦ q | _ ↦ p ]
turn p (handles slow) = handle_events p slow
turn p (works i done) = on_thread p i done

pub turns : ThreadPool → List Turn → ThreadPool
turns p [] = p
turns p (t ∷ ts) = turns (turn p t) ts

-- Once for each id that has been given out.
abbrev pub once : ℕ → ℕ → ℕ
once x task_id = if leb 1 x && leb x task_id then 1 else 0

init-places : (x n : ℕ) (p : ThreadPool) → places x (init p n) ≡ places x p
unfolding init places
init-places x n p = ground (
  arith,
  busy-append x p.threads
      (replicate (if n == 0 then 1 else n) (record { status = ts_null; tdata = none })),
  busy-new x (if n == 0 then 1 else n),
)

init-task_id : (n : ℕ) (p : ThreadPool) → (init p n).task_id ≡ p.task_id
unfolding init
init-task_id n p = ground arith

add-places :
    (x : ℕ) (p : ThreadPool)
    → places x p ≡ once x p.task_id
    → places x (add p) ≡ once x (add p).task_id
unfolding add places count
add-places x p e = ground (arith, e, count-append x p.wait_tasks ((p.task_id + 1) ∷ []))

del-places :
    (x id : ℕ) (p : ThreadPool)
    → (places x (turn p (dels id)) ≡ places x p) × ((turn p (dels id)).task_id ≡ p.task_id)
unfolding turn del places
del-places x id p = ground arith

handle_events-places :
    (x : ℕ) (slow : ℕ → Bool) (p : ThreadPool)
    → (places x (handle_events p slow) ≡ places x p) × ((handle_events p slow).task_id ≡ p.task_id)
unfolding handle_events
handle_events-places x slow p = (
  end_tasks-places 3 x slow q p.main_tasks
      ∙ unfold places in omega (arith, give_tasks-busy x p.threads p.wait_tasks),
  end_tasks-task_id 3 slow q p.main_tasks,
)
  where
    q : ThreadPool
    q = record p {
      threads = (give_tasks p.threads p.wait_tasks).0;
      wait_tasks = (give_tasks p.threads p.wait_tasks).1;
    }

on_thread-places :
    (x i : ℕ) (done : Bool) (p : ThreadPool)
    → (places x (on_thread p i done) ≡ places x p) × ((on_thread p i done).task_id ≡ p.task_id)
unfolding on_thread places
on_thread-places x i done p =
    (omega (arith, run_thread-busy x i done p.tasks p.threads p.main_tasks), refl)

turn-places :
    (x : ℕ) (p : ThreadPool) (t : Turn)
    → places x p ≡ once x p.task_id
    → places x (turn p t) ≡ once x (turn p t).task_id
unfolding turn
turn-places x p (inits n) e = init-places x n p ∙ e ∙ ap (once x) (sym (init-task_id n p))
turn-places x p adds e = add-places x p e
turn-places x p (dels id) e = (del-places x id p).0 ∙ e ∙ ap (once x) (sym (del-places x id p).1)
turn-places x p (handles slow) e =
    (handle_events-places x slow p).0 ∙ e ∙ ap (once x) (sym (handle_events-places x slow p).1)
turn-places x p (works i done) e =
    (on_thread-places x i done p).0 ∙ e ∙ ap (once x) (sym (on_thread-places x i done p).1)

turns-places :
    (x : ℕ) (p : ThreadPool) (ts : List Turn)
    → places x p ≡ once x p.task_id
    → places x (turns p ts) ≡ once x (turns p ts).task_id
unfolding turns
turns-places x p [] e = e
turns-places x p (t ∷ ts) e = turns-places x (turn p t) ts (turn-places x p t e)

-- However the turns follow on each other: every id that `add` has given out is in one place, and
-- there once. It waits, one thread is busy with it, it waits for the main thread, or the main
-- thread is done with it. No other id is anywhere.
pub turns-new_pool :
    (ts : List Turn) (x : ℕ) → places x (turns new_pool ts) ≡ once x (turns new_pool ts).task_id
turns-new_pool ts x = turns-places x new_pool ts (unfold new_pool places count busy in ground arith)

-- After `init` no thread has had a task, and `del` follows the null pointer of the first thread,
-- whatever task it is asked for, one that waits included.
pub del-init :
    (p : ThreadPool) (n id : ℕ) → p.is_init ≡ false → p.threads ≡ [] → del (init p n) id ≡ crashed
unfolding del init find_thread
del-init p zero id e f = rw (e, f)
del-init p (suc n) id e f =
    let positive : (suc n == 0) ≡ false = ground arith in rw (e, f, positive)
