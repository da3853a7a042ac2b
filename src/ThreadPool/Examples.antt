-- ===== src/ThreadPool/Examples.antt =====
-- A run of the pool of src/thread_pool.c with one worker, thread 0, and one caller, thread 1.
use myclib.Prelude.{
  ℕ, ◌+◌, ◌≤◌, ◌≡◌, ◌≢◌, refl, Bool, true, false, List, [], ◌∷◌, ◌++◌, length, ltb, if◌then◌else◌,
  arith,
}
use myclib.ThreadPool.{
  Pool, Place, ready, waiting, woken, looking, failed, holding, outside, calling, testing, linked,
  posted, go_on, sem_wait, worker_lock, take, call, caller_lock, list_add_tail, sem_post,
  unlock_posted, System, pick, Reach, start, later,
}
use myclib.ThreadPool.Threads.{update, weigh}
use myclib.ThreadPool.Invariant.{owed}
use myclib.ThreadPool.Safety.{threadpool_never_fails, threadpool_queue, threadpool_delete-early}

abbrev pool : List ℕ → ℕ → Bool → List ℕ → List ℕ → Pool
pool requests requests_sem locked accepted taken = record {
  requests = requests;
  requests_sem = requests_sem;
  locked = locked;
  stop = false;
  freed = false;
  accepted = accepted;
  taken = taken;
}

abbrev places : List (ℕ × Place) → ℕ → Place
places [] = λ i. if ltb i 1 then ready else outside
places ((i, p) ∷ moves) = update (places moves) i p

-- the caller adds request 7
abbrev calls : List (ℕ × Place)
calls = (1, outside) ∷ (1, posted) ∷ (1, linked) ∷ (1, testing 7) ∷ (1, calling 7) ∷ []

abbrev appended : System
appended = record { pool = pool (7 ∷ []) 1 false (7 ∷ []) []; place = places calls }

-- and the worker takes it
abbrev takes : List (ℕ × Place)
takes = (0, holding 7) ∷ (0, looking) ∷ (0, woken) ∷ (0, waiting) ∷ calls

abbrev handed : System
handed = record { pool = pool [] 0 true (7 ∷ []) (7 ∷ []); place = places takes }

Reach-appended : Reach 3 2 1 appended
Reach-appended =
    later
      (later
        (later
          (later (later start (pick 1 (omega arith) refl call))
            (pick 1 (omega arith) refl (caller_lock refl)))
          (pick 1 (omega arith) refl (list_add_tail (omega arith))))
        (pick 1 (omega arith) refl sem_post))
      (pick 1 (omega arith) refl unlock_posted)

Reach-handed : Reach 3 2 1 handed
Reach-handed =
    later
      (later
        (later (later Reach-appended (pick 0 (omega arith) refl (go_on refl)))
          (pick 0 (omega arith) refl (sem_wait (omega arith))))
        (pick 0 (omega arith) refl (worker_lock refl)))
      (pick 0 (omega arith) refl (take refl))

threadpool_never_fails_example : handed.place 0 ≢ failed
threadpool_never_fails_example = threadpool_never_fails Reach-handed 0 (omega arith)

threadpool_queue_example :
    (handed.pool.accepted ≡ handed.pool.taken ++ handed.pool.requests)
    × (length handed.pool.requests ≡ handed.pool.requests_sem + weigh owed 2 handed.place)
    × (handed.pool.requests_sem ≤ 3)
    × (length handed.pool.requests ≤ 3 + 2)
threadpool_queue_example = threadpool_queue Reach-handed

threadpool_delete-early_example :
    (s : System) × Reach 3 2 1 s × (s.pool.freed ≡ true) × (s.place 0 ≡ waiting)
threadpool_delete-early_example = threadpool_delete-early 3 1 2 (omega arith) (omega arith)
