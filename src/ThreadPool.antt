-- ===== src/ThreadPool.antt =====
-- src/thread_pool.c: worker threads that take requests from a queue under a spinlock, with a semaphore
-- that counts the requests.
-- The threads run interleaved, one access of shared memory to a step. The first `workers` threads run
-- `threadpool_worker`, the others call `threadpool_append` and `threadpool_delete`. A request is a
-- number; `init_worker` is left out, allocations and `pthread_create` succeed. What POSIX promises of a
-- spinlock and a semaphore is in the steps: the lock is taken only while it is free, and `sem_wait`
-- returns 0 only by taking one off a value that is not 0, or fails with `EINTR`. Memory that was freed is
-- not accessed in a step: a state whose pool is freed has no next one.
pub mod Threads
pub mod Invariant
pub mod Safety
mod Examples
use myclib.Prelude.{
  ℕ, zero, suc, ◌+◌, ◌-◌, ◌<◌, ◌≤◌, ◌≡◌, Bool, true, false, List, [], ◌∷◌, ◌++◌, ltb, if◌then◌else◌,
}
use myclib.ThreadPool.Threads.{update}

-- `struct threadpool_s`. `accepted` and `taken` record what was put into the list of requests and what
-- was taken out of it, for the theorems.
pub record Pool : Type 0 where
  pub requests : List ℕ
  pub requests_sem : ℕ
  pub locked : Bool
  pub stop : Bool
  pub freed : Bool
  pub accepted : List ℕ
  pub taken : List ℕ

-- Where a thread stands, with the request that it has in hand.
pub data Place : Type 0 where
  -- in `threadpool_worker`
  ready : Place  -- head of the loop
  waiting : Place  -- in `sem_wait`
  woken : Place  -- before the lock
  looking : Place  -- with the lock, before the test of the list
  failed : Place  -- in `assert(0)`
  holding : (work : ℕ) → Place  -- with the lock, after the list was changed
  processing : (work : ℕ) → Place
  ended : Place
  -- in `threadpool_append`
  outside : Place  -- in neither function
  calling : (work : ℕ) → Place  -- before the lock
  testing : (work : ℕ) → Place  -- with the lock, before `sem_getvalue`
  refused : Place  -- with the lock, about to return -1
  linked : Place  -- with the lock, before `sem_post`
  posted : Place  -- with the lock, about to return 0

-- One step of one thread.
pub data Move (max_requests : ℕ) (tp : Pool) : Place → Pool → Place → Type 0 where
  go_on : tp.stop ≡ false → Move max_requests tp ready tp waiting
  finish : tp.stop ≡ true → Move max_requests tp ready tp ended
  interrupted : Move max_requests tp waiting tp ready
  sem_wait :
      0 < tp.requests_sem
      → Move max_requests tp waiting (record tp { requests_sem = tp.requests_sem - 1 }) woken
  worker_lock : tp.locked ≡ false → Move max_requests tp woken (record tp { locked = true }) looking
  list_empty : tp.requests ≡ [] → Move max_requests tp looking tp failed
  take :
      {work : ℕ} {rest : List ℕ}
      → tp.requests ≡ work ∷ rest
      → Move max_requests tp looking
          (record tp { requests = rest; taken = tp.taken ++ work ∷ [] })
          (holding work)
  worker_unlock :
      {work : ℕ}
      → Move max_requests tp (holding work) (record tp { locked = false }) (processing work)
  process : {work : ℕ} → Move max_requests tp (processing work) tp ready
  call : {work : ℕ} → Move max_requests tp outside tp (calling work)
  caller_lock :
      {work : ℕ}
      → tp.locked ≡ false
      → Move max_requests tp (calling work) (record tp { locked = true }) (testing work)
  full :
      {work : ℕ} → max_requests ≤ tp.requests_sem → Move max_requests tp (testing work) tp refused
  list_add_tail :
      {work : ℕ}
      → tp.requests_sem < max_requests
      → Move max_requests tp
          (testing work)
          (record tp { requests = tp.requests ++ work ∷ []; accepted = tp.accepted ++ work ∷ [] })
          linked
  sem_post : Move max_requests tp linked (record tp { requests_sem = tp.requests_sem + 1 }) posted
  unlock_posted : Move max_requests tp posted (record tp { locked = false }) outside
  unlock_refused : Move max_requests tp refused (record tp { locked = false }) outside
  threadpool_delete : Move max_requests tp outside (record tp { stop = true; freed = true }) outside

pub record System : Type 0 where
  pub pool : Pool
  pub place : ℕ → Place

-- `n` threads
pub data Step (max_requests n : ℕ) (s : System) : System → Type 0 where
  pick :
      (i : ℕ) {tp : Pool} {q : Place}
      → i < n
      → s.pool.freed ≡ false
      → Move max_requests s.pool (s.place i) tp q
      → Step max_requests n s (record { pool = tp; place = update s.place i q })

-- The pool as `threadpool_new` leaves it, with `workers` threads started, at the head of their loops.
abbrev pub threadpool_new : ℕ → System
threadpool_new workers = record {
  pool = record {
    requests = [];
    requests_sem = 0;
    locked = false;
    stop = false;
    freed = false;
    accepted = [];
    taken = [];
  };
  place = λ i. if ltb i workers then ready else outside;
}

pub data Reach (max_requests n workers : ℕ) : System → Type 0 where
  start : Reach max_requests n workers (threadpool_new workers)
  later :
      {s t : System}
      → Reach max_requests n workers s
      → Step max_requests n s t
      → Reach max_requests n workers t
