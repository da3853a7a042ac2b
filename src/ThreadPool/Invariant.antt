-- ===== src/ThreadPool/Invariant.antt =====
-- What holds in every state of a pool of src/thread_pool.c.
use myclib.Prelude.{
  ℕ, ◌+◌, ◌-◌, ◌<◌, ◌≤◌, ◌≡◌, refl, [], ◌∷◌, ◌++◌, append_assoc, length, length-append,
  if◌then◌else◌, arith,
}
use myclib.ThreadPool.{
  Pool, Place, woken, looking, failed, holding, testing, refused, linked, posted, Move, go_on,
  finish, interrupted, sem_wait, worker_lock, list_empty, take, worker_unlock, process, call,
  caller_lock, full, list_add_tail, sem_post, unlock_posted, unlock_refused, threadpool_delete,
  System, pick, threadpool_new, Reach, start, later,
}
use myclib.ThreadPool.Threads.{update, weigh, weigh-update, le-weigh, weigh_nothing}

-- a request that the semaphore does not count any more, or not yet
abbrev pub owed : Place → ℕ
owed woken = 1
owed looking = 1
owed linked = 1
owed _ = 0

-- a request that the semaphore does not count yet
abbrev pub pending : Place → ℕ
pending linked = 1
pending _ = 0

-- has the lock
abbrev pub holds : Place → ℕ
holds looking = 1
holds failed = 1
holds (holding work) = 1
holds (testing work) = 1
holds refused = 1
holds linked = 1
holds posted = 1
holds _ = 0

-- has the lock, and no request to be counted
abbrev pub settled : Place → ℕ
settled p = holds p - pending p

abbrev pub fails : Place → ℕ
fails failed = 1
fails _ = 0

pub record Inv (max_requests n : ℕ) (tp : Pool) (place : ℕ → Place) : Type 0 where
  pub counted : length tp.requests ≡ tp.requests_sem + weigh owed n place
  pub exclusive : weigh holds n place ≡ (if tp.locked then 1 else 0)
  pub parts : weigh holds n place ≡ weigh pending n place + weigh settled n place
  pub bounded : tp.requests_sem + weigh pending n place ≤ max_requests
  pub ordered : tp.accepted ≡ tp.taken ++ tp.requests
  pub sound : weigh fails n place ≡ 0

-- A thread `i` moves from `p` to `q`: how the weights change.
record Shift (n : ℕ) (place : ℕ → Place) (i : ℕ) (p q : Place) : Type 0 where
  shift_owed : weigh owed n (update place i q) + owed p ≡ weigh owed n place + owed q
  shift_holds : weigh holds n (update place i q) + holds p ≡ weigh holds n place + holds q
  shift_pending : weigh pending n (update place i q) + pending p ≡ weigh pending n place + pending q
  shift_settled : weigh settled n (update place i q) + settled p ≡ weigh settled n place + settled q
  shift_fails : weigh fails n (update place i q) + fails p ≡ weigh fails n place + fails q
  low_owed : owed p ≤ weigh owed n place
  low_holds : holds p ≤ weigh holds n place
  low_settled : settled p ≤ weigh settled n place

shift : (n : ℕ) (place : ℕ → Place) (i : ℕ) (q : Place) → i < n → Shift n place i (place i) q
shift n place i q h = record {
  shift_owed = weigh-update owed n place i q h;
  shift_holds = weigh-update holds n place i q h;
  shift_pending = weigh-update pending n place i q h;
  shift_settled = weigh-update settled n place i q h;
  shift_fails = weigh-update fails n place i q h;
  low_owed = le-weigh owed n place i h;
  low_holds = le-weigh holds n place i h;
  low_settled = le-weigh settled n place i h;
}

Move-Inv :
    (max_requests n : ℕ) {tp tp' : Pool} (place : ℕ → Place) (i : ℕ) {p q : Place}
    → Move max_requests tp p tp' q
    → Shift n place i p q
    → Inv max_requests n tp place
    → Inv max_requests n tp' (update place i q)
Move-Inv max_requests n place i (go_on e) s v = ground arith
Move-Inv max_requests n place i (finish e) s v = ground arith
Move-Inv max_requests n place i interrupted s v = ground arith
Move-Inv max_requests n place i (sem_wait e) s v = ground arith
Move-Inv max_requests n place i (worker_lock e) s v = ground arith
Move-Inv max_requests n place i (list_empty e) s v = ground arith
Move-Inv max_requests n {tp} place i (take {work} {rest} e) s v =
    ground (arith, append_assoc tp.taken (work ∷ []) rest)
Move-Inv max_requests n place i worker_unlock s v = ground arith
Move-Inv max_requests n place i process s v = ground arith
Move-Inv max_requests n place i call s v = ground arith
Move-Inv max_requests n place i (caller_lock e) s v = ground arith
Move-Inv max_requests n place i (full e) s v = ground arith
Move-Inv max_requests n {tp} place i (list_add_tail {work} e) s v =
    ground
      (arith, append_assoc tp.taken tp.requests (work ∷ []), length-append tp.requests (work ∷ []))
Move-Inv max_requests n place i sem_post s v = ground arith
Move-Inv max_requests n place i unlock_posted s v = ground arith
Move-Inv max_requests n place i unlock_refused s v = ground arith
Move-Inv max_requests n place i threadpool_delete s v = ground arith

start-Inv :
    (max_requests n workers : ℕ)
    → Inv max_requests n (threadpool_new workers).pool (threadpool_new workers).place
start-Inv max_requests n workers =
    let place = (threadpool_new workers).place in
    let no_owed = weigh_nothing owed n place (λ i. ground arith) in
    let no_holds = weigh_nothing holds n place (λ i. ground arith) in
    let no_pending = weigh_nothing pending n place (λ i. ground arith) in
    let no_settled = weigh_nothing settled n place (λ i. ground arith) in
    record {
      counted = omega (arith, no_owed);
      exclusive = no_holds;
      parts = omega (arith, no_holds, no_pending, no_settled);
      bounded = omega (arith, no_pending);
      ordered = refl;
      sound = weigh_nothing fails n place (λ i. ground arith);
    }

pub Reach-Inv :
    {max_requests n workers : ℕ} {s : System}
    → Reach max_requests n workers s
    → Inv max_requests n s.pool s.place
Reach-Inv {max_requests} {n} {workers} start = start-Inv max_requests n workers
Reach-Inv {max_requests} {n} (later {s} r (pick i {tp} {q} h live m)) =
    Move-Inv max_requests n s.place i m (shift n s.place i q h) (Reach-Inv r)
