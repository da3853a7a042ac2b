-- ===== src/ThreadPool/Safety.antt =====
-- What the pool of src/thread_pool.c promises, over all interleavings of its threads.
use myclib.Prelude.{ℕ, ◌+◌, ◌<◌, ◌≤◌, ◌≡◌, ◌≢◌, refl, sym, ap, true, false, ◌++◌, length, arith}
use mathlib.Core.Path.{subst}
use myclib.ThreadPool.{
  Move, Pool, Place, ready, waiting, failed, outside, go_on, threadpool_delete, System, Step, pick,
  threadpool_new, Reach, start, later,
}
use myclib.ThreadPool.Threads.{update, weigh, le-weigh, weigh_all}
use myclib.ThreadPool.Invariant.{owed, fails, Reach-Inv}

-- A worker that has got past `sem_wait` finds a request in the list: with any number of workers and of
-- other threads, in any interleaving, no thread comes to the `assert(0)` for an empty list.
pub threadpool_never_fails :
    {max_requests n workers : ℕ} {s : System}
    → Reach max_requests n workers s
    → (i : ℕ) → i < n
    → s.place i ≢ failed
threadpool_never_fails {n} {s} r i h e =
    let none : weigh fails n s.place ≡ 0 = (Reach-Inv r).sound in
    let here : fails (s.place i) ≡ 1 = ap fails e in
    omega (arith, le-weigh fails n s.place i h, none, here)

owed-le-one : (p : Place) → owed p ≤ 1
owed-le-one p = ground arith

-- In every state the requests are taken in the order in which they were accepted, each once and none
-- lost: what was taken, with what is in the list behind it, is what was accepted. The semaphore counts
-- the requests of the list that no thread has claimed or is just adding, so that none is ever left
-- without a wake-up. It stays within `max_requests`, and the list within that and the number of threads.
pub threadpool_queue :
    {max_requests n workers : ℕ} {s : System}
    → Reach max_requests n workers s
    → (s.pool.accepted ≡ s.pool.taken ++ s.pool.requests)
      × (length s.pool.requests ≡ s.pool.requests_sem + weigh owed n s.place)
      × (s.pool.requests_sem ≤ max_requests)
      × (length s.pool.requests ≤ max_requests + n)
threadpool_queue {n} {s} r =
    let v = Reach-Inv r in
    let few = weigh_all owed n s.place (λ p. owed-le-one p) in
    (v.ordered, v.counted, omega (arith, v.bounded), omega (arith, v.bounded, v.counted, few))

Step-Move :
    {max_requests n : ℕ} (s : System) (i : ℕ) {p : Place} {tp : Pool} {q : Place}
    → i < n
    → s.pool.freed ≡ false
    → s.place i ≡ p
    → Move max_requests s.pool p tp q
    → Step max_requests n s (record { pool = tp; place = update s.place i q })
Step-Move {max_requests} s i {p} {tp} {q} h live e m =
    pick i h live (subst (λ x. Move max_requests s.pool x tp q) (sym e) m)

-- `threadpool_delete` does not wait for the workers: with any number of workers but 0 and another
-- thread, there is an interleaving in which the pool is freed while a worker waits for its semaphore.
pub threadpool_delete-early :
    (max_requests workers n : ℕ)
    → 0 < workers
    → workers < n
    → (s : System) × Reach max_requests n workers s × (s.pool.freed ≡ true) × (s.place 0 ≡ waiting)
threadpool_delete-early max_requests workers n h k =
    let s₀ = threadpool_new workers in
    let s₁ : System = record { pool = s₀.pool; place = update s₀.place 0 waiting } in
    let deleted : Pool = record s₁.pool { stop = true; freed = true } in
    let s₂ : System = record { pool = deleted; place = update s₁.place workers outside } in
    let worker : s₀.place 0 ≡ ready = ground arith in
    let caller : s₁.place workers ≡ outside = ground arith in
    let r₁ : Reach max_requests n workers s₁ =
      later start (Step-Move s₀ 0 (omega arith) refl worker (go_on refl)) in
    let r₂ : Reach max_requests n workers s₂ =
      later r₁ (Step-Move s₁ workers k refl caller threadpool_delete) in
    (s₂, r₂, refl, ground arith)
