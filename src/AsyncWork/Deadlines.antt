-- ===== src/AsyncWork/Deadlines.antt =====
-- The deadlines of the works of src/async_work.c, over many checks.
use myclib.Prelude.{
  ℕ, zero, suc, ◌+◌, ◌-◌, ◌%◌, ◌^◌, ◌≤◌, ◌<◌, ◌≡◌, ◌≢◌, ◌==◌, refl, ◌∙◌, true, false, Bool-cases,
  Option, some, ◌>>=◌, List, [], ◌∷◌, map, ltb, leb, All, arith, inl, inr,
}
use myclib.AsyncWork.{
  Work, Context, Hook, async_work_get, async_work_put, insert_work, async_work_append,
  async_work_assign, begin_work, async_work_work, time_out, async_work_timeout_check,
}
use myclib.AsyncWork.Order.{
  Sorted, waiting, due, insert_work-Sorted, take_expired-due, waiting-Sorted, waiting-waiting,
}

-- a work that is assigned, with the references of the list and of the pool
abbrev fresh : (id deadline : ℕ) → Work
fresh id deadline = record {
  id = id;
  deadline = deadline;
  is_timeout = false;
  ref = 2;
  tid = 0;
  is_set_jmp = false;
}

-- the same, when a thread has taken it
abbrev begun : (id tid deadline : ℕ) → Work
begun id tid deadline = record (fresh id deadline) { tid = tid; is_set_jmp = true }

-- A work whose thread is known, with the references that the list and a thread have.
pub record Started (w : Work) : Type 0 where
  pub has_tid : w.tid ≢ 0
  pub has_ref : 0 < w.ref
  pub small_ref : w.ref < 2 ^ 8

All-waiting-Started : (ts : ℕ) (list : List Work) → All Started list → All Started (waiting ts list)
All-waiting-Started ts [] a = tt
All-waiting-Started ts (w ∷ list) (p, a) = elim (Bool-cases (leb w.deadline ts)) [
  | inl e ↦ rw e (All-waiting-Started ts list a)
  | inr e ↦ rw e (p, All-waiting-Started ts list a)
]

All-due-Started : (ts : ℕ) (list : List Work) → All Started list → All Started (due ts list)
All-due-Started ts [] a = tt
All-due-Started ts (w ∷ list) (p, a) = elim (Bool-cases (leb w.deadline ts)) [
  | inl e ↦ rw e (
    record { has_tid = p.has_tid; has_ref = p.has_ref; small_ref = p.small_ref },
    All-due-Started ts list a,
  )
  | inr e ↦ rw e (All-due-Started ts list a)
]

-- A signal to the thread of the work and a hook for it, which keeps its references.
abbrev pub hook : Work → Hook
hook w = record { signalled = w.tid; freed = false; work = w }

time_out-hook : (list : List Work) → All Started list → time_out list ≡ some (map hook list)
unfolding time_out async_work_get async_work_put
time_out-hook [] a = refl
time_out-hook (w ∷ list) (p, a) =
    let known : w.tid == 0 ≡ false = ground (arith, p.has_tid) in
    let kept : (w.ref + 1) % 2 ^ 8 == 1 ≡ false = ground (arith, p.has_ref, p.small_ref) in
    let same : ((w.ref + 1) % 2 ^ 8 + 2 ^ 8 - 1) % 2 ^ 8 ≡ w.ref = omega (arith, p.small_ref) in
    rw known (rw (time_out-hook list a) (rw kept (rw same refl)))

check_lem :
    (ctx : Context)
    → Sorted ctx.list
    → All Started ctx.list
    → async_work_timeout_check ctx
      ≡ some (
        map hook (due (ctx.ts + 1) ctx.list),
        record { list = waiting (ctx.ts + 1) ctx.list; ts = ctx.ts + 1 },
      )
unfolding async_work_timeout_check
check_lem ctx s a =
    rw (take_expired-due (ctx.ts + 1) ctx.list s) (
      rw (time_out-hook (due (ctx.ts + 1) ctx.list) (All-due-Started (ctx.ts + 1) ctx.list a)) refl)

-- the works that `n + 1` checks in a row leave
unfoldable pub checks : ℕ → Context → Option Context
checks zero ctx = do (hooks, ctx) ← async_work_timeout_check ctx; some ctx
checks (suc n) ctx = do ctx ← checks n ctx; (hooks, ctx) ← async_work_timeout_check ctx; some ctx

checks-waiting :
    (n : ℕ) (ctx : Context)
    → Sorted ctx.list
    → All Started ctx.list
    → checks n ctx ≡ some (record { list = waiting (ctx.ts + suc n) ctx.list; ts = ctx.ts + suc n })
unfolding checks
checks-waiting zero ctx s a = rw (check_lem ctx s a) refl
checks-waiting (suc n) ctx s a =
    let ts = ctx.ts + suc n in
    let t : ts + 1 ≡ ctx.ts + suc (suc n) = omega arith in
    let now : Context = record { list = waiting ts ctx.list; ts = ts } in
    rw (checks-waiting n ctx s a) (
      rw (check_lem now (waiting-Sorted ts ctx.list s) (All-waiting-Started ts ctx.list a))
        (rw (waiting-waiting ts (ts + 1) ctx.list (omega arith)) (rw t refl)))

begin_work-le :
    (m id tid : ℕ) (list : List Work)
    → All (λ w. m ≤ w.deadline) list
    → All (λ w. m ≤ w.deadline) (begin_work id tid list)
unfolding begin_work
begin_work-le m id tid [] a = tt
begin_work-le m id tid (w ∷ list) (p, a) = elim (Bool-cases (w.id == id)) [
  | inl e ↦ rw e (p, begin_work-le m id tid list a)
  | inr e ↦ rw e (p, begin_work-le m id tid list a)
]

begin_work-Sorted : (id tid : ℕ) (list : List Work) → Sorted list → Sorted (begin_work id tid list)
unfolding begin_work
begin_work-Sorted id tid [] s = tt
begin_work-Sorted id tid (w ∷ list) (a, s) = elim (Bool-cases (w.id == id)) [
  | inl e ↦ rw e (begin_work-le w.deadline id tid list a, begin_work-Sorted id tid list s)
  | inr e ↦ rw e (begin_work-le w.deadline id tid list a, begin_work-Sorted id tid list s)
]

begin_work-Started :
    (id tid : ℕ) (list : List Work)
    → tid ≢ 0
    → All Started list
    → All Started (begin_work id tid list)
unfolding begin_work
begin_work-Started id tid [] h a = tt
begin_work-Started id tid (w ∷ list) h (p, a) = elim (Bool-cases (w.id == id)) [
  | inl e ↦ rw e (
    record { has_tid = h; has_ref = p.has_ref; small_ref = p.small_ref },
    begin_work-Started id tid list h a,
  )
  | inr e ↦ rw e (p, begin_work-Started id tid list h a)
]

-- with one more work, which the thread takes
insert_work-Started :
    (id tid deadline : ℕ) (list : List Work)
    → tid ≢ 0
    → All Started list
    → All Started (begin_work id tid (insert_work (fresh id deadline) list))
unfolding begin_work insert_work
insert_work-Started id tid deadline [] h a =
    let e : id == id ≡ true = ground arith in
    rw e (record { has_tid = h; has_ref = omega arith; small_ref = omega arith }, tt)
insert_work-Started id tid deadline (pos ∷ list) h (p, a) =
    let e : id == id ≡ true = ground arith in
    let new : Started (begun id tid deadline) = record {
      has_tid = h;
      has_ref = omega arith;
      small_ref = omega arith;
    } in
    let both = begin_work-Started id tid (pos ∷ list) h (p, a) in
    elim (Bool-cases (ltb deadline pos.deadline)) [
      | inl b ↦ rw b (rw e (new, both))
      | inr b ↦ rw b (both.0, insert_work-Started id tid deadline list h a)
    ]

-- From a sorted list of works that threads have begun, with one more work assigned and begun by a
-- thread, any number of checks but 0 ends without a fault, and the list is then sorted and holds, in
-- order, exactly the works whose deadline is still to come. The next check signals the threads and runs
-- the hooks of exactly those whose deadline it is, in order, marked as timed out, frees none of them and
-- leaves the others.
pub async_work_timeout_check-due :
    (ctx : Context) (id tid max_ts n : ℕ)
    → Sorted ctx.list
    → All Started ctx.list
    → tid ≢ 0
    → let ctx' = async_work_work (async_work_assign ctx id max_ts true).1 id tid in
      let ts = ctx'.ts + suc n in
      let later : Context = record { list = waiting ts ctx'.list; ts = ts } in
      (checks n ctx' ≡ some later)
      × Sorted later.list
      × (async_work_timeout_check later
          ≡ some (
            map hook (due (ts + 1) later.list),
            record { list = waiting (ts + 1) ctx'.list; ts = ts + 1 },
          ))
unfolding async_work_assign async_work_append
async_work_timeout_check-due ctx id tid max_ts n s a h =
    let ctx' = async_work_work (async_work_assign ctx id max_ts true).1 id tid in
    let ts = ctx'.ts + suc n in
    let later : Context = record { list = waiting ts ctx'.list; ts = ts } in
    let sorted : Sorted ctx'.list =
      begin_work-Sorted id tid _ (insert_work-Sorted (fresh id (ctx.ts + max_ts)) ctx.list s) in
    let started : All Started ctx'.list =
      insert_work-Started id tid (ctx.ts + max_ts) ctx.list h a in
    let later-Sorted = waiting-Sorted ts ctx'.list sorted in
    (
      checks-waiting n ctx' sorted started,
      later-Sorted,
      check_lem later later-Sorted (All-waiting-Started ts ctx'.list started)
          ∙ rw (waiting-waiting ts (ts + 1) ctx'.list (omega arith)) refl,
    )
