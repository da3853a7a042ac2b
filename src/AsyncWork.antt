-- ===== src/AsyncWork.antt =====
-- src/async_work.c: works with a deadline, in one sorted list.
-- Each function here runs alone: what it does under the lock of the list, and with the works that it
-- takes out. A work is known by the number `id`, and a thread by its `pthread_t`, which is not 0; a
-- signal to thread 0 is a fault. The clock and the deadlines are not negative.
pub mod Order
pub mod Deadlines
mod Examples
use myclib.Prelude.{
  ℕ, zero, suc, ◌+◌, ◌-◌, ◌%◌, ◌^◌, Bool, true, false, Option, none, some, ◌>>=◌, List, [], ◌∷◌,
  ltb, leb, ◌==◌, if◌then◌else◌,
}

-- `async_work_t`
pub record Work : Type 0 where
  pub id : ℕ
  pub deadline : ℕ
  pub is_timeout : Bool
  pub ref : ℕ
  pub tid : ℕ
  pub is_set_jmp : Bool

-- `async_work_ctx_t`
pub record Context : Type 0 where
  pub list : List Work
  pub ts : ℕ

-- the reference count is an `unsigned char`
unfoldable pub async_work_get : Work → Work
async_work_get aw = record aw { ref = (aw.ref + 1) % 2 ^ 8 }

-- whether the work is freed, and the work
unfoldable pub async_work_put : Work → Bool × Work
async_work_put aw = (aw.ref == 1, record aw { ref = (aw.ref + 2 ^ 8 - 1) % 2 ^ 8 })

-- The loop of `async_work_append`: in front of the first work with a later deadline.
pub insert_work : Work → List Work → List Work
insert_work aw [] = aw ∷ []
insert_work aw (pos ∷ list) =
    let rest = insert_work aw list in
    if ltb aw.deadline pos.deadline then aw ∷ pos ∷ list else pos ∷ rest

unfoldable pub async_work_append : Context → Work → Context
unfolding async_work_get insert_work
async_work_append ctx aw = record ctx { list = insert_work (async_work_get aw) ctx.list }

-- A work is shared with the list: the reference for the pool, which is taken after the list has the work,
-- is counted before. Whether the pool takes the work, `accepted`, is only in the result.
unfoldable pub async_work_assign : Context → (id max_ts : ℕ) → (accepted : Bool) → Bool × Context
unfolding async_work_append async_work_get
async_work_assign ctx id max_ts accepted =
    let aw : Work = record {
      id = id;
      deadline = ctx.ts + max_ts;
      is_timeout = false;
      ref = 0;
      tid = 0;
      is_set_jmp = false;
    } in
    (accepted, async_work_append ctx (async_work_get aw))

-- The beginning of `async_work_work`, in the thread `tid`, up to the call of `work`; a work that is no
-- longer in the list is not seen.
unfoldable pub begin_work : (id tid : ℕ) → List Work → List Work
begin_work id tid [] = []
begin_work id tid (aw ∷ list) =
    (if aw.id == id then record aw { tid = tid; is_set_jmp = true } else aw)
    ∷ begin_work id tid list

abbrev pub async_work_work : Context → (id tid : ℕ) → Context
async_work_work ctx id tid = record ctx { list = begin_work id tid ctx.list }

-- The loop of `async_work_timeout_check` under the lock: the works that are taken out, and the others.
pub take_expired : ℕ → List Work → List Work × List Work
take_expired ts [] = ([], [])
take_expired ts (pos ∷ list) =
    let (expired, rest) = take_expired ts list in
    if leb pos.deadline ts
    then (record pos { is_timeout = true } ∷ expired, rest)
    else ([], pos ∷ list)

-- What is done with a work whose time is out: the thread that SIGUSR1 is sent to, then the hook, and
-- whether the work is freed behind it.
pub record Hook : Type 0 where
  pub signalled : ℕ
  pub freed : Bool
  pub work : Work

-- The second loop: the reference for the signal is taken, and that of the list is given up.
pub time_out : List Work → Option (List Hook)
unfolding async_work_get async_work_put
time_out [] = some []
time_out (pos ∷ list) =
    let later = time_out list in
    let got = async_work_get pos in
    if got.tid == 0 then none else (do
      hooks ← later
      let (freed, work) = async_work_put got
      some (record { signalled = got.tid; freed = freed; work = work } ∷ hooks))

-- the works whose `work_timeout_hook` runs, in order
unfoldable pub async_work_timeout_check : Context → Option (List Hook × Context)
unfolding take_expired time_out
async_work_timeout_check ctx =
    let ts = ctx.ts + 1 in
    let (expired, rest) = take_expired ts ctx.list in
    (do hooks ← time_out expired; some (hooks, record { list = rest; ts = ts }))
