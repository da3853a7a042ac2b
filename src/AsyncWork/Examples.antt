-- ===== src/AsyncWork/Examples.antt =====
-- Works of src/async_work.c at concrete deadlines.
use myclib.Prelude.{ℕ, ◌+◌, ◌≡◌, All, refl, true, false, none, some, [], ◌∷◌, map, arith}
use myclib.AsyncWork.{
  Work, Context, begin_work, async_work_assign, async_work_work, async_work_timeout_check,
}
use myclib.AsyncWork.Order.{Sorted, waiting, due}
use myclib.AsyncWork.Deadlines.{Started, hook, checks, async_work_timeout_check-due}

abbrev work : (id deadline tid : ℕ) → Work
work id deadline tid = record {
  id = id;
  deadline = deadline;
  is_timeout = false;
  ref = 2;
  tid = tid;
  is_set_jmp = true;
}

abbrev context : Context
context = record { list = work 1 4 21 ∷ work 2 9 22 ∷ []; ts = 3 }

context-Sorted : Sorted context.list
context-Sorted = ((omega arith, tt), (tt, tt))

context-Started : All Started context.list
context-Started = (
  record { has_tid = omega arith; has_ref = omega arith; small_ref = omega arith },
  (record { has_tid = omega arith; has_ref = omega arith; small_ref = omega arith }, tt),
)

-- with a work 7, which the thread 23 takes
abbrev begun : Context
begun = async_work_work (async_work_assign context 7 2 true).1 7 23

assign_test : begun ≡ record { list = work 1 4 21 ∷ work 7 5 23 ∷ work 2 9 22 ∷ []; ts = 3 }
unfolding async_work_assign begin_work
assign_test = refl

-- a work that no thread has taken when its time is out
waiting_test : checks 1 (async_work_assign context 7 2 true).1 ≡ none
unfolding checks async_work_assign async_work_timeout_check
waiting_test = refl

async_work_timeout_check-due_example :
    let later : Context = record { list = waiting (begun.ts + 1) begun.list; ts = begun.ts + 1 } in
    (checks 0 begun ≡ some later)
    × Sorted later.list
    × (async_work_timeout_check later
        ≡ some (
          map hook (due (begun.ts + 1 + 1) later.list),
          record { list = waiting (begun.ts + 1 + 1) begun.list; ts = begun.ts + 1 + 1 },
        ))
async_work_timeout_check-due_example =
    async_work_timeout_check-due context 7 23 2 0 context-Sorted context-Started (omega arith)
