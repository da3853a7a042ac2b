-- ===== src/Task.antt =====
-- src/task.c: a daemon that starts its work in a child and starts it again until it succeeds.
-- A state is the one of the parent, with the child that runs; the calls of the system and the signals
-- that arrive are the steps. The child itself is any process that ends at some time. Whether `save_pid`
-- could write the file of the pid is an argument; the texts of the log are left out. The handler of a
-- signal runs to its end before another one begins.

pub mod Child
mod Examples
use myclib.Prelude.{
  ℕ, zero, suc, ◌+◌, ◌<◌, ◌≡◌, ◌≢◌, Bool, true, false, Option, none, some, List, [], ◌∷◌,
}

-- How the program ends: by `exit`, whose status is kept in eight bits, or by a return of -1.
pub data End : Type 0 where
  exit : ℕ → End
  return_error : End

-- what `waitpid` reports: an exit with a status, or the end by a signal
pub data Status : Type 0 where
  exited : ℕ → Status
  signaled : ℕ → Status

-- Where the parent is in `task_start`: before `fork`, behind it with the new pid, in `waitpid`, behind it
-- with what it reports, in `sleep`, before `do_exit` or behind it, with the status of `exit`, or ended.
pub data Place : Type 0 where
  forking : Place
  forked : ℕ → Place
  waiting : Place
  reaped : Status → Place
  sleeping : Place
  leaving : ℕ → Place
  left : ℕ → Place
  ended : End → Place

-- `child_pid` is `none` for -1. `child` is the process that runs, and `killed` has those to which
-- SIGTERM was sent. `last_child` is the process whose end `waitpid` has reported last; the program does
-- not keep it.
pub record Task : Type 0 where
  pub place : Place
  pub child_pid : Option ℕ
  pub pid_file : Bool
  pub child : Option ℕ
  pub killed : List ℕ
  pub last_child : Option ℕ

-- Behind `save_pid`, whose result is ignored: `saved` says whether it could write the file.
abbrev pub start : Bool → Task
start saved = record {
  place = forking;
  child_pid = none;
  pid_file = saved;
  child = none;
  killed = [];
  last_child = none;
}

-- `kill(child_pid, SIGTERM)`, if it is a pid
abbrev pub kill_child : Option ℕ → List ℕ → List ℕ
kill_child none killed = killed
kill_child (some pid) killed = pid ∷ killed

unfoldable pub do_exit : Task → Task
do_exit t = record t { pid_file = false; killed = kill_child t.child_pid t.killed }

-- `do_exit` and then `exit`, in `do_signal`
abbrev pub quit : ℕ → Task → Task
quit status t = record (do_exit t) { place = ended (exit status) }

-- What the parent does with the status: it forgets the pid and leaves the loop, or goes on to `sleep`.
unfoldable pub reap : Status → Task → Task
reap (exited zero) t = record t { place = leaving 0; child_pid = none }
reap (exited (suc code)) t = record t { place = sleeping }
reap (signaled signal) t = record t { place = sleeping }

-- One step. A signal is one of those for which `do_signal` is installed and exits.
pub data Step : Task → Task → Type 0 where
  fork_fails : (t : Task) → t.place ≡ forking → Step t (record t { place = ended return_error })
  fork :
      (t : Task) (pid : ℕ)
      → t.place ≡ forking
      → 0 < pid
      → Step t (record t { place = forked pid; child = some pid })
  record_pid :
      (t : Task) (pid : ℕ)
      → t.place ≡ forked pid
      → Step t (record t { place = waiting; child_pid = some pid })
  wait_fails : (t : Task) → t.place ≡ waiting → Step t (record t { place = leaving 255 })
  wait :
      (t : Task) (status : Status)
      → t.place ≡ waiting
      → Step t (record t { place = reaped status; child = none; last_child = t.child })
  go_on : (t : Task) (status : Status) → t.place ≡ reaped status → Step t (reap status t)
  wake : (t : Task) → t.place ≡ sleeping → Step t (record t { place = forking })
  clean_up :
      (t : Task) (status : ℕ)
      → t.place ≡ leaving status
      → Step t (record (do_exit t) { place = left status })
  finish :
      (t : Task) (status : ℕ)
      → t.place ≡ left status
      → Step t (record t { place = ended (exit status) })
  do_signal : (t : Task) → ((e : End) → t.place ≢ ended e) → Step t (quit 0 t)

-- any number of steps from the beginning
pub data Reachable (saved : Bool) : Task → Type 0 where
  begin : Reachable saved (start saved)
  next : {t t' : Task} → Reachable saved t → Step t t' → Reachable saved t'
