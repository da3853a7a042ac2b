-- ===== src/TimerList.antt =====
-- src/timer_list.c: timers in one list, sorted by the time at which they are due.
-- `timers` is the list from `g_head` on. Times are seconds and microseconds, in `unsigned int` where the
-- source has it. The lock is held wherever the list is changed. A callback may call
-- `timer_list_create` and `timer_list_discard_target`: `call cb timers` is what the callback of `cb`
-- asks for when it finds the list `timers`.
pub mod Order
pub mod Tick
mod Examples
use myclib.Prelude.{
  ℕ, ◌+◌, ◌*◌, ◌/◌, ◌%◌, ◌^◌, Bool, true, false, not, ◌&&◌, ◌||◌, List, [], ◌∷◌, ltb, ◌==◌,
  if◌then◌else◌, u32,
}

-- `struct timeval`
pub record Time : Type 0 where
  pub tv_sec : ℕ
  pub tv_usec : ℕ

-- `timer_list_t`; `cb` stands for the callback and its argument.
pub record Timer : Type 0 where
  pub sec : ℕ
  pub msec : ℕ
  pub repeat : Bool
  pub discard : Bool
  pub exec_on_discard : Bool
  pub cb : ℕ
  pub ts : Time

-- -1, 0 and 1
pub data Cmp : Type 0 where
  less : Cmp
  same : Cmp
  more : Cmp

abbrev pub at_most : Cmp → Bool
at_most less = true
at_most same = true
at_most more = false

abbrev pub due_sec : Timer → ℕ
due_sec t = u32 (t.ts.tv_sec + t.sec)

abbrev pub due_usec : Timer → ℕ
due_usec t = u32 (t.ts.tv_usec + t.msec * 1000)

pub timer_cmp : Timer → Timer → Cmp
timer_cmp t1 t2 =
    if ltb (due_sec t1) (due_sec t2)
      || (due_sec t1 == due_sec t2 && ltb (due_usec t1) (due_usec t2))
    then less
    else if due_sec t1 == due_sec t2 && due_usec t1 == due_usec t2
    then same
    else more

-- `__timer_list_add`
pub timer_list_add : Timer → List Timer → List Timer
timer_list_add new [] = new ∷ []
timer_list_add new (p ∷ ps) =
    let later = timer_list_add new ps in
    if at_most (timer_cmp new p) then new ∷ p ∷ ps else p ∷ later

-- `malloc` leaves `exec_on_discard` with any value, `junk`.
abbrev pub timer_list_alloc : ℕ → Bool → ℕ → Time → Bool → Timer
timer_list_alloc msec repeat cb now junk = record {
  sec = msec / 1000;
  msec = msec % 1000;
  repeat = repeat;
  discard = false;
  exec_on_discard = junk;
  cb = cb;
  ts = now;
}

pub timer_list_discard_target : ℕ → Bool → List Timer → List Timer
timer_list_discard_target target exec_on_discard [] = []
timer_list_discard_target target exec_on_discard (pos ∷ rest) =
    (if pos.cb == target
      then record pos { discard = true; exec_on_discard = exec_on_discard }
      else pos)
    ∷ timer_list_discard_target target exec_on_discard rest

pub timer_cmp_tv : Timer → Time → Cmp
timer_cmp_tv timer val =
    let sec = due_sec timer in
    let msec = u32 (timer.ts.tv_usec / 1000 + timer.msec) in
    let msec2 = val.tv_usec / 1000 in
    if sec == val.tv_usec
    then if msec == msec2 then same else (if ltb msec2 msec then more else less)
    else if ltb val.tv_sec sec
    then more
    else less

abbrev pub expired : Time → Timer → Bool
expired cur t = t.discard || at_most (timer_cmp_tv t cur)

-- The first loop of `timer_list_tick`: `timeout_list` at its end, and what is left of the list.
pub expire : Time → List Timer → List Timer → List Timer × List Timer
expire cur [] timeouts = (timeouts, [])
expire cur (t ∷ ts) timeouts =
    let (out, left) =
      expire cur ts (if expired cur t then timer_list_add t timeouts else timeouts) in
    if expired cur t then (out, left) else (out, t ∷ left)

pub data Request : Type 0 where
  create : (msec : ℕ) → (repeat : Bool) → (cb : ℕ) → (now : Time) → (junk : Bool) → Request
  discard_target : (cb : ℕ) → (exec_on_discard : Bool) → Request

pub request : List Timer → Request → List Timer
request timers (create msec repeat cb now junk) =
    timer_list_add (timer_list_alloc msec repeat cb now junk) timers
request timers (discard_target cb exec_on_discard) =
    timer_list_discard_target cb exec_on_discard timers

pub requests : List Timer → List Request → List Timer
requests timers [] = timers
requests timers (r ∷ rs) = requests (request timers r) rs

abbrev pub runs : Timer → Bool
runs t = not t.discard || (t.discard && t.exec_on_discard)

-- The third loop, at the time `cur`, with the timers that it frees.
pub rearm : Time → List Timer → List Timer → List Timer × List Timer
rearm cur [] timers = ([], timers)
rearm cur (tmp ∷ rest) timers =
    let again = rearm cur rest (timer_list_add (record tmp { ts = cur }) timers) in
    let (freed, timers') = rearm cur rest timers in
    if not tmp.discard && tmp.repeat then again else (tmp ∷ freed, timers')

module _ (call : ℕ → List Timer → List Request) where
  -- The second loop, with the callbacks that it runs.
  pub call_loop : List Timer → List Timer → List ℕ × List Timer
  call_loop [] timers = ([], timers)
  call_loop (t ∷ ts) timers =
      let skipped = call_loop ts timers in
      let (cbs, timers') = call_loop ts (requests timers (call t.cb timers)) in
      if runs t then (t.cb ∷ cbs, timers') else skipped

  -- `timer_list_tick` at the time `cur`: the callbacks that run, in order, the timers that it frees, and
  -- the list.
  unfoldable pub timer_list_tick : Time → List Timer → List ℕ × List Timer × List Timer
  unfolding expire call_loop rearm
  timer_list_tick cur timers =
      let (timeouts, left) = expire cur timers [] in
      let (cbs, timers') = call_loop timeouts left in
      let (freed, timers'') = rearm cur timeouts timers' in (cbs, freed, timers'')
