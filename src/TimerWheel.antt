-- ===== src/TimerWheel.antt =====
-- src/timer_wheel.c: timers in slots by the tick at which they are due, each slot sorted.
-- A node is at an address, `id`. The list of a slot is the list of its nodes; `pending` is the local
-- list `tigger_head` of `timer_wheel_tick`, which is empty outside that function. Wheel and nodes that
-- a call changes are returned. Time is a `long long` that starts at 0 and does not overflow.
-- A callback may call `timer_wheel_add` and `timer_wheel_del`: `call id w` is what the callback of
-- the node at `id` asks for, in order, when it finds the wheel `w`.
pub mod Order
pub mod Tick
pub mod Armed
mod Examples
pub mod OnTime
use myclib.Prelude.{
  ℕ, zero, suc, ◌+◌, ◌%◌, Bool, true, false, List, [], ◌∷◌, map, ltb, leb, ◌==◌, if◌then◌else◌,
  length,
}

pub record Node : Type 0 where
  pub id : ℕ
  pub is_repeat : Bool
  pub is_deleted : Bool
  pub cycle : ℕ
  pub tigger_ts : ℕ

pub record Wheel : Type 0 where
  pub solt_nb : ℕ
  pub tick_interval : ℕ
  pub cur_ts : ℕ
  pub solts : ℕ → List Node
  pub pending : List Node

unfoldable pub timer_wheel_init : ℕ → ℕ → Wheel
timer_wheel_init solt_nb tick_interval = record {
  solt_nb = solt_nb;
  tick_interval = tick_interval;
  cur_ts = 0;
  solts = λ i. [];
  pending = [];
}

-- The loop that looks for the first node that is not due earlier, and `list_add_tail` in front of it.
pub insert : Node → List Node → List Node
insert node [] = node ∷ []
insert node (pos ∷ rest) =
    let later = insert node rest in
    if leb node.tigger_ts pos.tigger_ts then node ∷ pos ∷ rest else pos ∷ later

abbrev pub set_solt : (ℕ → List Node) → ℕ → List Node → ℕ → List Node
set_solt solts i nodes j = if j == i then nodes else solts j

-- `__timer_wheel_add`
pub add_node : Wheel → Node → Wheel
add_node w node =
    let tigger_ts = w.cur_ts + node.cycle in
    let idx = tigger_ts % w.solt_nb in
    record w {
      solts = set_solt w.solts idx (insert (record node { tigger_ts = tigger_ts }) (w.solts idx));
    }

-- `id` is the address that `malloc` returns.
unfoldable pub timer_wheel_add : Wheel → ℕ → ℕ → Bool → Wheel
unfolding add_node insert
timer_wheel_add w id cycle is_repeat =
    add_node w
      (record { id = id; is_repeat = is_repeat; is_deleted = false; cycle = cycle; tigger_ts = 0 })

pub mark : ℕ → List Node → List Node
mark id [] = []
mark id (n ∷ ns) = (if n.id == id then record n { is_deleted = true } else n) ∷ mark id ns

-- The flag is set wherever the node is; a node that was freed must not be named.
unfoldable pub timer_wheel_del : Wheel → ℕ → Wheel
unfolding mark
timer_wheel_del w id = record w { solts = λ i. mark id (w.solts i); pending = mark id w.pending }

-- The first loop of `timer_wheel_tick`: what is in `tigger_head` at its end, and what is left in the
-- slot.
pub expire : ℕ → List Node → List Node → List Node × List Node
expire cur_ts [] head = (head, [])
expire cur_ts (pos ∷ rest) head =
    let stop : List Node × List Node = (head, pos ∷ rest) in
    let next = expire cur_ts rest (if pos.is_deleted then head else pos ∷ head) in
    if pos.is_deleted then next else (if ltb cur_ts pos.tigger_ts then stop else next)

-- `timer_wheel_tick` up to the end of its first loop.
unfoldable pub collect : Wheel → Wheel
unfolding expire
collect w =
    let cur_ts = w.cur_ts + 1 in
    let idx = cur_ts % w.solt_nb in
    let (head, left) = expire cur_ts (w.solts idx) [] in
    record w { cur_ts = cur_ts; solts = set_solt w.solts idx left; pending = head }

pub data Request : Type 0 where
  add : (id cycle : ℕ) → Bool → Request
  del : (id : ℕ) → Request

pub request : Wheel → Request → Wheel
request w (add id cycle is_repeat) = timer_wheel_add w id cycle is_repeat
request w (del id) = timer_wheel_del w id

pub requests : Wheel → List Request → Wheel
requests w [] = w
requests w (r ∷ rs) = requests (request w r) rs

-- The end of a round of the second loop, at the node that stands first in `pending`.
pub finish : List Node → Wheel → Wheel
finish [] w = w
finish (pos ∷ rest) w =
    let w' = record w { pending = rest } in if pos.is_repeat then add_node w' pos else w'

module _ (call : ℕ → Wheel → List Request) where
  -- The second loop over the nodes of `tigger_head`, with the addresses of those whose callback ran.
  -- A node stays in `pending` while its callback runs, since the callback may mark it.
  pub fire : List Node → Wheel → List ℕ × Wheel
  fire [] w = ([], w)
  fire (pos ∷ rest) w =
      let w' = requests w (call pos.id w) in
      let (ids, w'') = fire rest (finish w'.pending w') in (pos.id ∷ ids, w'')

  unfoldable pub timer_wheel_tick : Wheel → List ℕ × Wheel
  unfolding collect fire request requests finish
  timer_wheel_tick w = let w' = collect w in fire w'.pending w'
