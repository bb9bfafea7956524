-- ===== src/Utils/Timer.antt =====
-- `Timer` of include/utils/timer.hpp. A node is shared by pointer between the table and the waits of
-- asio, so the nodes are a store, named by their ids, and the table is a list of ids. What a handler
-- returns is an argument of `handle_timeout`; handlers do not call the timer before they return.
pub mod Stopped
mod Restarted
mod Tests
use knet.Base.{
  ℕ, zero, suc, ◌+◌, ◌%◌, Bool, true, false, not, ◌||◌, List, [], ◌∷◌, ◌++◌, if◌then◌else◌, ltb,
  ◌==◌, u32_mod,
}

-- `has_handler` is `handler != nullptr`.
pub record TimerNode : Type 0 where
  pub has_handler : Bool
  pub interval : ℕ
  pub alive : Bool
  pub skip : Bool
  pub loop : Bool

-- `timer_index` is the next id; the code starts it at 1.
pub record Timer : Type 0 where
  pub nodes : ℕ → TimerNode
  pub timer_nodes : List ℕ
  pub timer_index : ℕ

-- A call of a handler, `expires_after` with `async_wait`, and `cancel`.
pub data TimerEffect : Type 0 where
  called : ℕ → TimerEffect
  waits : ℕ → ℕ → TimerEffect
  cancels : ℕ → TimerEffect

abbrev pub TimerStep : Type 0
TimerStep = Timer × List TimerEffect

abbrev pub listed : ℕ → List ℕ → Bool
listed id [] = false
listed id (i ∷ is) = (i == id) || listed id is

abbrev pub erase : ℕ → List ℕ → List ℕ
erase id [] = []
erase id (i ∷ is) = let rest = erase id is in if i == id then rest else i ∷ rest

abbrev pub set_node : Timer → ℕ → TimerNode → Timer
set_node t id n = record t { nodes = λ i. if id == i then n else t.nodes i }

-- The end of `handle_timeout`: a timer that loops waits again.
abbrev pub wait_again : Timer → ℕ → TimerStep
wait_again t id = (t, if (t.nodes id).loop then waits id (t.nodes id).interval ∷ [] else [])

unfoldable pub handle_timeout : ℕ → Bool → Timer → TimerStep
handle_timeout id ret t =
    let n = t.nodes id in
    if n.alive
    then if n.has_handler
      then if n.skip
        then wait_again (set_node t id (record n { skip = false })) id
        else if ret
        then (let (t', es) = wait_again t id in (t', called id ∷ es))
        else (
          record (set_node t id (record n { alive = false })) {
            timer_nodes = erase id t.timer_nodes;
          },
          called id ∷ cancels id ∷ [],
        )
      else wait_again t id
    else (record t { timer_nodes = erase id t.timer_nodes }, [])

unfoldable pub start_timer : Bool → ℕ → Bool → Timer → ℕ × TimerStep
start_timer has_handler interval loop t =
    let id = t.timer_index in
    let n : TimerNode = record {
      has_handler = has_handler;
      interval = interval;
      alive = true;
      skip = false;
      loop = loop;
    } in
    (
      id,
      (
        record (set_node t id n) { timer_nodes = id ∷ t.timer_nodes; timer_index = suc id },
        waits id interval ∷ [],
      ),
    )

-- The id is a `uint32_t` here. The function always returns true.
unfoldable pub restart_timer : ℕ → ℕ → Timer → TimerStep
restart_timer timer_id interval t =
    let id = timer_id % u32_mod in
    let n = t.nodes id in
    (
      if listed id t.timer_nodes
          then set_node t id
              (record n { skip = true; interval = if ltb 0 interval then interval else n.interval })
          else t,
      [],
    )

unfoldable pub stop_timer : ℕ → Timer → TimerStep
stop_timer id t =
    if listed id t.timer_nodes
    then (set_node t id (record (t.nodes id) { alive = false }), cancels id ∷ [])
    else (t, [])

unfoldable pub reset_interval : ℕ → ℕ → Timer → TimerStep
reset_interval id interval t =
    if listed id t.timer_nodes
    then (
      set_node t id (record (t.nodes id) { interval = interval }),
      cancels id ∷ waits id interval ∷ [],
    )
    else (t, [])

-- `clear` kills what the table holds.
abbrev pub kill : List ℕ → Timer → TimerStep
kill [] t = (t, [])
kill (i ∷ is) t =
    let (t', es) = kill is (set_node t i (record (t.nodes i) { alive = false })) in
    (t', cancels i ∷ es)

unfoldable pub clear : Timer → TimerStep
clear t = let (t', es) = kill t.timer_nodes t in (record t' { timer_nodes = [] }, es)

-- Anything that is done with a timer, and a wait that is over.
pub data TimerOp : Type 0 where
  fires : ℕ → Bool → TimerOp
  starts : Bool → ℕ → Bool → TimerOp
  restarts : ℕ → ℕ → TimerOp
  stops : ℕ → TimerOp
  resets : ℕ → ℕ → TimerOp
  clears : TimerOp

unfoldable pub apply : TimerOp → Timer → TimerStep
unfolding handle_timeout start_timer restart_timer stop_timer reset_interval clear
apply (fires id ret) t = handle_timeout id ret t
apply (starts has_handler interval loop) t = (start_timer has_handler interval loop t).1
apply (restarts id interval) t = restart_timer id interval t
apply (stops id) t = stop_timer id t
apply (resets id interval) t = reset_interval id interval t
apply clears t = clear t

unfoldable pub run : List TimerOp → Timer → TimerStep
unfolding apply
run [] t = (t, [])
run (op ∷ ops) t = let (t', es) = apply op t in let (t'', fs) = run ops t' in (t'', es ++ fs)
