-- ===== src/Utils/Timer/Restarted.antt =====
-- A timer that was restarted.
use native.Mathlib.Nat.{mod-eq_of_lt}
use knet.Base.{
  ℕ, ◌^◌, ◌<◌, ◌≡◌, ap, ◌∙◌, Bool, true, false, List, [], ◌∷◌, if◌then◌else◌, if_true, if_false,
  ltb, ◌==◌, ==_self,
}
use knet.Utils.Timer.{
  TimerNode, Timer, TimerEffect, called, waits, TimerStep, listed, set_node, handle_timeout,
  restart_timer,
}

node_self : (t : Timer) (id : ℕ) (n : TimerNode) → (set_node t id n).nodes id ≡ n
node_self t id n = if_true (id == id) {x = n} (t.nodes id) (==_self id)

-- A timer that calls its handler again and again.
pub record Ticks (id : ℕ) (t : Timer) : Type 0 where
  pub alive : (t.nodes id).alive ≡ true
  pub has_handler : (t.nodes id).has_handler ≡ true
  pub loop : (t.nodes id).loop ≡ true

-- What is over when a wait of such a timer is, and its handler returns true.
skipped_timeout :
    (id : ℕ) (t : Timer)
    → Ticks id t
    → (t.nodes id).skip ≡ true
    → handle_timeout id true t
      ≡ (set_node t id (record (t.nodes id) { skip = false }), waits id (t.nodes id).interval ∷ [])
unfolding handle_timeout
skipped_timeout id t k s =
    let n : TimerNode = record (t.nodes id) { skip = false } in
    let t' = set_node t id n in
    if_true _ _ k.alive
    ∙ if_true _ _ k.has_handler
    ∙ if_true _ _ s
    ∙ ap (λ (l : List TimerEffect). (t', l))
        (if_true _ _ (ap (λ (m : TimerNode). m.loop) (node_self t id n) ∙ k.loop)
          ∙ ap (λ (m : TimerNode). waits id m.interval ∷ []) (node_self t id n))

plain_timeout :
    (id : ℕ) (t : Timer)
    → Ticks id t
    → (t.nodes id).skip ≡ false
    → handle_timeout id true t ≡ (t, called id ∷ waits id (t.nodes id).interval ∷ [])
unfolding handle_timeout
plain_timeout id t k s =
    if_true _ _ k.alive
    ∙ if_true _ _ k.has_handler
    ∙ if_false _ _ s
    ∙ ap (λ (l : List TimerEffect). (t, called id ∷ l)) (if_true _ _ k.loop)

-- A change of `skip` and `interval` lets a timer tick on.
set_node-Ticks :
    (id n : ℕ) (b : Bool) (t : Timer)
    → Ticks id t
    → Ticks id (set_node t id (record (t.nodes id) { skip = b; interval = n }))
set_node-Ticks id n b t k =
    let m : TimerNode = record (t.nodes id) { skip = b; interval = n } in
    let e = node_self t id m in
    record {
      alive = ap (λ (x : TimerNode). x.alive) e ∙ k.alive;
      has_handler = ap (λ (x : TimerNode). x.has_handler) e ∙ k.has_handler;
      loop = ap (λ (x : TimerNode). x.loop) e ∙ k.loop;
    }

abbrev restarted : ℕ → ℕ → Timer → Timer
restarted id interval t =
    let n = t.nodes id in
    set_node t id
      (record n { skip = true; interval = if ltb 0 interval then interval else n.interval })

restart_timer-restarted :
    (id interval : ℕ) (t : Timer)
    → id < 2 ^ 32
    → listed id t.timer_nodes ≡ true
    → restart_timer id interval t ≡ (restarted id interval t, [])
unfolding restart_timer
restart_timer-restarted id interval t small l =
    rw (mod-eq_of_lt small) (ap (λ (x : Timer). (x, [])) (if_true _ _ l))

-- A loop timer of the table with an id below 2^32 that is restarted, with a new interval or with 0 for
-- the old one: when the wait under way is over its handler is not called and it waits for the
-- interval, and when that is over the handler is called and it waits again. The handler returns true.
pub restart_timer-postpones :
    (id interval : ℕ) (t : Timer)
    → id < 2 ^ 32
    → listed id t.timer_nodes ≡ true
    → Ticks id t
    → let n = if ltb 0 interval then interval else (t.nodes id).interval in
      let first = handle_timeout id true (restart_timer id interval t).0 in
      (first.1 ≡ waits id n ∷ [])
      × ((handle_timeout id true first.0).1 ≡ called id ∷ waits id n ∷ [])
restart_timer-postpones id interval t small l k =
    let n = if ltb 0 interval then interval else (t.nodes id).interval in
    let m1 : TimerNode = record (t.nodes id) { skip = true; interval = n } in
    let t1 = restarted id interval t in
    let k1 : Ticks id t1 = set_node-Ticks id n true t k in
    let same : (t1.nodes id).interval ≡ n =
      ap (λ (x : TimerNode). x.interval) (node_self t id m1) in
    let m2 : TimerNode = record (t1.nodes id) { skip = false } in
    let t2 = set_node t1 id m2 in
    let same2 : (t2.nodes id).interval ≡ n =
      ap (λ (x : TimerNode). x.interval) (node_self t1 id m2) ∙ same in
    let first : handle_timeout id true (restart_timer id interval t).0
        ≡ (t2, waits id (t1.nodes id).interval ∷ []) =
      ap (λ (r : TimerStep). handle_timeout id true r.0)
        (restart_timer-restarted id interval t small l)
      ∙ skipped_timeout id t1 k1 (ap (λ (x : TimerNode). x.skip) (node_self t id m1)) in
    (
      ap (λ (r : TimerStep). r.1) first ∙ ap (λ (i : ℕ). waits id i ∷ []) same,
      ap (λ (r : TimerStep). (handle_timeout id true r.0).1) first
          ∙ ap (λ (r : TimerStep). r.1)
              (plain_timeout id t2 (set_node-Ticks id (t1.nodes id).interval false t1 k1)
                (ap (λ (x : TimerNode). x.skip) (node_self t1 id m2)))
          ∙ ap (λ (i : ℕ). called id ∷ waits id i ∷ []) same2,
    )
