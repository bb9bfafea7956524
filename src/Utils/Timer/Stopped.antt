-- ===== src/Utils/Timer/Stopped.antt =====
-- A timer that was stopped.
use native.Mathlib.Decide.{ℕ_discrete}
use knet.Base.{
  ℕ, ◌+◌, ◌<◌, ◌≡◌, ◌≢◌, refl, sym, ap, subst, ◌∙◌, inl, inr, Bool, true, false, List, [], ◌∷◌,
  ◌++◌, arith, if◌then◌else◌, if_true, if_false, Bool-cases, ltb, ◌==◌, ==_iff, ==_self, ne→not-==,
  u32_mod, ◌%◌,
}
use knet.Utils.Timer.{
  TimerNode, Timer, TimerEffect, called, waits, cancels, TimerStep, TimerOp, fires, starts,
  restarts, stops, resets, clears, listed, set_node, wait_again, handle_timeout, start_timer,
  restart_timer, stop_timer, reset_interval, kill, clear, apply, run,
}

-- How often the handler of a timer is called.
abbrev pub calls : ℕ → List TimerEffect → ℕ
calls id [] = 0
calls id (called i ∷ es) = (if i == id then 1 else 0) + calls id es
calls id (waits i n ∷ es) = calls id es
calls id (cancels i ∷ es) = calls id es

pub calls-append :
    (id : ℕ) (es fs : List TimerEffect) → calls id (es ++ fs) ≡ calls id es + calls id fs
calls-append id [] fs = omega arith
calls-append id (called i ∷ es) fs = omega (arith, calls-append id es fs)
calls-append id (waits i n ∷ es) fs = calls-append id es fs
calls-append id (cancels i ∷ es) fs = calls-append id es fs

-- The timer is dead and its id is never given again.
pub record Dead (id : ℕ) (t : Timer) : Type 0 where
  pub dead : (t.nodes id).alive ≡ false
  pub old : id < t.timer_index

-- The step leaves the timer dead and does not call its handler.
pub record Silent (id : ℕ) (r : TimerStep) : Type 0 where
  pub no_call : calls id r.1 ≡ 0
  pub still : Dead id r.0

set_node-Dead :
    {id : ℕ} {t : Timer} (i : ℕ) (n : TimerNode)
    → Dead id t
    → (i ≡ id → n.alive ≡ false)
    → Dead id (set_node t i n)
set_node-Dead {id} {t} i n d h = elim (ℕ_discrete i id) [
  | yes e ↦ record {
    dead =
        ap (λ (m : TimerNode). m.alive) (if_true (i == id) {x = n} (t.nodes id) ((==_iff i id).1 e))
        ∙ h e;
    old = d.old;
  }
  | no ne ↦ record {
    dead =
        ap (λ (m : TimerNode). m.alive) (if_false (i == id) n {y = t.nodes id} (ne→not-== i id ne))
        ∙ d.dead;
    old = d.old;
  }
]

-- A change of a node that leaves `alive` as it is.
kept : {id : ℕ} {t : Timer} (i : ℕ) → Dead id t → i ≡ id → (t.nodes i).alive ≡ false
kept {id} {t} i d e = ap (λ j. (t.nodes j).alive) e ∙ d.dead

either-Silent :
    {id : ℕ} (b : Bool) {x y : TimerStep}
    → Silent id x
    → Silent id y
    → Silent id (if b then x else y)
either-Silent true u v = u
either-Silent false u v = v

either-Dead :
    {id : ℕ} (b : Bool) {x y : Timer} → Dead id x → Dead id y → Dead id (if b then x else y)
either-Dead true u v = u
either-Dead false u v = v

wait_again-Silent : {id : ℕ} {t : Timer} (i : ℕ) → Dead id t → Silent id (wait_again t i)
wait_again-Silent {id} {t} i d = elim (Bool-cases (t.nodes i).loop) [
  | inl e ↦ record { no_call = rw e refl; still = d }
  | inr e ↦ record { no_call = rw e refl; still = d }
]

other_call : (id i : ℕ) (es : List TimerEffect) → i ≢ id → calls id (called i ∷ es) ≡ calls id es
other_call id i es ne = ground (arith, ne→not-== i id ne)

handle_timeout-Silent :
    (i : ℕ) (ret : Bool) {id : ℕ} {t : Timer} → Dead id t → Silent id (handle_timeout i ret t)
unfolding handle_timeout
handle_timeout-Silent i ret {id} {t} d = elim (ℕ_discrete i id) [
  | yes e ↦
      subst (Silent id) (sym (if_false _ _ (kept i d e)))
        (record { no_call = refl; still = record { dead = d.dead; old = d.old } })
  | no ne ↦
      let n = t.nodes i in
      either-Silent n.alive
        (either-Silent n.has_handler
          (either-Silent n.skip
            (wait_again-Silent i
              (set_node-Dead i (record n { skip = false }) d (λ e. absurd (ne e))))
            (either-Silent ret
              (record {
                no_call = other_call id i (wait_again t i).1 ne ∙ (wait_again-Silent i d).no_call;
                still = d;
              })
              (record {
                no_call = other_call id i (cancels i ∷ []) ne;
                still =
                    let d' = set_node-Dead i (record n { alive = false }) d (λ e. refl) in
                    record { dead = d'.dead; old = d'.old };
              })))
          (wait_again-Silent i d))
        (record { no_call = refl; still = record { dead = d.dead; old = d.old } })
]

kill-Silent : (is : List ℕ) {id : ℕ} {t : Timer} → Dead id t → Silent id (kill is t)
kill-Silent [] d = record { no_call = refl; still = d }
kill-Silent (i ∷ is) {id} {t} d =
    let r = kill-Silent is (set_node-Dead i (record (t.nodes i) { alive = false }) d (λ e. refl)) in
    record { no_call = r.no_call; still = r.still }

pub apply-Silent : (op : TimerOp) {id : ℕ} {t : Timer} → Dead id t → Silent id (apply op t)
unfolding apply start_timer restart_timer stop_timer reset_interval clear
apply-Silent (fires i ret) d = handle_timeout-Silent i ret d
apply-Silent (starts h n l) {id} {t} d =
    let d' =
      set_node-Dead t.timer_index
        (record { has_handler = h; interval = n; alive = true; skip = false; loop = l }) d
        (λ e. absurd (omega (arith, e, d.old))) in
    record { no_call = refl; still = record { dead = d'.dead; old = omega (arith, d.old) } }
apply-Silent (restarts i n) {id} {t} d =
    let j = i % u32_mod in
    let node = t.nodes j in
    record {
      no_call = refl;
      still =
          either-Dead (listed j t.timer_nodes)
            (set_node-Dead j
              (record node { skip = true; interval = if ltb 0 n then n else node.interval }) d
              (kept j d))
            d;
    }
apply-Silent (stops i) {id} {t} d =
    either-Silent (listed i t.timer_nodes)
      (record {
        no_call = refl;
        still = set_node-Dead i (record (t.nodes i) { alive = false }) d (λ e. refl);
      })
      (record { no_call = refl; still = d })
apply-Silent (resets i n) {id} {t} d =
    either-Silent (listed i t.timer_nodes)
      (record {
        no_call = refl;
        still = set_node-Dead i (record (t.nodes i) { interval = n }) d (kept i d);
      })
      (record { no_call = refl; still = d })
apply-Silent clears {id} {t} d =
    let r = kill-Silent t.timer_nodes d in
    record { no_call = r.no_call; still = record { dead = r.still.dead; old = r.still.old } }

pub run-Silent : (ops : List TimerOp) {id : ℕ} {t : Timer} → Dead id t → Silent id (run ops t)
unfolding run
run-Silent [] d = record { no_call = refl; still = d }
run-Silent (op ∷ ops) {id} {t} d =
    let r = apply-Silent op d in
    let r' = run-Silent ops r.still in
    record {
      no_call =
          omega (
            arith,
            calls-append id (apply op t).1 (run ops (apply op t).0).1,
            r.no_call,
            r'.no_call,
          );
      still = r'.still;
    }

-- `stop_timer` leaves a timer of the table dead.
pub stop_timer-Dead :
    (id : ℕ) (t : Timer)
    → listed id t.timer_nodes ≡ true
    → id < t.timer_index
    → Dead id (stop_timer id t).0
unfolding stop_timer
stop_timer-Dead id t l old =
    subst (λ (r : TimerStep). Dead id r.0) (sym (if_true _ _ l))
      (record { dead = ap (λ (m : TimerNode). m.alive) (if_true _ _ (==_self id)); old = old })

-- After `stop_timer` on a timer of the table, its handler is never called again, whatever is done with
-- the timers and whichever waits are over, those that were under way included.
pub stop_timer-calls :
    (id : ℕ) (t : Timer) (ops : List TimerOp)
    → listed id t.timer_nodes ≡ true
    → id < t.timer_index
    → calls id (run ops (stop_timer id t).0).1 ≡ 0
stop_timer-calls id t ops l old = (run-Silent ops (stop_timer-Dead id t l old)).no_call
