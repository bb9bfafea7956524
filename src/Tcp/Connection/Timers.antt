-- ===== src/Tcp/Connection/Timers.antt =====
-- The timers of a connection (include/tcp/asio/tcp_connection.hpp) when it is released or stops to
-- reconnect.
use knet.Base.{
  ℕ, ◌+◌, ◌%◌, ◌≤◌, ◌<◌, ◌≡◌, refl, sym, ap, subst, ◌∙◌, inl, inr, Bool, true, false, not, ◌||◌,
  List, [], ◌∷◌, ◌++◌, arith, if◌then◌else◌, if_true, Bool-cases, lt→ltb, ◌==◌, ==_iff, ==_self,
  u32_mod,
}
use knet.Utils.Timer.{Timer, TimerStep, TimerOp, stops, listed, run, apply}
use knet.Utils.Timer
use knet.Utils.Timer.Stopped.{Dead, calls, run-Silent, stop_timer-Dead, apply-Silent}
use knet.Tcp.Connection.{
  World, stop_timer, stop_all, clear_timers, release, enable_reconnect, disable_reconnect,
  need_reconnect, rand_time, next_interval,
}

-- A timer of the table that may be stopped.
abbrev Known : ℕ → Timer → Type 0
Known id t = (listed id t.timer_nodes ≡ true) × (id < t.timer_index)

-- A stop leaves the table and the next id alone.
stop_keeps :
    (i : ℕ) (t : Timer)
    → ((Timer.stop_timer i t).0.timer_nodes ≡ t.timer_nodes)
      × ((Timer.stop_timer i t).0.timer_index ≡ t.timer_index)
unfolding Timer.stop_timer
stop_keeps i t = elim (Bool-cases (listed i t.timer_nodes)) [
  | inl e ↦ rw e (refl, refl)
  | inr e ↦ rw e (refl, refl)
]

stop-Known : (i id : ℕ) (t : Timer) → Known id t → Known id (Timer.stop_timer i t).0
stop-Known i id t (l, old) =
    let (a, b) = stop_keeps i t in (ap (listed id) a ∙ l, omega (arith, b, old))

stop-Dead : (i : ℕ) {id : ℕ} {t : Timer} → Dead id t → Dead id (Timer.stop_timer i t).0
unfolding apply
stop-Dead i d = (apply-Silent (stops i) d).still

-- With a worker, a stop is one of the worker's timers.
stop_timer-timers :
    (id : ℕ) (w : World)
    → w.conn.has_worker ≡ true
    → (stop_timer id w ≡ record w { timers = (Timer.stop_timer id w.timers).0 })
unfolding stop_timer
stop_timer-timers id w h = if_true _ _ h

stop_all-Dead :
    (ids : List ℕ) (id : ℕ) (w : World)
    → w.conn.has_worker ≡ true
    → Dead id w.timers
    → Dead id (stop_all ids w).timers
stop_all-Dead [] id w h d = d
stop_all-Dead (i ∷ ids) id w h d =
    subst (λ (u : World). Dead id (stop_all ids u).timers) (sym (stop_timer-timers i w h))
      (stop_all-Dead ids id (record w { timers = (Timer.stop_timer i w.timers).0 }) h
        (stop-Dead i d))

stop_all-listed-Dead :
    (ids : List ℕ) (id : ℕ) (w : World)
    → w.conn.has_worker ≡ true
    → listed id ids ≡ true
    → Known id w.timers
    → Dead id (stop_all ids w).timers
stop_all-listed-Dead [] id w h l k = absurd (cc l)
stop_all-listed-Dead (i ∷ ids) id w h l k =
    let t' = (Timer.stop_timer i w.timers).0 in
    elim (Bool-cases (i == id)) [
      | inl e ↦
          let same : i ≡ id = (==_iff i id).0 e in
          subst (λ (u : World). Dead id (stop_all ids u).timers) (sym (stop_timer-timers i w h))
            (stop_all-Dead ids id (record w { timers = t' }) h
              (subst (λ j. Dead id (Timer.stop_timer j w.timers).0) (sym same)
                (stop_timer-Dead id w.timers k.0 k.1)))
      | inr e ↦
          subst (λ (u : World). Dead id (stop_all ids u).timers) (sym (stop_timer-timers i w h))
            (stop_all-listed-Dead ids id (record w { timers = t' }) h
              (ap (λ b. b || listed id ids) (sym e) ∙ l) (stop-Known i id w.timers k))
    ]

-- After `release` no handler of a timer that the connection has started, and that the worker still
-- has, is called again, whatever is done with the timers of the worker.
pub release-calls :
    (user own : Bool) (w : World) (id : ℕ) (ops : List TimerOp)
    → w.conn.has_worker ≡ true
    → listed id w.conn.conn_timers ≡ true
    → listed id w.timers.timer_nodes ≡ true
    → id < w.timers.timer_index
    → calls id (run ops (release user own w).0.timers).1 ≡ 0
unfolding release clear_timers
release-calls user own w id ops h mine l old =
    (run-Silent ops (stop_all-listed-Dead w.conn.conn_timers id w h mine (l, old))).no_call

-- What `enable_reconnect` does to a connection that does not reconnect yet.
module _ (interval r : ℕ) (w : World) (h : w.conn.has_worker ≡ true)
    (off : w.conn.reconn_flag ≡ false) where
  now : ℕ
  now =
      if w.conn.reconn_interval == 0
      then (interval + rand_time r) % u32_mod
      else w.conn.reconn_interval

  abbrev enabled : World
  enabled = record {
    conn = record w.conn {
      reconn_flag = true;
      reconn_timer = w.timers.timer_index;
      reconn_interval = next_interval now (rand_time r);
      conn_timers = w.conn.conn_timers ++ (w.timers.timer_index ∷ []);
    };
    timers = (Timer.start_timer true now true w.timers).1.0;
  }

  enable_reconnect-enabled : enable_reconnect interval r w ≡ enabled
  unfolding enable_reconnect now Timer.start_timer
  enable_reconnect-enabled = rw (off, h, enable_reconnect) refl

  new_Known : Known w.timers.timer_index enabled.timers
  unfolding Timer.start_timer
  new_Known = (rw (==_self w.timers.timer_index) refl, omega arith)

  disable_enabled :
      0 < w.timers.timer_index
      → disable_reconnect enabled ≡ record {
        conn = record enabled.conn { reconn_flag = false; reconn_timer = 0 };
        timers = (Timer.stop_timer w.timers.timer_index enabled.timers).0;
      }
  unfolding disable_reconnect
  disable_enabled p =
      let w' = record enabled { conn = record enabled.conn { reconn_flag = false } } in
      if_true _ _ (lt→ltb 0 w.timers.timer_index p)
      ∙ ap (λ (u : World). record u { conn = record u.conn { reconn_timer = 0 } })
          (stop_timer-timers w.timers.timer_index w' h)

next_interval_le : (n r : ℕ) → next_interval n (rand_time r) ≤ 31000000
next_interval_le n r = ground arith

-- Reconnecting is switched on and off again on a connection that has a worker and does not reconnect
-- yet: on, an active connection wants to reconnect and the next delay is at most 31 seconds; off, it
-- does not want to, and the handler of the timer in between is never called again.
pub disable-enable_reconnect :
    (interval r : ℕ) (w : World) (ops : List TimerOp)
    → w.conn.has_worker ≡ true
    → w.conn.reconn_flag ≡ false
    → 0 < w.timers.timer_index
    → let on = enable_reconnect interval r w in
      let off = disable_reconnect on in
      (need_reconnect on.conn ≡ not w.conn.passive_mode)
      × (on.conn.reconn_interval ≤ 31000000)
      × (need_reconnect off.conn ≡ false)
      × (calls w.timers.timer_index (run ops off.timers).1 ≡ 0)
unfolding need_reconnect
disable-enable_reconnect interval r w ops h off p =
    let e = enable_reconnect-enabled interval r w h off in
    let t = enabled interval r w h off in
    let k = new_Known interval r w h off in
    let e' = ap disable_reconnect e ∙ disable_enabled interval r w h off p in
    (
      ap (λ (u : World). need_reconnect u.conn) e,
      subst (λ (u : World). u.conn.reconn_interval ≤ 31000000) (sym e)
          (next_interval_le (now interval r w h off) r),
      ap (λ (u : World). need_reconnect u.conn) e',
      ap (λ (u : World). calls w.timers.timer_index (run ops u.timers).1) e'
          ∙ (run-Silent ops (stop_timer-Dead w.timers.timer_index t.timers k.0 k.1)).no_call,
    )
