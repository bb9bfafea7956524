-- ===== src/Utils/Timer/Tests.antt =====
-- Timers at concrete inputs.
use knet.Base.{◌≡◌, refl, true, false, [], ◌∷◌, arith}
use knet.Utils.Timer.{
  Timer, called, waits, fires, starts, restarts, handle_timeout, restart_timer, stop_timer, run,
}
use knet.Utils.Timer.Stopped.{calls, stop_timer-calls}
use knet.Utils.Timer.Restarted.{Ticks, restart_timer-postpones}

-- One loop timer with the id 1.
abbrev one_timer : Timer
one_timer = record {
  nodes =
      λ i. record { has_handler = true; interval = 500; alive = true; skip = false; loop = true };
  timer_nodes = 1 ∷ [];
  timer_index = 2;
}

one_timer-Ticks : Ticks 1 one_timer
one_timer-Ticks = record { alive = refl; has_handler = refl; loop = refl }

stop_timer-calls_example :
    calls 1
      (run
        (fires 1 true ∷ restarts 1 9 ∷ fires 1 true ∷ starts true 5 false ∷ [])
        (stop_timer 1 one_timer).0).1
    ≡ 0
stop_timer-calls_example =
    stop_timer-calls 1 one_timer
      (fires 1 true ∷ restarts 1 9 ∷ fires 1 true ∷ starts true 5 false ∷ []) refl (omega arith)

restart_timer-postpones_example :
    ((handle_timeout 1 true (restart_timer 1 80 one_timer).0).1 ≡ waits 1 80 ∷ [])
    × ((handle_timeout 1 true (handle_timeout 1 true (restart_timer 1 80 one_timer).0).0).1
        ≡ called 1 ∷ waits 1 80 ∷ [])
restart_timer-postpones_example =
    restart_timer-postpones 1 80 one_timer (omega arith) refl one_timer-Ticks

-- A timer that runs once stays in the table when it is over.
once_stays : (run (starts true 5 false ∷ fires 2 true ∷ []) one_timer).0.timer_nodes ≡ 2 ∷ 1 ∷ []
unfolding run
once_stays = refl
