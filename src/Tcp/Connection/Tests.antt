-- ===== src/Tcp/Connection/Tests.antt =====
-- Connections at concrete inputs.
use knet.Base.{◌≡◌, refl, true, false, [], ◌∷◌, arith}
use knet.Utils.Timer.{fires, resets, run}
use knet.Utils.Timer.Stopped.{calls}
use knet.Tcp.Connection.{World, release}
use knet.Tcp.Connection.Timers.{release-calls}

-- An active connection with the timer 2 on a worker with the timers 1 and 2.
abbrev busy : World
busy = record {
  conn = record {
    has_socket = true;
    has_worker = true;
    has_handler = true;
    reconn_flag = false;
    reconn_timer = 0;
    reconn_interval = 0;
    passive_mode = false;
    conn_timers = 2 ∷ [];
  };
  timers = record {
    nodes =
        λ i. record { has_handler = true; interval = 7; alive = true; skip = false; loop = true };
    timer_nodes = 2 ∷ 1 ∷ [];
    timer_index = 3;
  };
}

release-calls_example :
    calls 2
      (run (fires 2 true ∷ resets 2 9 ∷ fires 2 true ∷ []) (release true true busy).0.timers).1
    ≡ 0
release-calls_example =
    release-calls true true busy 2 (fires 2 true ∷ resets 2 9 ∷ fires 2 true ∷ []) refl refl refl
      (omega arith)
