-- ===== src/Tcp/Connector/Tests.antt =====
-- Tests and examples of the connector.
use knet.Base.{◌≡◌, refl, true, false, none, some, List, [], ◌∷◌, if◌then◌else◌, ◌==◌}
use knet.Event.{evt_release}
use knet.Tcp.Connector.{
  Connector, worker_stops, deinits, closes, handler_told, posts_release, make_connector, stop,
  remove_event_handler, get_worker, add_connection, handle_event,
}
use knet.Tcp.Connector.Chain.{remove_event_handler-first}
use knet.Tcp.Connector.Table.{
  adds, removes, tells, starts_more, Call, table, replay, Done, run, run-Done,
}

abbrev with_two : Connector
unfolding make_connector
with_two = record (make_connector none 7 false (some 1)).0 { net_handler_chain = 1 ∷ 2 ∷ [] }

remove_event_handler-first_example :
    remove_event_handler 6 (some 2) with_two
    ≡ (if 1 == 2 then some (record with_two { net_handler_chain = 2 ∷ [] }) else none)
unfolding make_connector
remove_event_handler-first_example = remove_event_handler-first 5 2 1 (2 ∷ []) with_two refl

abbrev some_calls : List Call
some_calls =
    adds 4 40
    ∷ tells (λ h. true) 40 evt_release
    ∷ starts_more false (8 ∷ [])
    ∷ adds 5 50
    ∷ removes 5
    ∷ []

run-Done_example :
    Done
      (record { id = 7; inner = true })
      (replay some_calls (table with_two))
      (run some_calls with_two)
unfolding make_connector
run-Done_example = run-Done some_calls (record { id = 7; inner = true }) [] with_two refl

-- A pointer to no worker is used after stop.
stop-add_connection_test : add_connection 4 40 (stop with_two).0 ≡ none
unfolding make_connector stop add_connection get_worker
stop-add_connection_test = refl

stop_test :
    (stop (record with_two { connections = (4, 40) ∷ [] })).1
    ≡ deinits 40 ∷ closes 40 ∷ worker_stops 7 ∷ []
unfolding make_connector stop
stop_test = refl

handle_event_test :
    handle_event (λ h. h == 1) 40 evt_release with_two
    ≡ (false, with_two, handler_told 1 ∷ handler_told 2 ∷ posts_release 40 ∷ [])
unfolding make_connector handle_event
handle_event_test = refl
