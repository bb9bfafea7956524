-- ===== src/Event/Tests.antt =====
-- The texts of events.
use knet.Base.{◌≡◌, refl, none, some}
use knet.Event.{event_string, evt_disconnect, evt_user1}

disconnect_text : event_string evt_disconnect ≡ some "Net Event: disconnect"
unfolding event_string
disconnect_text = refl

-- A user event has no text: the table is read behind its end.
user_text : event_string evt_user1 ≡ none
unfolding event_string
user_text = refl
