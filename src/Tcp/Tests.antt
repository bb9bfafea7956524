-- ===== src/Tcp/Tests.antt =====
-- The socket at concrete inputs.
use knet.Base.{
  ℕ, suc, ◌≤◌, ◌<◌, ◌≡◌, refl, ap, inr, true, false, List, [], ◌∷◌, ◌++◌, ℤ, pos, arith, length,
}
use knet.Tcp.Socket.{
  Socket, Conn, deliver, socket_open, msend, read_buffer_size, on_write_error, send_task, is_open,
}
use knet.Tcp.Socket.Flow.{
  Flow, FlowStep, submitted, after, submit, task, start, next, Sound, sent_all, writes_of,
}
use knet.Tcp.Reading.{process_data}
use knet.Tcp.Reading.Framing.{usable}
use knet.Tcp.Reading.Stream.{pending, received, Handled, process_data-Handled}
use knet.Tcp.Reading.Frames.{Delimits, none_left, one_more, process_data-frames}
use knet.Tcp.Protocol.{Follows, attached}
use knet.Tcp.Lifetime.{
  Happening, sends, write_fails, closes, read_fails, connects, connected, reads, submits, history,
  history-Follows,
}
use knet.Tcp.Stall.{on_write_error-Stuck}

-- A protocol whose first byte is the size of the frame.
abbrev sized : List ℕ → ℤ
sized [] = pos 0
sized (x ∷ xs) = pos x

data Frame : List ℕ → Type 0 where
  frame : {x : ℕ} {xs : List ℕ} → x ≡ suc (length xs) → Frame (x ∷ xs)

data Part : List ℕ → Type 0 where
  part : {x : ℕ} {xs : List ℕ} → suc (length xs) < x → x ≤ 16384 → Part (x ∷ xs)

abbrev keeper : Conn
keeper = record { need_reconnect = false; process_package = sized }

abbrev comer : Conn
comer = record { need_reconnect = true; process_package = sized }

-- Five bytes in a buffer of eight: a frame of 2, and 2 of 3 bytes; stale bytes behind.
abbrev five : Socket
five = record {
  has_connection = true;
  sock_open = true;
  status = socket_open;
  read_buffer = 2 ∷ 7 ∷ 3 ∷ 8 ∷ 1 ∷ 9 ∷ 9 ∷ 9 ∷ [];
  read_buffer_pos = 1;
  send_buffer = [];
  cache_buffer = [];
  is_writing = false;
}

sized_said : (f ys : List ℕ) → Frame f → sized (f ++ ys) ≡ pos (length f)
sized_said [] ys x = elim x [ ]
sized_said (x ∷ xs) ys (frame e) = ap pos e

sized_nonempty : (f : List ℕ) → Frame f → 0 < length f
sized_nonempty [] x = elim x [ ]
sized_nonempty (x ∷ xs) (frame e) = omega arith

sized_waits :
    (x : ℕ) (g ys : List ℕ)
    → Part (x ∷ g)
    → suc (length (g ++ ys)) ≤ read_buffer_size
    → (n : ℕ) × (sized (x ∷ (g ++ ys)) ≡ pos n)
      × (n ≤ read_buffer_size)
      × (usable (pos n) (suc (length g)) ≡ false)
sized_waits x g ys (part lo hi) short = (x, refl, hi, ground arith)

speaks_sized : Delimits keeper Frame Part
speaks_sized = record {
  frame_length = sized_said;
  frame_nonempty = sized_nonempty;
  part_waits = sized_waits;
}

process_data-frames_example :
    ((process_data keeper five 3).1 ≡ deliver (2 ∷ 7 ∷ []) ∷ [])
    × (pending (process_data keeper five 3).0 ≡ 3 ∷ 8 ∷ [])
process_data-frames_example =
    process_data-frames speaks_sized five 3 ((2 ∷ 7 ∷ []) ∷ []) (3 ∷ 8 ∷ []) (omega arith)
      (omega arith) refl (one_more (frame {xs = 7 ∷ []} refl) none_left)
      (inr (part {xs = 8 ∷ []} (omega arith) (omega arith))) refl

process_data-Handled_example : Handled keeper (received five 3) (process_data keeper five 3)
process_data-Handled_example = process_data-Handled keeper five 3 (omega arith)

abbrev quiet : Flow
quiet = record { sock = five; accepted = []; handed = []; tasks = 0; writes = 0 }

quiet-Sound : Sound quiet
quiet-Sound = record { order = refl; one = refl; idle = λ h. refl; awake = λ h h'. refl }

-- One send, its task, and the write on its way.
abbrev asked : Flow
asked = submitted quiet ((1 ∷ 2 ∷ []) ∷ [])

abbrev on_its_way : Flow
on_its_way = after asked 0 0 (send_task asked.sock)

asked-on_its_way : FlowStep asked on_its_way
unfolding is_open
asked-on_its_way = task 0 refl

sent_all_example :
    (on_its_way.writes ≤ 1)
    × (on_its_way.handed ++ on_its_way.sock.send_buffer ≡ on_its_way.accepted)
    × (on_its_way.tasks ≡ 0 → on_its_way.writes ≡ 0 → on_its_way.handed ≡ on_its_way.accepted)
sent_all_example =
    sent_all quiet-Sound (next (next start (submit ((1 ∷ 2 ∷ []) ∷ []))) asked-on_its_way)

-- The value of `msend` for two parts of two bytes is 6: the second counts what the first left.
msend_counts : (msend five ((1 ∷ 2 ∷ []) ∷ (3 ∷ 4 ∷ []) ∷ [])).0 ≡ pos 6
unfolding msend
msend_counts = refl

abbrev events : List Happening
events =
    reads (7 ∷ 3 ∷ []) ∷ submits ((1 ∷ []) ∷ []) ∷ sends ∷ closes ∷ write_fails ∷ read_fails ∷ []

history-Follows_example : Follows attached (history keeper events five)
history-Follows_example = history-Follows keeper refl events five refl

abbrev writing : Socket
writing = record five { cache_buffer = 1 ∷ []; is_writing = true }

on_write_error-Stuck_example :
    writes_of
      (history comer
        (connects ∷ connected ∷ submits ((1 ∷ []) ∷ []) ∷ sends ∷ [])
        (on_write_error comer writing).0).1
    ≡ 0
on_write_error-Stuck_example =
    on_write_error-Stuck comer (connects ∷ connected ∷ submits ((1 ∷ []) ∷ []) ∷ sends ∷ []) writing
      refl refl
