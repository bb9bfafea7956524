-- ===== src/Tcp/Socket/Flow.antt =====
-- The way of the bytes from `msend` to `async_write`, while nothing fails and nothing closes: calls
-- of `msend`, posted tasks and write handlers in any order.
use knet.Base.{
  ℕ, suc, ◌+◌, ◌≡◌, ◌≤◌, refl, sym, ap, ◌∙◌, inl, inr, Bool, true, false, List, [], ◌∷◌, ◌++◌,
  append_assoc, append-nil, arith, if◌then◌else◌, Bool-cases,
}
use knet.Event.{evt_send}
use knet.Tcp.Socket.{
  Socket, Step, Effect, event, deliver, released, start_read, start_write, start_connect,
  close_sock, ◌then◌, on_written, send_task, msend, is_open,
}
use knet.Tcp.Socket.Send.{
  taken, flush, List-cases, send_task-idle, send_task-busy, msend-open, msend-shut,
  do_async_write-flush,
}

-- The bytes that effects hand to `async_write`, and how many writes they start.
abbrev pub handed_by : List Effect → List ℕ
handed_by [] = []
handed_by (start_write bytes ∷ es) = bytes ++ handed_by es
handed_by (event e ∷ es) = handed_by es
handed_by (deliver bytes ∷ es) = handed_by es
handed_by (released ∷ es) = handed_by es
handed_by (start_read n ∷ es) = handed_by es
handed_by (start_connect ∷ es) = handed_by es
handed_by (close_sock ∷ es) = handed_by es

abbrev pub writes_of : List Effect → ℕ
writes_of [] = 0
writes_of (start_write bytes ∷ es) = suc (writes_of es)
writes_of (event e ∷ es) = writes_of es
writes_of (deliver bytes ∷ es) = writes_of es
writes_of (released ∷ es) = writes_of es
writes_of (start_read n ∷ es) = writes_of es
writes_of (start_connect ∷ es) = writes_of es
writes_of (close_sock ∷ es) = writes_of es

-- The socket, the bytes taken by `msend` and handed to asio so far, the tasks that are posted and the
-- writes whose handler has not run.
pub record Flow : Type 0 where
  pub sock : Socket
  pub accepted : List ℕ
  pub handed : List ℕ
  pub tasks : ℕ
  pub writes : ℕ

-- A handler has run: its step replaces the socket, and its writes are under way.
abbrev pub after : Flow → ℕ → ℕ → Step → Flow
after f tasks writes (s, es) = record {
  sock = s;
  accepted = f.accepted;
  handed = f.handed ++ handed_by es;
  tasks = tasks;
  writes = writes + writes_of es;
}

-- A call of `msend`, and the task that it posts.
abbrev pub submitted : Flow → List (List ℕ) → Flow
submitted f parts = record f {
  sock = (msend f.sock parts).1;
  accepted = f.accepted ++ (if is_open f.sock then taken f.sock.send_buffer parts else []);
  tasks = f.tasks + (if is_open f.sock then 1 else 0);
}

pub data FlowStep : Flow → Flow → Type 0 where
  submit : {f : Flow} (parts : List (List ℕ)) → FlowStep f (submitted f parts)
  task : {f : Flow} (t : ℕ) → f.tasks ≡ suc t → FlowStep f (after f t f.writes (send_task f.sock))
  wrote : {f : Flow} (w : ℕ) → f.writes ≡ suc w → FlowStep f (after f f.tasks w (on_written f.sock))

pub data Reachable (f : Flow) : Flow → Type 0 where
  start : Reachable f f
  next : {g h : Flow} → Reachable f g → FlowStep g h → Reachable f h

pub record Sound (f : Flow) : Type 0 where
  pub order : f.handed ++ f.sock.send_buffer ≡ f.accepted
  pub one : f.writes ≡ (if f.sock.is_writing then 1 else 0)
  pub idle : f.sock.is_writing ≡ false → f.sock.cache_buffer ≡ []
  pub awake : f.tasks ≡ 0 → f.sock.is_writing ≡ false → f.sock.send_buffer ≡ []

-- A step that flushes an idle socket keeps all that is wanted.
flush-Sound :
    (f : Flow) (t : ℕ) (s : Socket)
    → f.handed ++ s.send_buffer ≡ f.accepted
    → s.cache_buffer ≡ []
    → Sound (after f t 0 (flush s s.send_buffer))
flush-Sound f t s order e = elim (List-cases s.send_buffer) [
  | inl e' ↦ rw e' (record {
    order = append-nil (f.handed ++ []) ∙ ap (λ b. f.handed ++ b) (sym e') ∙ order;
    one = refl;
    idle = λ h. e;
    awake = λ h h'. refl;
  })
  | inr (x, xs, e') ↦ rw e' (record {
    order = rw (append-nil, e, append-nil) (ap (λ b. f.handed ++ b) (sym e') ∙ order);
    one = refl;
    idle = λ h. absurd (cc h);
    awake = λ h h'. absurd (cc h');
  })
]

-- Steps preserve what is wanted.
task-Sound :
    {f : Flow} (t : ℕ) → Sound f → f.tasks ≡ suc t → Sound (after f t f.writes (send_task f.sock))
task-Sound {f} t v e = elim (Bool-cases f.sock.is_writing) [
  | inl w ↦ rw (send_task-busy f.sock w) (record {
    order = ap (λ l. l ++ f.sock.send_buffer) (append-nil f.handed) ∙ v.order;
    one = omega (arith, v.one);
    idle = v.idle;
    awake = λ h h'. absurd (cc (w, h'));
  })
  | inr w ↦
      rw (send_task-idle f.sock w (v.idle w), v.one, w) (flush-Sound f t f.sock v.order (v.idle w))
]

abbrev emptied : Socket → Socket
emptied s = record s { cache_buffer = [] }

on_written-flush :
    (f : Flow) (t w : ℕ) (s : Socket)
    → after f t w (on_written s) ≡ after f t w (flush (emptied s) s.send_buffer)
unfolding on_written
on_written-flush f t w s = elim (Bool-cases s.has_connection) [
  | inl c ↦
      ap (after f t w) (
        ap (λ (r : Step). (r.0, (if s.has_connection then event evt_send ∷ [] else []) ++ r.1))
          (do_async_write-flush (emptied s) refl))
      ∙ rw c refl
  | inr c ↦
      ap (after f t w) (
        ap (λ (r : Step). (r.0, (if s.has_connection then event evt_send ∷ [] else []) ++ r.1))
          (do_async_write-flush (emptied s) refl))
      ∙ rw c refl
]

one_write : (b : Bool) (w : ℕ) → suc w ≡ (if b then 1 else 0) → w ≡ 0
one_write true w e = omega (arith, e)
one_write false w e = absurd (omega (arith, e))

wrote-Sound :
    {f : Flow} (w : ℕ) → Sound f → f.writes ≡ suc w → Sound (after f f.tasks w (on_written f.sock))
wrote-Sound {f} w v e =
    rw (on_written-flush f f.tasks w f.sock, one_write f.sock.is_writing w (sym e ∙ v.one))
      (flush-Sound f f.tasks (emptied f.sock) v.order refl)

submit-Sound : {f : Flow} (parts : List (List ℕ)) → Sound f → Sound (submitted f parts)
submit-Sound {f} parts v = elim (Bool-cases (is_open f.sock)) [
  | inl o ↦
      rw (o, msend-open f.sock parts o)
        (record {
          order =
              sym (append_assoc f.handed f.sock.send_buffer (taken f.sock.send_buffer parts))
              ∙ ap (λ l. l ++ taken f.sock.send_buffer parts) v.order;
          one = v.one;
          idle = v.idle;
          awake = λ h h'. absurd (omega (arith, h));
        })
  | inr o ↦
      rw (o, msend-shut f.sock parts o)
        (record {
          order = v.order ∙ sym (append-nil f.accepted);
          one = v.one;
          idle = v.idle;
          awake = λ h h'. v.awake (omega (arith, h)) h';
        })
]

step-Sound : {f g : Flow} → FlowStep f g → Sound f → Sound g
step-Sound (submit parts) v = submit-Sound parts v
step-Sound (task t e) v = task-Sound t v e
step-Sound (wrote w e) v = wrote-Sound w v e

pub Reachable-Sound : {f g : Flow} → Reachable f g → Sound f → Sound g
Reachable-Sound start v = v
Reachable-Sound (next r st) v = step-Sound st (Reachable-Sound r v)

at_most_one : (b : Bool) (w : ℕ) → w ≡ (if b then 1 else 0) → w ≤ 1
at_most_one true w e = omega (arith, e)
at_most_one false w e = omega (arith, e)

no_write : (b : Bool) (w : ℕ) → w ≡ 0 → w ≡ (if b then 1 else 0) → b ≡ false
no_write true w z e = absurd (omega (arith, z, e))
no_write false w z e = refl

drained : {g : Flow} → Sound g → g.tasks ≡ 0 → g.writes ≡ 0 → g.handed ≡ g.accepted
drained {g} v t w =
    sym (append-nil g.handed)
    ∙ ap (λ l. g.handed ++ l) (sym (v.awake t (no_write g.sock.is_writing g.writes w v.one)))
    ∙ v.order

-- Whatever the order of sends, tasks and write handlers, without an error or a close: at most one
-- write is under way, the bytes handed to asio and the waiting ones are the bytes that `mpush` took,
-- in order, and when no task and no write is left, all bytes have been handed over.
pub sent_all :
    {f g : Flow}
    → Sound f
    → Reachable f g
    → (g.writes ≤ 1)
      × (g.handed ++ g.sock.send_buffer ≡ g.accepted)
      × (g.tasks ≡ 0 → g.writes ≡ 0 → g.handed ≡ g.accepted)
sent_all {f} {g} v r =
    let w = Reachable-Sound r v in
    (at_most_one g.sock.is_writing g.writes w.one, w.order, drained w)
