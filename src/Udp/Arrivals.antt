-- ===== src/Udp/Arrivals.antt =====
-- Datagrams that come in at a listener, one after the other.
use knet.Base.{
  ℕ, suc, ◌+◌, ◌%◌, ◌^◌, length, ◌≤◌, ◌<◌, ◌≡◌, ◌⊎◌, refl, sym, ap, subst, ◌∙◌, true, false, Option,
  none, some, List, [], ◌∷◌, ◌++◌, arith, if◌then◌else◌, if_false, if_split, Bool-cases, inl, inr,
  Text, same_text, same_text_iff, is_empty, lookup, insert, lookup-insert, insert_new,
}
use knet.Udp.Listener.{
  UdpListener, ListenerHandlers, ListenerEffect, find_connection, create_connection, connection_of,
  on_received,
}

-- The peer, and an error or the bytes.
abbrev pub Arrival : Type 0
Arrival = Text × Option Text

abbrev pub Step : Type 0
Step = UdpListener × List ListenerEffect

abbrev pub andthen : Step → (UdpListener → Step) → Step
andthen (l, es) f = let (l', fs) = f l in (l', es ++ fs)

-- They are received as long as a receive is outstanding.
abbrev pub run : ListenerHandlers → List Arrival → UdpListener → Step
run h [] l = (l, [])
run h ((pt, r) ∷ as_) l =
    let rest = andthen (on_received h pt r l) (run h as_) in if l.running then rest else (l, [])

-- The ids rise from one entry of the table to the next, up to the counter.
abbrev pub Ascending : ℕ → List (Text × ℕ) → ℕ → Type 0
Ascending low [] high = low ≤ high
Ascending low ((pt, cid) ∷ cs) high = (low < cid) × Ascending cid cs high

abbrev pub IsTable : UdpListener → Type 0
IsTable l = Ascending 0 l.connections l.index

Ascending-concat :
    (pt : Text) (low : ℕ) (cs : List (Text × ℕ)) (high : ℕ)
    → Ascending low cs high
    → Ascending low (cs ++ ((pt, suc high) ∷ [])) (suc high)
Ascending-concat pt low [] high h = omega arith
Ascending-concat pt low ((p, cid) ∷ cs) high h = (h.0, Ascending-concat pt cid cs high h.1)

-- The table keeps its form, and the connection of a peer that has one.
abbrev Keeps : Text → ℕ → UdpListener → Type 0
Keeps pt cid l = IsTable l × (find_connection pt l ≡ some cid)

-- A receive counts one connection at most.
abbrev KeepsFrom : ℕ → Text → ℕ → UdpListener → Type 0
KeepsFrom n pt cid l = Keeps pt cid l × (l.index ≤ suc n)

create-KeepsFrom :
    (pt q : Text) (cid : ℕ) (l : UdpListener)
    → find_connection q l ≡ none
    → Keeps pt cid l
    → suc l.index < 2 ^ 32
    → KeepsFrom l.index pt cid (create_connection q l)
unfolding find_connection create_connection
create-KeepsFrom pt q cid l new (table, found) small =
    subst
      (λ (n : ℕ).
        (Ascending 0 (insert q n l.connections) (suc l.index)
          × (lookup pt (insert q n l.connections) ≡ some cid))
        × (suc l.index ≤ suc l.index))
      (let e : suc l.index ≡ suc l.index % 2 ^ 32 = omega arith in e)
      (
        (
          subst (λ cs. Ascending 0 cs (suc l.index))
              (sym (insert_new q (suc l.index) l.connections new))
              (Ascending-concat q 0 l.connections l.index table),
          lookup-insert q pt (suc l.index) l.connections
              ∙ if_false _ _ (other (Bool-cases (same_text q pt)))
              ∙ found,
        ),
        omega arith,
      )
  where
    other : ((same_text q pt ≡ true) ⊎ (same_text q pt ≡ false)) → same_text q pt ≡ false
    other (inr e) = e
    other (inl e) =
        absurd (cc (ap (λ k. lookup k l.connections) ((same_text_iff q pt).0 e), new, found))

connection_of-KeepsFrom :
    (h : ListenerHandlers) (pt q : Text) (cid : ℕ) (l : UdpListener) (o : Option ℕ)
    → find_connection q l ≡ o
    → Keeps pt cid l
    → suc l.index < 2 ^ 32
    → KeepsFrom l.index pt cid (connection_of h q l o).0
connection_of-KeepsFrom h pt q cid l none e k small = create-KeepsFrom pt q cid l e k small
connection_of-KeepsFrom h pt q cid l (some c) e k small = (k, omega arith)

on_received-KeepsFrom :
    (h : ListenerHandlers) (pt q : Text) (r : Option Text) (cid : ℕ) (l : UdpListener)
    → Keeps pt cid l
    → suc l.index < 2 ^ 32
    → KeepsFrom l.index pt cid (on_received h q r l).0
unfolding on_received
on_received-KeepsFrom h pt q none cid l k small = stopped k
  where
    stopped : Keeps pt cid l → KeepsFrom l.index pt cid (record l { running = false })
    stopped k = (k, omega arith)
on_received-KeepsFrom h pt q (some bytes) cid l k small =
    if_split (λ (r : Step). KeepsFrom l.index pt cid r.0) (is_empty bytes) _ _
      (λ _. (k, omega arith))
      (λ _. connection_of-KeepsFrom h pt q cid l (find_connection q l) refl k small)

-- As long as the counter of the connections stays below 2^32: a peer that has a connection keeps this
-- one, whatever arrives afterwards from whom, and the connections of the table have different ids that
-- the counter has reached.
pub run-Keeps :
    (h : ListenerHandlers) (as_ : List Arrival) (pt : Text) (cid : ℕ) (l : UdpListener)
    → IsTable l
    → find_connection pt l ≡ some cid
    → l.index + length as_ < 2 ^ 32
    → IsTable (run h as_ l).0 × (find_connection pt (run h as_ l).0 ≡ some cid)
run-Keeps h [] pt cid l table found small = (table, found)
run-Keeps h ((q, r) ∷ as_) pt cid l table found small =
    if_split (λ (s : Step). Keeps pt cid s.0) l.running _ _
      (λ _.
        let (k, counted) = on_received-KeepsFrom h pt q r cid l (table, found) (omega arith) in
        run-Keeps h as_ pt cid (on_received h q r l).0 k.0 k.1 (omega arith))
      (λ _. (table, found))

-- Nothing is received behind the end of the receives.
run_stopped :
    (h : ListenerHandlers) (as_ : List Arrival) (l : UdpListener)
    → l.running ≡ false
    → run h as_ l ≡ (l, [])
run_stopped h [] l e = refl
run_stopped h ((q, r) ∷ as_) l e = if_false _ _ e

-- After a datagram of no bytes, nothing that arrives is received any more: the listener is and does
-- what it would if nothing arrived behind that datagram.
pub run-empty_datagram :
    (h : ListenerHandlers) (before after : List Arrival) (pt : Text) (l : UdpListener)
    → run h (before ++ ((pt, some []) ∷ after)) l ≡ run h (before ++ ((pt, some []) ∷ [])) l
unfolding on_received
run-empty_datagram h [] after pt l = elim (Bool-cases l.running) [
  | inr off ↦ if_false _ _ off ∙ sym (if_false _ _ off)
  | inl on ↦
      let r = on_received h pt (some []) l in
      ap (λ b. let s : Step = if b then andthen r (run h after) else (l, []) in s) on
      ∙ ap (λ s. andthen r (λ _. s)) (run_stopped h after r.0 refl)
      ∙ ap (λ b. let s : Step = if b then andthen r (run h []) else (l, []) in s) (sym on)
]
run-empty_datagram h ((q, x) ∷ before) after pt l =
    ap
      (λ s.
        let t : Step = if l.running then andthen (on_received h q x l) (λ _. s) else (l, []) in t)
      (run-empty_datagram h before after pt (on_received h q x l).0)
