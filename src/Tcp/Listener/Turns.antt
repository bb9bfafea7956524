-- ===== src/Tcp/Listener/Turns.antt =====
-- `get_worker` of include/tcp/asio/tcp_listener.hpp, called again and again.
use native.Mathlib.Nat.{mod-add-mod, mod-lt, mod-eq_of_lt, mod_self}
use knet.Base.{
  ℕ, zero, suc, ◌+◌, ◌-◌, ◌%◌, ◌^◌, ◌≤◌, ◌<◌, ◌≡◌, refl, sym, ap, ap₂, ◌∙◌, List, [], ◌∷◌, ◌++◌,
  arith, if_false, ne→not-==, length, get_or, take, drop, take_all, length-drop,
}
use knet.Tcp.Listener.{Listener, get_worker}

-- The workers of the next `n` connections.
abbrev pub turns : ℕ → Listener → List ℕ
turns zero l = []
turns (suc n) l = let (w, l') = get_worker l in w ∷ turns n l'

-- The listener with another index.
abbrev at_index : Listener → ℕ → Listener
at_index l i = record l { worker_index = i }

take-suc :
    (m p : ℕ) (ws : List ℕ)
    → p < length ws
    → get_or ws p 0 ∷ take m (drop (suc p) ws) ≡ take (suc m) (drop p ws)
take-suc m p [] h = absurd (omega arith)
take-suc m zero (w ∷ ws) h = refl
take-suc m (suc p) (w ∷ ws) h = take-suc m p ws (omega arith)

module _ (l : Listener) (some_worker : 0 < length l.user_workers) where
  one_turn :
      (i : ℕ)
      → i + 1 < 2 ^ 32
      → get_worker (at_index l i)
        ≡ (get_or l.user_workers (i % length l.user_workers) 0, at_index l (i + 1))
  unfolding get_worker
  one_turn i h =
      if_false _ _ (ne→not-== (length l.user_workers) 0 (omega (arith, some_worker)))
      ∙ ap (λ (j : ℕ). (get_or l.user_workers (i % length l.user_workers) 0, at_index l j))
          (mod-eq_of_lt h)

  first_of :
      (i m : ℕ)
      → i + 1 < 2 ^ 32
      → turns (suc m) (at_index l i)
        ≡ get_or l.user_workers (i % length l.user_workers) 0 ∷ turns m (at_index l (i + 1))
  first_of i m h = ap (λ (r : ℕ × Listener). r.0 ∷ turns m r.1) (one_turn i h)

  -- Turns that do not go past the last worker.
  turns_part :
      (m i p : ℕ)
      → i % length l.user_workers ≡ p
      → p + m ≤ length l.user_workers
      → i + m < 2 ^ 32
      → turns m (at_index l i) ≡ take m (drop p l.user_workers)
  turns_part zero i p e le h = refl
  turns_part (suc zero) i p e le h =
      first_of i 0 h
      ∙ ap (λ q. get_or l.user_workers q 0 ∷ []) e
      ∙ take-suc 0 p l.user_workers (omega arith)
  turns_part (suc (suc m)) i p e le h =
      let next : (i + 1) % length l.user_workers ≡ suc p =
        sym (mod-add-mod i (length l.user_workers) 1)
        ∙ ap (λ q. (q + 1) % length l.user_workers) e
        ∙ mod-eq_of_lt {n = p + 1} (omega arith)
        ∙ omega arith in
      first_of i (suc m) (omega arith)
      ∙ ap₂ (λ (q : ℕ) (ws : List ℕ). get_or l.user_workers q 0 ∷ ws) e
          (turns_part (suc m) (i + 1) (suc p) next (omega arith) (omega arith))
      ∙ take-suc (suc m) p l.user_workers (omega arith)

  turns_add :
      (a b i : ℕ)
      → i + (a + b) < 2 ^ 32
      → turns (a + b) (at_index l i) ≡ turns a (at_index l i) ++ turns b (at_index l (i + a))
  turns_add zero b i h =
      let e : 0 + b ≡ b = omega arith in
      let e' : i ≡ i + 0 = omega arith in
      ap (λ k. turns k (at_index l i)) e ∙ ap (λ j. turns b (at_index l j)) e'
  turns_add (suc a) b i h =
      let e : suc a + b ≡ suc (a + b) = omega arith in
      let e' : i + 1 + a ≡ i + suc a = omega arith in
      let w = get_or l.user_workers (i % length l.user_workers) 0 in
      ap (λ k. turns k (at_index l i)) e
      ∙ first_of i (a + b) (omega arith)
      ∙ ap (λ ws. w ∷ ws) (turns_add a b (i + 1) (omega arith))
      ∙ ap (λ j. w ∷ (turns a (at_index l (i + 1)) ++ turns b (at_index l j))) e'
      ∙ ap (λ ws. ws ++ turns b (at_index l (i + suc a))) (sym (first_of i a (omega arith)))

  -- As many connections as there are workers go to the workers in their order, from the one that is
  -- due on and round, so each gets one, while the 32-bit index does not overflow and no worker is
  -- added. There is a worker.
  pub turns-rotate :
      (i : ℕ)
      → i + length l.user_workers < 2 ^ 32
      → turns (length l.user_workers) (at_index l i)
        ≡ drop (i % length l.user_workers) l.user_workers
          ++ take (i % length l.user_workers) l.user_workers
  turns-rotate i h =
      let n = length l.user_workers in
      let p = i % n in
      let below : p < n = mod-lt i some_worker in
      let whole : n ≡ (n - p) + p = omega arith in
      let wrap : (i + (n - p)) % n ≡ 0 =
        sym (mod-add-mod i n (n - p))
        ∙ (let s : p + (n - p) ≡ n = omega arith in ap (λ k. k % n) s)
        ∙ mod_self n in
      ap (λ k. turns k (at_index l i)) whole
      ∙ turns_add (n - p) p i (omega arith)
      ∙ ap₂ (λ (a b : List ℕ). a ++ b)
          (turns_part (n - p) i p refl (omega arith) (omega arith)
            ∙ take_all (n - p) (drop p l.user_workers)
                (omega (arith, length-drop p l.user_workers)))
          (turns_part p (i + (n - p)) 0 wrap (omega arith) (omega arith))
