-- ===== src/Tcp/Connector/Chain.antt =====
-- `remove_event_handler`.
use knet.Base.{
  ℕ, zero, suc, ◌≡◌, refl, sym, ap, ◌∙◌, true, false, Option, none, some, List, ◌∷◌, arith,
  if◌then◌else◌, ◌==◌, Bool-cases, inl, inr, if_true, if_false,
}
use knet.Tcp.Connector.{Connector, remove_from, remove_event_handler}

not_found :
    (fuel h g : ℕ) (rest : List ℕ) → (g == h) ≡ false → remove_from fuel 0 h (g ∷ rest) ≡ none
unfolding remove_from
not_found zero h g rest other = refl
not_found (suc fuel) h g rest other = ground (arith, not_found fuel h g rest)

found :
    (fuel h g : ℕ) (rest : List ℕ)
    → (g == h) ≡ true
    → remove_from (suc fuel) 0 h (g ∷ rest) ≡ some rest
unfolding remove_from
found fuel h g rest same = ground arith

-- With one round or more of the loop, `remove_event_handler` takes out the handler that is asked for if
-- it is the first one; if another one is first, it does not return, however many rounds are made.
pub remove_event_handler-first :
    (fuel h g : ℕ) (rest : List ℕ) (c : Connector)
    → c.net_handler_chain ≡ g ∷ rest
    → remove_event_handler (suc fuel) (some h) c
      ≡ (if g == h then some (record c { net_handler_chain = rest }) else none)
unfolding remove_event_handler
remove_event_handler-first fuel h g rest c e =
    let finish : Option (List ℕ) → Option Connector =
      λ o. elim o [ none ↦ none | some chain ↦ some (record c { net_handler_chain = chain }) ] in
    elim (Bool-cases (g == h)) [
      | inl same ↦
          ap (λ chain. finish (remove_from (suc fuel) 0 h chain)) e
          ∙ ap finish (found fuel h g rest same)
          ∙ sym (if_true _ _ same)
      | inr other ↦
          ap (λ chain. finish (remove_from (suc fuel) 0 h chain)) e
          ∙ ap finish (not_found (suc fuel) h g rest other)
          ∙ sym (if_false _ _ other)
    ]
