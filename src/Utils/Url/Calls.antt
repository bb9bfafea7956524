-- ===== src/Utils/Url/Calls.antt =====
-- A URL under any calls of `parse`, `set` and `reset`: its parameters as a function from keys.
use mathlib.Core.Path.{fun_ext}
use knet.Base.{
  ℕ, ◌+◌, take, drop, ◌≡◌, refl, sym, ap, subst, ◌∙◌, Bool, true, false, Option, none, some, List,
  [], ◌∷◌, arith, if◌then◌else◌, Text, same_text, is_empty, lookup, insert, lookup-insert,
  find_text, find_byte, codes,
}
use knet.Utils.Url.{
  KNetUrl, Scan, scan_byte, scan, scan_params, parse_port, parse_host, with_params, split_query,
  parse_at, parse, reset, has, set_param, get,
}
use knet.Utils.Url.Params.{Distinct, insert-Distinct}

scan_byte-Distinct : (s : Scan) (c : ℕ) → Distinct s.params → Distinct (scan_byte s c).params
scan_byte-Distinct s c d = ground (arith, insert-Distinct s.key s.value s.params)

scan-Distinct : (s : Scan) (cs : Text) → Distinct s.params → Distinct (scan s cs).params
scan-Distinct s [] d = d
scan-Distinct s (c ∷ cs) d = scan-Distinct (scan_byte s c) cs (scan_byte-Distinct s c d)

scan_params-Distinct : (cs : Text) → Distinct (scan_params cs)
scan_params-Distinct cs =
    let s = scan (record { is_key = true; key = []; value = []; params = [] }) cs in
    let d = scan-Distinct (record { is_key = true; key = []; value = []; params = [] }) cs tt in
    elim (is_empty s.key)
      as (λ b. Distinct (if b then s.params else insert s.key s.value s.params)) [
        | true ↦ d
        | false ↦ insert-Distinct s.key s.value s.params d
      ]

params-parse_port : (u : KNetUrl) (p : Text) → (parse_port u p).0.params ≡ u.params
params-parse_port u p = ground arith

parse_port-Distinct :
    (u : KNetUrl) (p : Text) → Distinct u.params → Distinct (parse_port u p).0.params
parse_port-Distinct u p d = subst Distinct (sym (params-parse_port u p)) d

parse_host-Distinct :
    (u : KNetUrl) (h : Text) (o : Option ℕ)
    → Distinct u.params
    → Distinct (parse_host u h o).0.params
parse_host-Distinct u h none d = d
parse_host-Distinct u h (some at) d = parse_port-Distinct _ _ d

with_params-Distinct :
    (q : Text) (r : KNetUrl × Option (Unit {0}))
    → Distinct r.0.params
    → Distinct (with_params q r).0.params
with_params-Distinct q (u, none) d = d
with_params-Distinct q (u, some _) d = scan_params-Distinct q

parse_at-Distinct :
    (u : KNetUrl) (t : Text) (o : Option ℕ) → Distinct u.params → Distinct (parse_at u t o).0.params
parse_at-Distinct u t none d = d
parse_at-Distinct u t (some at) d =
    let rest = drop (at + 3) t in
    let parts = split_query rest (find_byte b'?' rest) in
    let u' = record u { protocol = take at t } in
    with_params-Distinct parts.1 (parse_host u' parts.0 (find_byte b':' parts.0))
      (parse_host-Distinct u' parts.0 (find_byte b':' parts.0) d)

parse-Distinct : (u : KNetUrl) (t : Text) → Distinct (parse u t).0.params
unfolding parse reset
parse-Distinct u t = parse_at-Distinct (reset u) t (find_text (codes "://") t) tt

-- A call of the class, and a run of calls.
pub data Call : Type 0 where
  parsed : Text → Call
  assigned : Text → Text → Call
  cleared : Call

abbrev pub call : KNetUrl → Call → KNetUrl
call u (parsed t) = (parse u t).0
call u (assigned k v) = set_param u k v
call u cleared = reset u

abbrev pub run : KNetUrl → List Call → KNetUrl
run u [] = u
run u (c ∷ cs) = run (call u c) cs

-- The parameters as a function, changed at one key or replaced.
abbrev pub Values : Type 0
Values = Text → Option Text

abbrev pub values : KNetUrl → Values
values u k = lookup k u.params

abbrev pub changed : Values → Call → Values
changed f (parsed t) =
    values (parse (record { protocol = []; host = []; port = 0; params = [] }) t).0
changed f (assigned k v) = λ j. if same_text k j then some v else f j
changed f cleared = λ j. none

abbrev pub replay : Values → List Call → Values
replay f [] = f
replay f (c ∷ cs) = replay (changed f c) cs

call-Distinct : (u : KNetUrl) (c : Call) → Distinct u.params → Distinct (call u c).params
unfolding set_param reset
call-Distinct u (parsed t) d = parse-Distinct u t
call-Distinct u (assigned k v) d = insert-Distinct k v u.params d
call-Distinct u cleared d = tt

values-call : (u : KNetUrl) (c : Call) → values (call u c) ≡ changed (values u) c
unfolding set_param reset parse lookup
values-call u (parsed t) = refl
values-call u (assigned k v) = fun_ext λ j. lookup-insert k j v u.params
values-call u cleared = refl

values-run : (u : KNetUrl) (cs : List Call) → values (run u cs) ≡ replay (values u) cs
values-run u [] = refl
values-run u (c ∷ cs) = values-run (call u c) cs ∙ ap (λ f. replay f cs) (values-call u c)

run-Distinct : (u : KNetUrl) (cs : List Call) → Distinct u.params → Distinct (run u cs).params
run-Distinct u [] d = d
run-Distinct u (c ∷ cs) d = run-Distinct (call u c) cs (call-Distinct u c d)

-- After any calls of parse, set and reset on a URL with one value for each key, each key has one value,
-- `get` gives what the same calls make of a function from keys to values (or the default, where that
-- has none), and `has` says whether that has a value.
pub run-values :
    (u : KNetUrl) (cs : List Call)
    → Distinct u.params
    → Distinct (run u cs).params
      × ((k d : Text)
          → get (run u cs) k d ≡ elim (replay (values u) cs k) [ none ↦ d | some v ↦ v ])
      × ((k : Text)
          → has (run u cs) k ≡ elim (replay (values u) cs k) [ none ↦ false | some v ↦ true ])
unfolding get has
run-values u cs d = (
  run-Distinct u cs d,
  λ k dft. ap (λ f. let r : Text = elim (f k) [ none ↦ dft | some v ↦ v ] in r) (values-run u cs),
  λ k. ap (λ f. let r : Bool = elim (f k) [ none ↦ false | some v ↦ true ] in r) (values-run u cs),
)
