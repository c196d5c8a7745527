-- ===== src/Workflow/Valid.antt =====
-- What a valid definition promises, and that the validation raises no false alarm.
use Prim.Native.String.{String}
use text.Mathlib.Text.{◌==◌ as str_eq}
use text.Mathlib.TextEquality.{eq_iff}
use cadena.Workflow.Definition.{
  Rule, Workflow, has, targets_of, fresh_ones, finds, DefinitionError, source_not_declared,
  target_not_declared, shape_errors, endpoint_errors, missing_from, reach_errors,
  unreachable_errors, stuck_errors, is_found, fuel_of, validate_workflow_definition,
  no_terminal_from,
}
use cadena.Workflow.Search.{
  Reach, start, explore-Reach, IsClosed, IsClosed-step, new_reached, append-reached,
  Reach-in_closed, start-IsClosed, enough, only_start, fresh_ones-pays, pending, targets_of-targets,
  has-append, has-first, has-later,
}
use cadena.Prelude.{
  ℕ, zero, suc, ◌+◌, ◌≤◌, ◌≡◌, ◌↔◌, ◌⊎◌, refl, Bool, true, false, Bool-cases, some, List, [], ◌∷◌,
  ◌++◌, ◌||◌, inl, inr, if◌then◌else◌, arith, length, length-append, All,
}

module _ (states : List String) (rules : List Rule) (terminal : List String) where
  -- The visited states that are not queued are not terminal.
  abbrev IsBarren : (queue visited : List String) → Type 0
  IsBarren queue visited =
      (a : String) → has visited a ≡ true → has queue a ≡ false → has terminal a ≡ false

  IsBarren-step :
      (curr : String) (queue visited : List String)
      → has terminal curr ≡ false
      → IsBarren (curr ∷ queue) visited
      → let new = fresh_ones visited (targets_of states rules curr) in
        IsBarren (queue ++ new) (visited ++ new)
  IsBarren-step curr queue visited t barren a v q =
      let new = fresh_ones visited (targets_of states rules curr) in
      let left = has-append queue new a in
      let before = has-append visited new a in
      elim (Bool-cases (str_eq a curr)) [
        | inl same ↦ let e = (eq_iff a curr).0 same in rw (e) t
        | inr differs ↦
            barren a (ground (arith, v, q, left, before)) (ground (arith, q, left, differs))
      ]

  pub finds-closes :
      (fuel : ℕ) (queue visited : List String)
      → length queue + pending visited rules ≤ fuel
      → IsClosed states rules queue visited
      → IsBarren queue visited
      → (finds fuel states rules terminal queue visited ≡ some true)
        ⊎ ((finds fuel states rules terminal queue visited ≡ some false)
            × ((found : List String) × IsClosed states rules [] found
                × IsBarren [] found
                × ((a : String) → has visited a ≡ true → has found a ≡ true)))
  unfolding finds
  finds-closes fuel [] visited h closed barren = inr (refl, (visited, closed, barren, λ a v. v))
  finds-closes zero (curr ∷ queue) visited h closed barren = ground (arith, h)
  finds-closes (suc fuel) (curr ∷ queue) visited h closed barren =
      elim (Bool-cases (has terminal curr)) [
        | inl t ↦ inl (rw (t) refl)
        | inr t ↦
            let new = fresh_ones visited (targets_of states rules curr) in
            let paid =
              fresh_ones-pays visited (targets_of states rules curr) rules
                (targets_of-targets states rules curr) in
            elim (finds-closes fuel (queue ++ new) (visited ++ new)
              (omega (arith, paid, h, length-append queue new))
              (IsClosed-step states rules curr queue visited closed)
              (IsBarren-step curr queue visited t barren)) [
                | inl e ↦ inl (rw (t) e)
                | inr (e, (found, c, b, grown)) ↦ inr (
                  rw (t) e,
                  (found, c, b, λ a v. grown a (rw (has-append visited new a, v) refl)),
                )
              ]
      ]

  -- Some terminal state can be reached.
  abbrev pub Ends : (s : String) → Type 0
  Ends s = (t : String) × Reach states rules s t × (has terminal t ≡ true)

  finds-true :
      (s : String) (fuel : ℕ) (queue visited : List String)
      → ((a : String) → has queue a ≡ true → Reach states rules s a)
      → finds fuel states rules terminal queue visited ≡ some true
      → Ends s
  unfolding finds
  finds-true s fuel [] visited q e = cc
  finds-true s zero (curr ∷ queue) visited q e = cc
  finds-true s (suc fuel) (curr ∷ queue) visited q e = elim (Bool-cases (has terminal curr)) [
    | inl t ↦ (curr, q curr (has-first curr queue), t)
    | inr t ↦
        let new = fresh_ones visited (targets_of states rules curr) in
        let fresh = new_reached states rules s curr visited (q curr (has-first curr queue)) in
        finds-true s fuel (queue ++ new) (visited ++ new)
          (append-reached states rules s queue new (λ a m. q a (has-later curr queue a m)) fresh)
          (ground (arith, e, t))
  ]

  -- The search for a terminal state from `s` ends within its fuel, and finds one exactly where the
  -- transitions lead to one.
  pub finds-Ends :
      (s : String)
      → (is_found (finds (suc (length rules)) states rules terminal (s ∷ []) (s ∷ [])) ≡ true)
        ↔ Ends s
  finds-Ends s =
      let fuel = suc (length rules) in
      let barren : IsBarren (s ∷ []) (s ∷ []) = λ a v q. ground (arith, v, q) in
      elim (finds-closes fuel (s ∷ []) (s ∷ []) (enough states rules s)
        (start-IsClosed states rules s) barren) [
          | inl e ↦ (
            λ _. finds-true s fuel (s ∷ []) (s ∷ []) (only_start states rules s) e,
            λ _. rw (e) refl,
          )
          | inr (e, (found, closed, empty, grown)) ↦ (
            λ h. ground (arith, e, h),
            λ (t, r, m). ground (
              arith,
              m,
              empty t (Reach-in_closed states rules s found closed (grown s (has-first s [])) t r)
                  refl,
            ),
          )
        ]

nil_append : (xs ys : List DefinitionError) → (xs ++ ys ≡ []) ↔ ((xs ≡ []) × (ys ≡ []))
nil_append [] ys = (λ h. (refl, h), λ h. h.1)
nil_append (x ∷ xs) ys = ground arith

if_nil {ℓ} :
    {A : Type ℓ} (b : Bool) (x : A) (xs : List A)
    → ((if b then xs else (x ∷ xs)) ≡ []) ↔ ((b ≡ true) × (xs ≡ []))
if_nil true x xs = (λ h. (refl, h), λ h. h.1)
if_nil false x xs = ground arith

endpoints_declared :
    (states : List String) (rs : List Rule)
    → (endpoint_errors states rs ≡ [])
      ↔ All (λ r. (has states r.from ≡ true) × (has states r.to ≡ true)) rs
unfolding endpoint_errors
endpoints_declared states [] = (λ h. tt, λ h. refl)
endpoints_declared states (r ∷ rs) =
    let rest = endpoints_declared states rs in
    let source = if_nil (has states r.from) (source_not_declared r.from) [] in
    let target = if_nil (has states r.to) (target_not_declared r.to) [] in
    let outer =
      nil_append (if has states r.from then [] else (source_not_declared r.from ∷ [])) _ in
    let inner =
      nil_append (if has states r.to then [] else (target_not_declared r.to ∷ []))
        (endpoint_errors states rs) in
    (
      λ h.
          let (a, b) = outer.0 h in
          let (c, d) = inner.0 b in (((source.0 a).0, (target.0 c).0), rest.0 d),
      λ ((a, b), c). outer.1 (source.1 (a, refl), inner.1 (target.1 (b, refl), rest.1 c)),
    )

nothing_missing : (v ss : List String) → (missing_from v ss ≡ []) ↔ All (λ x. has v x ≡ true) ss
nothing_missing v [] = (λ h. tt, λ h. refl)
nothing_missing v (x ∷ xs) =
    let rest = nothing_missing v xs in
    let first = if_nil (has v x) x (missing_from v xs) in
    (λ h. ((first.0 h).0, rest.0 (first.0 h).1), λ (k, ks). first.1 (k, rest.1 ks))

not_stuck :
    (states : List String) (rules : List Rule) (terminal : List String) (x : String)
    → ((has terminal x || is_found (finds (fuel_of rules) states rules terminal (x ∷ []) (x ∷ [])))
        ≡ true)
      ↔ Ends states rules terminal x
not_stuck states rules terminal x = elim (Bool-cases (has terminal x)) [
  | inl t ↦ (λ _. (x, start, t), λ _. rw (t) refl)
  | inr t ↦ rw (t) (finds-Ends states rules terminal x)
]

none_stuck :
    (states : List String) (rules : List Rule) (terminal ss : List String)
    → (stuck_errors states rules terminal ss ≡ []) ↔ All (λ x. Ends states rules terminal x) ss
unfolding stuck_errors
none_stuck states rules terminal [] = (λ h. tt, λ h. refl)
none_stuck states rules terminal (x ∷ xs) =
    let rest = none_stuck states rules terminal xs in
    let ends = not_stuck states rules terminal x in
    let first = if_nil _ (no_terminal_from x) (stuck_errors states rules terminal xs) in
    (λ h. (ends.0 (first.0 h).0, rest.0 (first.0 h).1), λ (k, ks). first.1 (ends.1 k, rest.1 ks))

unreachable_errors-nil : (ms : List String) → (unreachable_errors ms ≡ []) ↔ (ms ≡ [])
unreachable_errors-nil [] = (λ h. refl, λ h. refl)
unreachable_errors-nil (m ∷ ms) = ground arith

All-iff :
    (P : String → Bool) (Q : String → Type 0) (xs : List String)
    → ((x : String) → (P x ≡ true) ↔ Q x)
    → All (λ x. P x ≡ true) xs ↔ All Q xs
All-iff P Q [] f = (λ h. h, λ h. h)
All-iff P Q (x ∷ xs) f =
    let rest = All-iff P Q xs f in
    (λ (h, hs). ((f x).0 h, rest.0 hs), λ (h, hs). ((f x).1 h, rest.1 hs))

-- What a definition with a declared initial state promises.
pub record IsSound (d : Workflow) (initial : String) : Type 0 where
  pub declared : All (λ r. (has d.states r.from ≡ true) × (has d.states r.to ≡ true)) d.transitions
  pub reachable : All (λ x. Reach d.states d.transitions initial x) d.states
  pub ending : All (λ x. Ends d.states d.transitions d.terminal_states x) d.states

-- Of the definitions whose states, initial state and terminal states are declared, the validation
-- accepts exactly those whose transitions are between declared states, lead from the initial state
-- to every state, and lead from every state to a terminal one; its searches end within their fuel.
pub validate_workflow_definition_iff :
    (d : Workflow) (initial : String)
    → d.initial_state ≡ some initial
    → shape_errors d ≡ []
    → (validate_workflow_definition d ≡ []) ↔ IsSound d initial
unfolding validate_workflow_definition
validate_workflow_definition_iff d initial e shape =
    let (found, searched, visited) = explore-Reach d.states d.transitions initial in
    let outer = nil_append (endpoint_errors d.states d.transitions) (
      reach_errors d.states (some found)
      ++ stuck_errors d.states d.transitions d.terminal_states d.states) in
    let inner =
      nil_append (reach_errors d.states (some found))
        (stuck_errors d.states d.transitions d.terminal_states d.states) in
    let all = All-iff (has found) (Reach d.states d.transitions initial) d.states visited in
    let ends = endpoints_declared d.states d.transitions in
    let missing = nothing_missing found d.states in
    let reach = unreachable_errors-nil (missing_from found d.states) in
    let stuck = none_stuck d.states d.transitions d.terminal_states d.states in
    rw (validate_workflow_definition, shape, e, searched)
      (
        λ h.
            let (a, b) = outer.0 h in
            let (c, f) = inner.0 b in
            record {
              declared = ends.0 a;
              reachable = all.0 (missing.0 (reach.0 c));
              ending = stuck.0 f;
            },
        λ s. outer.1 (
          ends.1 s.declared,
          inner.1 (reach.1 (missing.1 (all.1 s.reachable)), stuck.1 s.ending),
        ),
      )
