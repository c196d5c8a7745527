-- ===== src/Workflow/Search.antt =====
-- The searches of the validation: what they find is what the transitions lead to, and their fuel is
-- enough.
use Prim.Native.String.{String}
use text.Mathlib.Text.{◌==◌ as str_eq}
use text.Mathlib.TextEquality.{eq_iff}
use cadena.Workflow.Definition.{Rule, has, targets_of, fresh_ones, explore}
use cadena.Prelude.{
  ℕ, zero, suc, ◌+◌, ◌≤◌, ◌≡◌, ◌↔◌, refl, sym, ◌∙◌, ap, true, false, Bool-cases, some, List, [],
  ◌∷◌, ◌++◌, ◌||◌, inl, inr, if◌then◌else◌, arith, length, length-append,
}

pub has-append : (xs ys : List String) (a : String) → has (xs ++ ys) a ≡ (has xs a || has ys a)
has-append [] ys a = refl
has-append (x ∷ xs) ys a = ground (arith, has-append xs ys a)

append-nil : (xs : List String) → xs ++ [] ≡ xs
append-nil [] = refl
append-nil (x ∷ xs) = rw (append-nil xs) refl

pub append_assoc : (xs ys zs : List String) → (xs ++ ys) ++ zs ≡ xs ++ (ys ++ zs)
append_assoc [] ys zs = refl
append_assoc (x ∷ xs) ys zs = rw (append_assoc xs ys zs) refl

pub has-same : (xs : List String) (a b : String) → str_eq a b ≡ true → has xs a ≡ has xs b
has-same xs a b h = let e = (eq_iff a b).0 h in rw (e) refl

pub has-first : (x : String) (xs : List String) → has (x ∷ xs) x ≡ true
has-first x xs = ground (arith, eq_iff x x)

pub has-later :
    (x : String) (xs : List String) (a : String) → has xs a ≡ true → has (x ∷ xs) a ≡ true
has-later x xs a h = ground (arith, h)

-- The new ones are among the targets, and with the visited ones they are all of them.
fresh_ones-among :
    (v ts : List String) (a : String) → has (fresh_ones v ts) a ≡ true → has ts a ≡ true
unfolding fresh_ones
fresh_ones-among v [] a h = h
fresh_ones-among v (t ∷ ts) a h =
    ground (arith, fresh_ones-among v ts a, fresh_ones-among (v ++ (t ∷ [])) ts a)

pub fresh_ones-cover :
    (v ts : List String) (a : String)
    → has ts a ≡ true
    → (has v a || has (fresh_ones v ts) a) ≡ true
unfolding fresh_ones
fresh_ones-cover v [] a h = cc
fresh_ones-cover v (t ∷ ts) a h = ground (
  arith,
  h,
  fresh_ones-cover v ts a,
  fresh_ones-cover (v ++ (t ∷ [])) ts a,
  has-append v (t ∷ []) a,
  has-same v a t,
)

-- The rules whose targets are still to be visited.
unfoldable pub pending : (visited : List String) → List Rule → ℕ
pending v [] = 0
pending v (r ∷ rs) = if has v r.to then pending v rs else suc (pending v rs)

unfoldable pub targets : List Rule → List String
targets [] = []
targets (r ∷ rs) = r.to ∷ targets rs

pub pending-le_length : (v : List String) (rs : List Rule) → pending v rs ≤ length rs
unfolding pending
pending-le_length v [] = omega arith
pending-le_length v (r ∷ rs) = ground (arith, pending-le_length v rs)

pending_mono :
    (v : List String) (t : String) (rs : List Rule) → pending (v ++ (t ∷ [])) rs ≤ pending v rs
unfolding pending
pending_mono v t [] = omega arith
pending_mono v t (r ∷ rs) = ground (arith, pending_mono v t rs, has-append v (t ∷ []) r.to)

pending-drop :
    (v : List String) (t : String) (rs : List Rule)
    → has v t ≡ false
    → has (targets rs) t ≡ true
    → suc (pending (v ++ (t ∷ [])) rs) ≤ pending v rs
unfolding pending targets
pending-drop v t [] h k = cc
pending-drop v t (r ∷ rs) h k = ground (
  arith,
  h,
  k,
  pending_mono v t rs,
  pending-drop v t rs h,
  has-append v (t ∷ []) r.to,
  has-same v t r.to,
  eq_iff t r.to,
  eq_iff r.to t,
)

-- What is queued is paid for by the rules whose targets it visits.
pub fresh_ones-pays :
    (v ts : List String) (rs : List Rule)
    → ((a : String) → has ts a ≡ true → has (targets rs) a ≡ true)
    → length (fresh_ones v ts) + pending (v ++ fresh_ones v ts) rs ≤ pending v rs
unfolding fresh_ones
fresh_ones-pays v [] rs h = rw (append-nil v) (omega arith)
fresh_ones-pays v (t ∷ ts) rs h = elim (Bool-cases (has v t)) [
  | inl k ↦ rw (k) (fresh_ones-pays v ts rs (λ a m. h a (ground (arith, m))))
  | inr k ↦
      let later = fresh_ones-pays (v ++ (t ∷ [])) ts rs (λ a m. h a (ground (arith, m))) in
      let drop = pending-drop v t rs k (h t (ground (arith, eq_iff t t))) in
      let same = append_assoc v (t ∷ []) (fresh_ones (v ++ (t ∷ [])) ts) in
      let moved : pending ((v ++ (t ∷ [])) ++ fresh_ones (v ++ (t ∷ [])) ts) rs
          ≡ pending (v ++ (t ∷ fresh_ones (v ++ (t ∷ [])) ts)) rs =
        ap (λ x. pending x rs) same in
      rw (k) (omega (arith, later, drop, moved))
]

pub targets_of-targets :
    (states : List String) (rs : List Rule) (s a : String)
    → has (targets_of states rs s) a ≡ true
    → has (targets rs) a ≡ true
unfolding targets_of targets
targets_of-targets states [] s a h = h
targets_of-targets states (r ∷ rs) s a h = ground (arith, h, targets_of-targets states rs s a)

-- What the transitions between declared states lead to.
pub data Reach (states : List String) (rules : List Rule) (s : String) : String → Type 0 where
  start : Reach states rules s s
  follow :
      {a : String}
      → (b : String) → Reach states rules s a
      → has (targets_of states rules a) b ≡ true
      → Reach states rules s b

module _ (states : List String) (rules : List Rule) where
  -- Every target of a visited state that is not queued is visited.
  abbrev pub IsClosed : (queue visited : List String) → Type 0
  IsClosed queue visited =
      (a b : String)
      → has visited a ≡ true
      → has queue a ≡ false
      → has (targets_of states rules a) b ≡ true
      → has visited b ≡ true

  pub IsClosed-step :
      (curr : String) (queue visited : List String)
      → IsClosed (curr ∷ queue) visited
      → let new = fresh_ones visited (targets_of states rules curr) in
        IsClosed (queue ++ new) (visited ++ new)
  IsClosed-step curr queue visited closed a b v q t =
      let new = fresh_ones visited (targets_of states rules curr) in
      let left = has-append queue new a in
      let before = has-append visited new a in
      let after = has-append visited new b in
      elim (Bool-cases (str_eq a curr)) [
        | inl same ↦
            let e = (eq_iff a curr).0 same in
            let t' : has (targets_of states rules curr) b ≡ true = rw (← e) t in
            after ∙ fresh_ones-cover visited (targets_of states rules curr) b t'
        | inr differs ↦
            let old =
              closed a b (ground (arith, v, q, left, before)) (ground (arith, q, left, differs))
                t in
            rw (after, old) refl
      ]

  explore-closes :
      (fuel : ℕ) (queue visited : List String)
      → length queue + pending visited rules ≤ fuel
      → IsClosed queue visited
      → (found : List String) × (explore fuel states rules queue visited ≡ some found)
        × IsClosed [] found
        × ((a : String) → has visited a ≡ true → has found a ≡ true)
  unfolding explore
  explore-closes fuel [] visited h closed = (visited, refl, closed, λ a v. v)
  explore-closes zero (curr ∷ queue) visited h closed = ground (arith, h)
  explore-closes (suc fuel) (curr ∷ queue) visited h closed =
      let new = fresh_ones visited (targets_of states rules curr) in
      let paid =
        fresh_ones-pays visited (targets_of states rules curr) rules
          (targets_of-targets states rules curr) in
      let (found, e, c, grown) =
        explore-closes fuel (queue ++ new) (visited ++ new)
          (omega (arith, paid, h, length-append queue new))
          (IsClosed-step curr queue visited closed) in
      (found, e, c, λ a v. grown a (rw (has-append visited new a, v) refl))

  pub new_reached :
      (s curr : String) (visited : List String)
      → Reach states rules s curr
      → (a : String) → has (fresh_ones visited (targets_of states rules curr)) a ≡ true
      → Reach states rules s a
  new_reached s curr visited r a h =
      follow a r (fresh_ones-among visited (targets_of states rules curr) a h)

  pub append-reached :
      (s : String) (xs ys : List String)
      → ((a : String) → has xs a ≡ true → Reach states rules s a)
      → ((a : String) → has ys a ≡ true → Reach states rules s a)
      → (a : String) → has (xs ++ ys) a ≡ true
      → Reach states rules s a
  append-reached s xs ys f g a h = elim (Bool-cases (has xs a)) [
    | inl k ↦ f a k
    | inr k ↦ g a (ground (arith, h, k, has-append xs ys a))
  ]

  explore-reached :
      (s : String) (fuel : ℕ) (queue visited found : List String)
      → ((a : String) → has queue a ≡ true → Reach states rules s a)
      → ((a : String) → has visited a ≡ true → Reach states rules s a)
      → explore fuel states rules queue visited ≡ some found
      → (a : String) → has found a ≡ true
      → Reach states rules s a
  unfolding explore
  explore-reached s fuel [] visited found q v e a h =
      let same : visited ≡ found = cc in v a (rw (same) h)
  explore-reached s zero (curr ∷ queue) visited found q v e a h = cc
  explore-reached s (suc fuel) (curr ∷ queue) visited found q v e a h =
      let new = fresh_ones visited (targets_of states rules curr) in
      let fresh = new_reached s curr visited (q curr (has-first curr queue)) in
      explore-reached s fuel (queue ++ new) (visited ++ new) found
        (append-reached s queue new (λ a m. q a (has-later curr queue a m)) fresh)
        (append-reached s visited new v fresh) e a h

  pub Reach-in_closed :
      (s : String) (found : List String)
      → IsClosed [] found
      → has found s ≡ true
      → (a : String) → Reach states rules s a
      → has found a ≡ true
  Reach-in_closed s found closed h a start = h
  Reach-in_closed s found closed h b (follow {a} _ r t) =
      closed a b (Reach-in_closed s found closed h a r) refl t

  pub start-IsClosed : (s : String) → IsClosed (s ∷ []) (s ∷ [])
  start-IsClosed s a b v q t = ground (arith, v, q)

  pub enough : (s : String) → 1 + pending (s ∷ []) rules ≤ suc (length rules)
  enough s = omega (arith, pending-le_length (s ∷ []) rules)

  pub only_start : (s a : String) → has (s ∷ []) a ≡ true → Reach states rules s a
  only_start s a h = let e : s ≡ a = sym ((eq_iff a s).0 (ground (arith, h))) in rw (← e) start

  -- The search from a state ends within its fuel, and visits exactly the states that the transitions
  -- lead to.
  pub explore-Reach :
      (s : String)
      → (found : List String) × (explore (suc (length rules)) states rules (s ∷ []) (s ∷ [])
          ≡ some found)
        × ((a : String) → (has found a ≡ true) ↔ Reach states rules s a)
  explore-Reach s =
      let (found, e, closed, grown) =
        explore-closes (suc (length rules)) (s ∷ []) (s ∷ []) (enough s) (start-IsClosed s) in
      (
        found,
        e,
        λ a. (
          explore-reached s (suc (length rules)) (s ∷ []) (s ∷ []) found (only_start s)
              (only_start s) e a,
          Reach-in_closed s found closed (grown s (has-first s [])) a,
        ),
      )
