-- ===== src/SyncGuard/Elsewhere.antt =====
-- modules/integrations/sync-guard.service.ts: calls about other nodes, and what they leave of one node.
use Prim.Native.String.{String}
use text.Mathlib.Text.{◌==◌ as str_eq}
use text.Mathlib.TextEquality.{eq_iff}
use cadena.SyncGuard.{
  suppression_window_ms, Marker, Snapshot, Guard, Delivery, marks, prune_expired, set_marker,
  delete_marker, find_marker, find_snapshot, put_snapshot, record_integration_write, Reason,
  self_originated_hash, content_noop, external_change, reason_for, evaluate_webhook,
  clear_volatile_markers,
}
use cadena.Prelude.{
  ℕ, ◌+◌, ◌≤◌, ◌≡◌, ◌⊎◌, refl, ◌∙◌, ap, Bool, true, false, Bool-cases, none, some, List, [], ◌∷◌,
  ◌&&◌, inl, inr, arith, ltb, leb, not, All,
}

-- A call of the guard, or a restart of the process.
pub data Call : Type 0 where
  writes webhooks : (now : ℕ) → Delivery → Call
  restarts : Call

-- About another node, or a node of another tenant.
abbrev pub is_other : (d o : Delivery) → Bool
is_other d o = not (str_eq d.org_id o.org_id && str_eq d.node_id o.node_id)

-- A call about another node, not later than `latest`.
abbrev pub is_elsewhere : (d : Delivery) → (latest : ℕ) → Call → Bool
is_elsewhere d latest (writes now o) = is_other d o && leb now latest
is_elsewhere d latest (webhooks now o) = is_other d o && leb now latest
is_elsewhere d latest restarts = false

-- A call about another node, or a restart.
abbrev pub is_unrelated : (d : Delivery) → Call → Bool
is_unrelated d (writes now o) = is_other d o
is_unrelated d (webhooks now o) = is_other d o
is_unrelated d restarts = true

pub find_marker-prune :
    (d : Delivery) (h : String) (now : ℕ) (m : Marker) (ms : List Marker)
    → find_marker d h ms ≡ some m
    → now ≤ m.expires_at
    → find_marker d h (prune_expired now ms) ≡ some m
unfolding find_marker prune_expired
find_marker-prune d h now m [] e k = cc
find_marker-prune d h now m (x ∷ ms) e k = elim (Bool-cases (marks d h x)) [
  | inl y ↦
      let same : x ≡ m = ground (arith, y, e) in
      let lives : ltb x.expires_at now ≡ false =
        ap (λ q. ltb q.expires_at now) same ∙ ground (arith, k) in
      rw (lives, y) (ap some same)
  | inr n ↦ ground (arith, find_marker-prune d h now m ms, e, k, n)
]

pub find_marker-prune_none :
    (d : Delivery) (h : String) (now : ℕ) (ms : List Marker)
    → find_marker d h ms ≡ none
    → find_marker d h (prune_expired now ms) ≡ none
unfolding find_marker prune_expired
find_marker-prune_none d h now [] e = refl
find_marker-prune_none d h now (x ∷ ms) e = ground (arith, find_marker-prune_none d h now ms, e)

-- No marker is of two nodes.
marks-other :
    (d o : Delivery) (h k : String) (m : Marker)
    → is_other d o ≡ true
    → marks d h m ≡ true
    → marks o k m ≡ false
marks-other d o h k m n y = ground (
  arith,
  eq_iff d.org_id m.org_id,
  eq_iff o.org_id m.org_id,
  eq_iff d.org_id o.org_id,
  eq_iff d.node_id m.node_id,
  eq_iff o.node_id m.node_id,
  eq_iff d.node_id o.node_id,
  n,
  y,
)

find_marker-delete_other :
    (d o : Delivery) (h k : String) (ms : List Marker)
    → is_other d o ≡ true
    → find_marker d h (delete_marker o k ms) ≡ find_marker d h ms
unfolding find_marker delete_marker
find_marker-delete_other d o h k [] n = refl
find_marker-delete_other d o h k (x ∷ ms) n = elim (Bool-cases (marks d h x)) [
  | inl y ↦ rw (marks-other d o h k x n y, y) refl
  | inr z ↦ ground (arith, find_marker-delete_other d o h k ms n, z)
]

find_marker-set_other :
    (d o : Delivery) (h k : String) (t : ℕ) (ms : List Marker)
    → is_other d o ≡ true
    → find_marker d h (set_marker o k t ms) ≡ find_marker d h ms
unfolding find_marker set_marker
find_marker-set_other d o h k t ms n =
    let apart : (str_eq d.org_id o.org_id && str_eq d.node_id o.node_id) ≡ false =
      ground (arith, n) in
    ground (arith, apart, find_marker-delete_other d o h k ms n)

find_snapshot-put_other :
    (d o : Delivery) (h : String) (ss : List Snapshot)
    → is_other d o ≡ true
    → find_snapshot d (put_snapshot o h ss) ≡ find_snapshot d ss
unfolding find_snapshot put_snapshot
find_snapshot-put_other d o h [] n = ground (arith, n)
find_snapshot-put_other d o h (s ∷ ss) n = ground (
  arith,
  find_snapshot-put_other d o h ss n,
  eq_iff d.org_id s.org_id,
  eq_iff o.org_id s.org_id,
  eq_iff d.org_id o.org_id,
  eq_iff d.node_id s.node_id,
  eq_iff o.node_id s.node_id,
  eq_iff d.node_id o.node_id,
  n,
)

pub Reason-cases :
    (r : Reason) → (r ≡ self_originated_hash) ⊎ ((r ≡ content_noop) ⊎ (r ≡ external_change))
Reason-cases self_originated_hash = inl refl
Reason-cases content_noop = inr (inl refl)
Reason-cases external_change = inr (inr refl)

module _ (hash_of : String → String) where
  unfoldable pub run_call : Call → Guard → Guard
  run_call (writes now o) g = record_integration_write hash_of now o g
  run_call (webhooks now o) g = (evaluate_webhook hash_of now o g).0
  run_call restarts g = clear_volatile_markers g

  abbrev pub run_calls : List Call → Guard → Guard
  run_calls [] g = g
  run_calls (c ∷ cs) g = run_calls cs (run_call c g)

  -- What a webhook about another node leaves.
  webhook-leaves :
      (now : ℕ) (d o : Delivery) (h : String) (g : Guard)
      → is_other d o ≡ true
      → let left = (evaluate_webhook hash_of now o g).0 in
        (find_marker d h left.recent_writes ≡ find_marker d h (prune_expired now g.recent_writes))
        × (find_snapshot d left.snapshots ≡ find_snapshot d g.snapshots)
  unfolding evaluate_webhook
  webhook-leaves now d o h g n = elim (Reason-cases (reason_for now o (hash_of o.payload) g)) [
    | inl e ↦
        rw (evaluate_webhook, e)
          (
            find_marker-delete_other d o h (hash_of o.payload) (prune_expired now g.recent_writes)
                n,
            refl,
          )
    | inr (inl e) ↦ rw (evaluate_webhook, e) (refl, refl)
    | inr (inr e) ↦
        rw (evaluate_webhook, e)
          (refl, find_snapshot-put_other d o (hash_of o.payload) g.snapshots n)
  ]

  write-leaves :
      (now : ℕ) (d o : Delivery) (h : String) (g : Guard)
      → is_other d o ≡ true
      → let left = record_integration_write hash_of now o g in
        (find_marker d h left.recent_writes ≡ find_marker d h (prune_expired now g.recent_writes))
        × (find_snapshot d left.snapshots ≡ find_snapshot d g.snapshots)
  unfolding record_integration_write
  write-leaves now d o h g n = (
    find_marker-set_other d o h (hash_of o.payload) (now + suppression_window_ms)
        (prune_expired now g.recent_writes) n,
    find_snapshot-put_other d o (hash_of o.payload) g.snapshots n,
  )

  -- A marker that lives until `latest` is there after calls elsewhere.
  pub marker-stays :
      (latest : ℕ) (d : Delivery) (h : String) (m : Marker) (cs : List Call) (g : Guard)
      → All (λ c. is_elsewhere d latest c ≡ true) cs
      → latest ≤ m.expires_at
      → find_marker d h g.recent_writes ≡ some m
      → find_marker d h (run_calls cs g).recent_writes ≡ some m
  unfolding run_call
  marker-stays latest d h m [] g a k e = e
  marker-stays latest d h m (writes now o ∷ cs) g (s, a) k e =
      marker-stays latest d h m cs (run_call (writes now o) g) a k (
        (write-leaves now d o h g (ground (arith, s))).0
        ∙ find_marker-prune d h now m g.recent_writes e (ground (arith, s, k)))
  marker-stays latest d h m (webhooks now o ∷ cs) g (s, a) k e =
      marker-stays latest d h m cs (run_call (webhooks now o) g) a k (
        (webhook-leaves now d o h g (ground (arith, s))).0
        ∙ find_marker-prune d h now m g.recent_writes e (ground (arith, s, k)))
  marker-stays latest d h m (restarts ∷ cs) g (s, a) k e = cc

  -- The snapshot of a node is there after calls elsewhere and restarts, and no marker of it appears.
  pub snapshot-stays :
      (d : Delivery) (h : String) (cs : List Call) (g : Guard)
      → All (λ c. is_unrelated d c ≡ true) cs
      → find_marker d h g.recent_writes ≡ none
      → (find_marker d h (run_calls cs g).recent_writes ≡ none)
        × (find_snapshot d (run_calls cs g).snapshots ≡ find_snapshot d g.snapshots)
  unfolding run_call find_marker
  snapshot-stays d h [] g a e = (e, refl)
  snapshot-stays d h (writes now o ∷ cs) g (s, a) e =
      let (marker, snapshot) = write-leaves now d o h g s in
      let (none_left, same) =
        snapshot-stays d h cs (run_call (writes now o) g) a
          (marker ∙ find_marker-prune_none d h now g.recent_writes e) in
      (none_left, same ∙ snapshot)
  snapshot-stays d h (webhooks now o ∷ cs) g (s, a) e =
      let (marker, snapshot) = webhook-leaves now d o h g s in
      let (none_left, same) =
        snapshot-stays d h cs (run_call (webhooks now o) g) a
          (marker ∙ find_marker-prune_none d h now g.recent_writes e) in
      (none_left, same ∙ snapshot)
  snapshot-stays d h (restarts ∷ cs) g (s, a) e =
      snapshot-stays d h cs (clear_volatile_markers g) a refl
