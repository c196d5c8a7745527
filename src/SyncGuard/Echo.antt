-- ===== src/SyncGuard/Echo.antt =====
-- Which webhooks are suppressed.
use Prim.Native.String.{String}
use text.Mathlib.Text.{◌==◌ as str_eq}
use text.Mathlib.TextEquality.{eq_iff}
use cadena.SyncGuard.{
  suppression_window_ms, Marker, Snapshot, Guard, Delivery, marks, prune_expired, set_marker,
  find_marker, shows, find_snapshot, put_snapshot, record_integration_write, self_originated_hash,
  content_noop, external_change, reason_for, evaluate_webhook, clear_volatile_markers, is_noop,
  is_live,
}
use cadena.SyncGuard.Elsewhere.{Reason-cases}
use cadena.Prelude.{
  ℕ, ◌+◌, ◌≤◌, ◌≡◌, ◌≢◌, refl, sym, ◌∙◌, Bool, true, false, List, [], ◌∷◌, ◌&&◌, inl, inr,
  if◌then◌else◌, arith,
}

marks-own :
    (d : Delivery) (h : String) (t : ℕ)
    → marks d h (record {
      org_id = d.org_id;
      node_id = d.node_id;
      actor_id = d.actor_id;
      payload_hash = h;
      expires_at = t;
    })
      ≡ true
marks-own d h t = ground (
  arith,
  eq_iff d.org_id d.org_id,
  eq_iff d.node_id d.node_id,
  eq_iff d.actor_id d.actor_id,
  eq_iff h h,
)

shows-own :
    (d : Delivery) (h p : String)
    → shows d (record { org_id = d.org_id; node_id = d.node_id; payload_hash = h; payload = p })
      ≡ true
shows-own d h p = ground (arith, eq_iff d.org_id d.org_id, eq_iff d.node_id d.node_id)

shows-same :
    (d o : Delivery) (s : Snapshot)
    → o.org_id ≡ d.org_id
    → o.node_id ≡ d.node_id
    → shows o s ≡ shows d s
shows-same d o s h k = rw (h, k) refl

-- What another delivery stores for the same node is seen by this one.
stored-seen :
    (d o : Delivery) (h h' : String) (ss : List Snapshot)
    → o.org_id ≡ d.org_id
    → o.node_id ≡ d.node_id
    → is_noop d h (find_snapshot d (put_snapshot o h' ss))
      ≡ (str_eq h' h && str_eq o.payload d.payload)
unfolding put_snapshot find_snapshot
stored-seen d o h h' [] e n = ground (
  arith,
  shows-own o h' o.payload,
  shows-same d o
      (record { org_id = o.org_id; node_id = o.node_id; payload_hash = h'; payload = o.payload }) e
      n,
)
stored-seen d o h h' (s ∷ ss) e n = ground (
  arith,
  stored-seen d o h h' ss e n,
  shows-same d o s e n,
  shows-same d o (record s { payload_hash = h'; payload = o.payload }) e n,
)

still_live :
    (now t' t : ℕ) (d : Delivery) (h : String) (ms : List Marker)
    → now ≤ t
    → t' ≤ t
    → is_live now (find_marker d h (prune_expired now (prune_expired t' (set_marker d h t ms))))
      ≡ true
unfolding find_marker prune_expired set_marker
still_live now t' t d h ms k l = ground (arith, k, l, marks-own d h t)

module _ (hash_of : String → String) where
  evaluated-reason :
      (now : ℕ) (d : Delivery) (g : Guard)
      → (evaluate_webhook hash_of now d g).1 ≡ reason_for now d (hash_of d.payload) g
  unfolding evaluate_webhook
  evaluated-reason now d g = elim (Reason-cases (reason_for now d (hash_of d.payload) g)) [
    | inl e ↦ rw (evaluate_webhook, e) refl
    | inr (inl e) ↦ rw (evaluate_webhook, e) refl
    | inr (inr e) ↦ rw (evaluate_webhook, e) refl
  ]

  marked-reason :
      (now : ℕ) (d : Delivery) (g : Guard)
      → is_live now (find_marker d (hash_of d.payload) (prune_expired now g.recent_writes)) ≡ true
      → reason_for now d (hash_of d.payload) g ≡ self_originated_hash
  unfolding reason_for
  marked-reason now d g h = rw (h) refl

  written-recent_writes :
      (t : ℕ) (d : Delivery) (g : Guard)
      → (record_integration_write hash_of t d g).recent_writes
        ≡ set_marker d
            (hash_of d.payload)
            (t + suppression_window_ms)
            (prune_expired t g.recent_writes)
  unfolding record_integration_write
  written-recent_writes t d g = refl

  unmarked-reason :
      (now : ℕ) (d : Delivery) (g : Guard) (b : Bool)
      → is_noop d (hash_of d.payload) (find_snapshot d g.snapshots) ≡ b
      → reason_for now d (hash_of d.payload) (clear_volatile_markers g)
        ≡ (if b then content_noop else external_change)
  unfolding reason_for prune_expired find_marker
  unmarked-reason now d g b h = rw (h) refl

  noop-not_external :
      (now : ℕ) (d : Delivery) (g : Guard)
      → is_noop d (hash_of d.payload) (find_snapshot d g.snapshots) ≡ true
      → reason_for now d (hash_of d.payload) g ≢ external_change
  unfolding reason_for
  noop-not_external now d g h e = ground (arith, h, e)

  accepted-state :
      (now : ℕ) (d : Delivery) (g : Guard)
      → (evaluate_webhook hash_of now d g).1 ≡ external_change
      → ((evaluate_webhook hash_of now d g).0.recent_writes ≡ prune_expired now g.recent_writes)
        × ((evaluate_webhook hash_of now d g).0.snapshots
            ≡ put_snapshot d (hash_of d.payload) g.snapshots)
  unfolding evaluate_webhook
  accepted-state now d g h =
      let e : reason_for now d (hash_of d.payload) g ≡ external_change =
        sym (evaluated-reason now d g) ∙ h in
      rw (evaluate_webhook, e) (refl, refl)

  restarted :
      (now : ℕ) (d : Delivery) (g : Guard) (b : Bool)
      → is_noop d (hash_of d.payload) (find_snapshot d g.snapshots) ≡ b
      → (evaluate_webhook hash_of now d (clear_volatile_markers g)).1
        ≡ (if b then content_noop else external_change)
  restarted now d g b h = evaluated-reason now d _ ∙ unmarked-reason now d g b h

  -- A change that is accepted is accepted once: the same content, from whichever actor and at whatever
  -- time, is suppressed when it is delivered again next, before and after a restart.
  pub evaluate_webhook-again :
      (t now : ℕ) (d : Delivery) (actor : String) (g : Guard)
      → (evaluate_webhook hash_of t d g).1 ≡ external_change
      → let left = (evaluate_webhook hash_of t d g).0 in
        let again = record d { actor_id = actor } in
        ((evaluate_webhook hash_of now again left).1 ≢ external_change)
        × ((evaluate_webhook hash_of now again (clear_volatile_markers left)).1 ≡ content_noop)
  evaluate_webhook-again t now d actor g h =
      let again = record d { actor_id = actor } in
      let left = (evaluate_webhook hash_of t d g).0 in
      let stored = (accepted-state t d g h).1 in
      let same : is_noop again (hash_of d.payload) (find_snapshot again left.snapshots) ≡ true =
        rw (stored) (
          stored-seen again d (hash_of d.payload) (hash_of d.payload) g.snapshots refl refl
          ∙ ground (
            arith,
            eq_iff (hash_of d.payload) (hash_of d.payload),
            eq_iff d.payload d.payload,
          )) in
      (
        λ e. noop-not_external now again left same (sym (evaluated-reason now again left) ∙ e),
        restarted now again left true same,
      )

  -- But the decision does depend on the markers: between a write and its echo, both within the window,
  -- another change to the same node is accepted. With the marker the late echo is suppressed; after
  -- a restart it is accepted as a change.
  pub late_echo_depends :
      (t t' now : ℕ) (d other : Delivery) (g : Guard)
      → t' ≤ t + suppression_window_ms
      → now ≤ t + suppression_window_ms
      → other.org_id ≡ d.org_id
      → other.node_id ≡ d.node_id
      → str_eq other.payload d.payload ≡ false
      → (evaluate_webhook hash_of t' other (record_integration_write hash_of t d g)).1
        ≡ external_change
      → let left = (evaluate_webhook hash_of t' other (record_integration_write hash_of t d g)).0 in
        ((evaluate_webhook hash_of now d left).1 ≡ self_originated_hash)
        × ((evaluate_webhook hash_of now d (clear_volatile_markers left)).1 ≡ external_change)
  late_echo_depends t t' now d other g k l o n p h =
      let written = record_integration_write hash_of t d g in
      let left = (evaluate_webhook hash_of t' other written).0 in
      let (markers, stored) = accepted-state t' other written h in
      let differs : is_noop d (hash_of d.payload) (find_snapshot d left.snapshots) ≡ false =
        rw (stored) (
          stored-seen d other (hash_of d.payload) (hash_of other.payload) written.snapshots o n
          ∙ ground (arith, p)) in
      let live : is_live now
            (find_marker d (hash_of d.payload) (prune_expired now left.recent_writes))
          ≡ true =
        rw (markers, written-recent_writes t d g)
          (still_live now t' (t + suppression_window_ms) d (hash_of d.payload)
            (prune_expired t g.recent_writes) l k) in
      (
        evaluated-reason now d left ∙ marked-reason now d left live,
        restarted now d left false differs,
      )
