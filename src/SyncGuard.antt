-- ===== src/SyncGuard.antt =====
-- modules/integrations/sync-guard.service.ts: suppression of a connector's own writes when they come back
-- as webhooks. A payload is its canonical text, as `stableStringify` gives it; the SHA-256 digest of
-- the library is an argument; the correlation node of an identity has been found, and the texts
-- have been normalised. A call reads the clock once.
pub mod Elsewhere
pub mod Echo
mod Tests
use Prim.Native.String.{String}
use text.Mathlib.Text.{◌==◌ as str_eq}
use cadena.Prelude.{
  ℕ, ◌+◌, Bool, true, false, Option, none, some, List, [], ◌∷◌, ◌&&◌, not, leb, ltb, if◌then◌else◌,
}

abbrev pub suppression_window_ms : ℕ
suppression_window_ms = 900_000

-- The key of `recentWrites`, and what it maps to.
pub record Marker : Type 0 where
  pub org_id : String
  pub node_id : String
  pub actor_id : String
  pub payload_hash : String
  pub expires_at : ℕ

-- A row of `integration_sync_snapshots`.
pub record Snapshot : Type 0 where
  pub org_id : String
  pub node_id : String
  pub payload_hash : String
  pub payload : String

pub data Event : Type 0 where
  write_recorded echo_suppressed change_accepted : (node_id payload_hash : String) → Event

pub record Guard : Type 0 where
  pub recent_writes : List Marker
  pub snapshots : List Snapshot
  pub events : List Event

-- One delivery, of a write or of a webhook.
pub record Delivery : Type 0 where
  pub org_id : String
  pub node_id : String
  pub actor_id : String
  pub payload : String

abbrev pub marks : Delivery → (hash : String) → Marker → Bool
marks d h m =
    str_eq d.org_id m.org_id
    && (str_eq d.node_id m.node_id && (str_eq d.actor_id m.actor_id && str_eq h m.payload_hash))

unfoldable pub prune_expired : (now : ℕ) → List Marker → List Marker
prune_expired now [] = []
prune_expired now (m ∷ ms) =
    if ltb m.expires_at now then prune_expired now ms else m ∷ prune_expired now ms

unfoldable pub delete_marker : Delivery → (hash : String) → List Marker → List Marker
delete_marker d h [] = []
delete_marker d h (m ∷ ms) = if marks d h m then delete_marker d h ms else m ∷ delete_marker d h ms

-- `set`: the key's old entry goes.
unfoldable pub set_marker :
    Delivery → (hash : String) → (expires_at : ℕ) → List Marker → List Marker
unfolding delete_marker
set_marker d h t ms =
    record {
      org_id = d.org_id;
      node_id = d.node_id;
      actor_id = d.actor_id;
      payload_hash = h;
      expires_at = t;
    }
    ∷ delete_marker d h ms

unfoldable pub find_marker : Delivery → (hash : String) → List Marker → Option Marker
find_marker d h [] = none
find_marker d h (m ∷ ms) = if marks d h m then some m else find_marker d h ms

abbrev pub shows : Delivery → Snapshot → Bool
shows d s = str_eq d.org_id s.org_id && str_eq d.node_id s.node_id

unfoldable pub find_snapshot : Delivery → List Snapshot → Option Snapshot
find_snapshot d [] = none
find_snapshot d (s ∷ ss) = if shows d s then some s else find_snapshot d ss

-- `INSERT ... ON CONFLICT (org_id, node_id) DO UPDATE`
unfoldable pub put_snapshot : Delivery → (hash : String) → List Snapshot → List Snapshot
put_snapshot d h [] =
    record { org_id = d.org_id; node_id = d.node_id; payload_hash = h; payload = d.payload } ∷ []
put_snapshot d h (s ∷ ss) =
    if shows d s
    then record s { payload_hash = h; payload = d.payload } ∷ ss
    else s ∷ put_snapshot d h ss

unfoldable pub record_integration_write :
    (hash_of : String → String) → (now : ℕ) → Delivery → Guard → Guard
record_integration_write hash_of now d g =
    let h = hash_of d.payload in
    record {
      recent_writes =
          set_marker d h (now + suppression_window_ms) (prune_expired now g.recent_writes);
      snapshots = put_snapshot d h g.snapshots;
      events = write_recorded d.node_id h ∷ g.events;
    }

pub data Reason : Type 0 where
  self_originated_hash content_noop external_change : Reason

abbrev pub is_live : (now : ℕ) → Option Marker → Bool
is_live now none = false
is_live now (some m) = leb now m.expires_at

abbrev pub is_noop : Delivery → (hash : String) → Option Snapshot → Bool
is_noop d h none = false
is_noop d h (some s) = str_eq s.payload_hash h && str_eq s.payload d.payload

unfoldable pub reason_for : (now : ℕ) → Delivery → (hash : String) → Guard → Reason
reason_for now d h g =
    if is_live now (find_marker d h (prune_expired now g.recent_writes))
    then self_originated_hash
    else if is_noop d h (find_snapshot d g.snapshots)
    then content_noop
    else external_change

unfoldable pub evaluate_webhook :
    (hash_of : String → String) → (now : ℕ) → Delivery → Guard → Guard × Reason
evaluate_webhook hash_of now d g =
    let h = hash_of d.payload in
    let left = prune_expired now g.recent_writes in
    elim (reason_for now d h g) [
      | self_originated_hash ↦ (
        record g {
          recent_writes = delete_marker d h left;
          events = echo_suppressed d.node_id h ∷ g.events;
        },
        self_originated_hash,
      )
      | content_noop ↦ (
        record g { recent_writes = left; events = echo_suppressed d.node_id h ∷ g.events },
        content_noop,
      )
      | external_change ↦ (
        record g {
          recent_writes = left;
          snapshots = put_snapshot d h g.snapshots;
          events = change_accepted d.node_id h ∷ g.events;
        },
        external_change,
      )
    ]

-- A restart of the process.
abbrev pub clear_volatile_markers : Guard → Guard
clear_volatile_markers g = record g { recent_writes = [] }
