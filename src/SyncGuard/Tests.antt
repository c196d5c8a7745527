-- ===== src/SyncGuard/Tests.antt =====
-- The sync guard at concrete inputs, with the payload as its own digest, and the theorems about it.
use Prim.Native.String.{String}
use cadena.SyncGuard.{
  Guard, Delivery, self_originated_hash, external_change, record_integration_write,
  evaluate_webhook, clear_volatile_markers, reason_for, set_marker, delete_marker, find_marker,
  prune_expired, put_snapshot, find_snapshot,
}
use cadena.SyncGuard.Echo.{late_echo_depends}
use cadena.Prelude.{◌≡◌, refl, [], arith}

abbrev itself : String → String
itself s = s

abbrev untouched : Guard
untouched = record { recent_writes = []; snapshots = []; events = [] }

abbrev ours : Delivery
ours = record { org_id = "acme"; node_id = "n1"; actor_id = "cadena"; payload = "{priority:1}" }

abbrev theirs : Delivery
theirs = record { org_id = "acme"; node_id = "n1"; actor_id = "ann"; payload = "{priority:2}" }

abbrev elsewhere : Delivery
elsewhere = record { org_id = "acme"; node_id = "n2"; actor_id = "ann"; payload = "{priority:3}" }

first_change : (evaluate_webhook itself 2_000 theirs untouched).1 ≡ external_change
unfolding evaluate_webhook reason_for find_marker find_snapshot prune_expired
first_change = refl

change_between :
    (evaluate_webhook itself 2_000 theirs (record_integration_write itself 1_000 ours untouched)).1
    ≡ external_change
unfolding evaluate_webhook reason_for find_marker find_snapshot prune_expired
    record_integration_write set_marker delete_marker put_snapshot
change_between = refl

late_echo_depends_example :
    let left =
      (evaluate_webhook itself 2_000 theirs
        (record_integration_write itself 1_000 ours untouched)).0 in
    ((evaluate_webhook itself 3_000 ours left).1 ≡ self_originated_hash)
    × ((evaluate_webhook itself 3_000 ours (clear_volatile_markers left)).1 ≡ external_change)
late_echo_depends_example =
    late_echo_depends itself 1_000 2_000 3_000 ours theirs untouched (omega arith) (omega arith)
      refl refl refl change_between
