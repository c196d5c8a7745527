-- ===== src/Events/Tests.antt =====
-- Deliveries at concrete inputs, and the theorems about them.
use Prim.Native.String.{String}
use cadena.Prelude.{
  length, ◌≤◌, zero, ℕ, suc, ◌≡◌, ◌⊎◌, refl, true, false, Option, none, some, [], ◌∷◌, arith, List,
}
use cadena.Events.Envelope.{
  Envelope, object, field, empty, string, null, user, org_id_from_payload, resolve_event_org_id,
}
use cadena.Events.Registry.{
  Store, Consumer, Dispatched, success, dead_lettered, skipped_duplicate, run_consumer, claim,
  DeadLetter, dead, status_of, may_claim, attempts_from, put, deliver, settle, consumer_named,
  dead_letter, put_dead, Consumption, processed,
}
use cadena.Events.DeadLetters.{replay, replay_result, depth, Filter, get_entry}
use cadena.Events.Claims.{claims, starts, processes, wins, claim-exclusive}
use cadena.Events.Delivery.{Ends, Recorded, attempts_from-Ends, run_consumer-Recorded}
use cadena.Events.Outbox.{
  OutboxEventInput, Tables, pending, pending_events, recover_pending, find_event,
}
use cadena.Events.Recovery.{IsStored, awaits, has_row, recover_pending-drains}
use cadena.Events.Replay.{ReplayEnds, replay-ends}

abbrev created : Envelope
created = record {
  event_id = "e1";
  event_type = "WorkItemCreated";
  schema_version = 1;
  timestamp = 5;
  actor = record { kind = user; id = "u1" };
  work_item_id = "w1";
  payload = object (field "work_item" (object (field "org_id" (string "acme") empty)) empty);
}

-- The consumers' state counts the calls. The first consumer throws on its first call only.
abbrev flaky : Consumer ℕ
flaky = record {
  name = "flaky";
  handle = λ n e. (suc n, elim n [ zero ↦ some "timeout" | suc m ↦ none ]);
  max_attempts = none;
}

abbrev broken : Consumer ℕ
broken = record {
  name = "broken";
  handle = λ n e. (suc n, some "bad payload");
  max_attempts = some 2;
}

abbrev nothing : Store
nothing = record { consumptions = []; dead_letters = []; alerts = [] }

abbrev nowhere : String → Option String
nowhere id = none

tenant_of_created : org_id_from_payload created ≡ some "acme"
unfolding org_id_from_payload
tenant_of_created = refl

flaky-second_attempt :
    let r = run_consumer nowhere 7 flaky created false (0, nothing) in
    (r.1 ≡ success 2) × (r.0.0 ≡ 2)
unfolding run_consumer claim deliver attempts_from status_of put settle
flaky-second_attempt = (refl, refl)

broken-dead_letter :
    let r = run_consumer nowhere 7 broken created false (0, nothing) in
    (r.1 ≡ dead_lettered 2 "bad payload") × (depth "acme" r.0.1.dead_letters ≡ 1)
unfolding run_consumer claim deliver attempts_from status_of put settle depth resolve_event_org_id
    dead_letter put_dead org_id_from_payload
broken-dead_letter = (refl, refl)

claim_new : (claim "flaky" "e1" false []).1 ≡ true
unfolding claim status_of
claim_new = refl

abbrev done : List Consumption
done = record { consumer = "flaky"; event_id = "e1"; status = processed; attempts = 1 } ∷ []

claim-exclusive_example :
    (wins "flaky" "e1"
        (claims "flaky" "e1" false ∷ processes "flaky" "e1" 1 ∷ claims "flaky" "e1" false ∷ [])
        (claim "flaky" "e1" false []).0
      ≡ 0)
    × (wins "flaky" "e1" (starts ∷ claims "flaky" "e1" false ∷ []) done ≡ 0)
unfolding status_of
claim-exclusive_example =
    claim-exclusive "flaky" "e1" false [] done
      (claims "flaky" "e1" false ∷ processes "flaky" "e1" 1 ∷ claims "flaky" "e1" false ∷ [])
      (starts ∷ claims "flaky" "e1" false ∷ []) claim_new (refl, (refl, (refl, tt))) refl
      (refl, (refl, tt))

attempts_from-Ends_example :
    Ends flaky.handle created 0 3 1 (attempts_from flaky.handle created 3 1 "" 0)
attempts_from-Ends_example = attempts_from-Ends flaky.handle created 3 1 "" 0

run_consumer-Recorded_example :
    let r = run_consumer nowhere 7 broken created false (0, nothing) in
    let may = may_claim false (status_of "broken" "e1" []) in
    ((may ≡ false) × (r ≡ ((0, nothing), skipped_duplicate)))
    ⊎ ((may ≡ true) × Recorded "broken" "e1" 2 r.0.1 r.1)
run_consumer-Recorded_example = run_consumer-Recorded nowhere broken created 7 false 0 nothing

abbrev waiting : DeadLetter
waiting = record {
  id = 7;
  consumer = "broken";
  event_id = "e1";
  org_id = some "acme";
  event_type = "WorkItemCreated";
  envelope = created;
  attempts = 2;
  last_error = some "bad payload";
  status = dead;
}

abbrev one_dead : Store
one_dead = record nothing { dead_letters = waiting ∷ [] }

waiting_found : get_entry 7 "acme" (waiting ∷ []) ≡ some waiting
unfolding get_entry
waiting_found = refl

broken_registered : consumer_named "broken" (flaky ∷ broken ∷ []) ≡ some broken
unfolding consumer_named
broken_registered = refl

replay-ends_example :
    let r = replay nowhere 8 7 "acme" (flaky ∷ broken ∷ []) none (0, one_dead) in
    (entry : DeadLetter) × (o : Dispatched) × (r.1 ≡ replay_result (some entry) o)
    × ReplayEnds entry "broken" "e1" 2 r.0.1.consumptions o
replay-ends_example =
    replay-ends nowhere 8 7 "acme" (flaky ∷ broken ∷ []) broken waiting none 0 one_dead
      waiting_found refl broken_registered refl

abbrev everything : Filter
everything = record { consumer = none; status = none; limit = 0 }

abbrev closing : OutboxEventInput
closing = record {
  event_type = "WorkItemStateChanged";
  work_item_id = "w1";
  org_id = "acme";
  actor = record { kind = user; id = "u1" };
  payload = null;
  schema_version = none;
  event_id = some "e2";
  timestamp = none;
}

abbrev committed : Tables
committed = record {
  domain_events = ("acme", created) ∷ [];
  event_outbox = record { event_id = "e1"; status = pending; attempts = 0; last_error = none } ∷ [];
}

committed-IsStored : IsStored committed
unfolding find_event
committed-IsStored = (refl, tt)

new_id : has_row "e2" committed.event_outbox ≡ false
unfolding has_row
new_id = refl

abbrev counting : Envelope → ℕ → ℕ × Option String
counting e n = (suc n, none)

one_waits : length (pending_events committed.event_outbox committed.domain_events) ≤ 10
unfolding pending_events find_event
one_waits = omega arith

recover_pending-drains_example :
    (awaits "e1" (recover_pending counting 10 (0, committed)).0.1.event_outbox ≡ false)
    × ((recover_pending counting 10 (0, committed)).1
        ≡ length (pending_events committed.event_outbox committed.domain_events))
recover_pending-drains_example =
    recover_pending-drains counting (λ e w. refl) 10 0 committed "e1" committed-IsStored one_waits
