-- ===== src/Intake/Tests.antt =====
-- modules/integrations/inbound-webhook-queue.service.ts: deliveries at concrete inputs.
use cadena.Prelude.{◌≡◌, refl, true, none, some, List, [], ◌∷◌}
use cadena.Intake.{
  Delivery, EnqueueInput, Tables, git, enqueue, find_delivery, find_by_id, new_delivery, throws,
  completes_and_throws, succeeds, process_event, complete, Handling,
}
use cadena.Intake.Once.{Op, claims, finishes, starts, enqueues, apply_all, enqueue-again}
use cadena.Intake.Attempts.{attempt_all, HasEnded, attempt_all-HasEnded}
use cadena.Intake.Final.{IsCompleted, process_event-again}

abbrev push : EnqueueInput
push = record {
  kind = git;
  org_id = "acme";
  provider = "github";
  delivery_id = "d-1";
  event_type = "push";
  body = "{}";
}

abbrev empty_tables : Tables
empty_tables = record { deliveries = []; events = [] }

abbrev worked_off : List Op
worked_off = claims 5 "r-1" ∷ finishes 9 "r-1" "ok" ∷ starts ∷ []

enqueue-again_example :
    let later = apply_all worked_off (enqueue "r-1" push empty_tables).1 in
    (r : Delivery) × (find_delivery "acme" "github" "d-1" later.deliveries ≡ some r)
    × (r.id ≡ "r-1")
    × (enqueue "r-2" (record push { body = "[]" }) later
        ≡ (record { duplicate = true; status = r.status }, later))
unfolding enqueue find_delivery
enqueue-again_example = enqueue-again "r-1" "r-2" "[]" push empty_tables worked_off refl

-- The result is stored, the publication of it throws, and the delivery is handled again.
abbrev handlings : List Handling
handlings = completes_and_throws "first" "bus down" ∷ throws "again" ∷ succeeds "second" ∷ []

attempt_all-HasEnded_example :
    HasEnded "r-1" handlings
      (new_delivery "r-1" push)
      (attempt_all 7 "r-1" none handlings (new_delivery "r-1" push ∷ []))
unfolding find_by_id
attempt_all-HasEnded_example =
    attempt_all-HasEnded 7 "r-1" none (completes_and_throws "first" "bus down")
      (throws "again" ∷ succeeds "second" ∷ []) (new_delivery "r-1" push ∷ [])
      (new_delivery "r-1" push) refl refl refl refl

abbrev one_done : Tables
one_done = record { deliveries = complete 9 "ok" (new_delivery "r-1" push) ∷ []; events = [] }

abbrev later_statements : List Op
later_statements = starts ∷ claims 20 "r-1" ∷ enqueues "r-2" push ∷ []

process_event-again_example :
    IsCompleted "r-1" (apply_all later_statements one_done).deliveries
    × (process_event 30 "r-1" none (throws "late") (apply_all later_statements one_done).deliveries
        ≡ (none, (apply_all later_statements one_done).deliveries))
unfolding find_by_id
process_event-again_example =
    process_event-again 30 "r-1" none (throws "late") later_statements one_done refl
      (complete 9 "ok" (new_delivery "r-1" push), refl, refl) (refl, (refl, (refl, tt)))
