-- ===== src/Audit/Once.antt =====
-- modules/audit/audit-integrity.ts: an event has at most one entry.
use cadena.Prelude.{ℕ, zero, suc, ◌≡◌, refl, true, List, arith, ◌⊎◌, ◌⊎◌}
use cadena.Prelude.Text.{Text, text_eq_refl}
use cadena.Audit.{
  Input, Entry, Source, row_of, exists_in, has_event, insert_row, attempt, append_attempts,
  append_audit_integrity_entry, appended, rivals_insert, head_of, next_rivals, later_rivals,
  same_source, inserted, ignored, domain_events, audit_events, Bool,
}
use cadena.Audit.Chain.{exists_in-append}

same_source_refl : (s : Source) → same_source s s ≡ true
same_source_refl domain_events = refl
same_source_refl audit_events = refl

insert_row-recorded :
    (r : Entry) (t : List Entry)
    → ((insert_row r t).0 ≡ inserted) ⊎ ((insert_row r t).0 ≡ ignored)
    → exists_in (has_event r.source r.event_id) (insert_row r t).1 ≡ true
unfolding insert_row
insert_row-recorded r t e = ground (
  arith,
  exists_in-append (has_event r.source r.event_id) t r,
  same_source_refl r.source,
  text_eq_refl r.event_id,
)

module _ (digest : Text → Text) where
  attempt-recorded :
      (rs : List Entry) (i : Input) (t : List Entry)
      → ((attempt digest rs i t).0 ≡ inserted) ⊎ ((attempt digest rs i t).0 ≡ ignored)
      → exists_in (has_event i.source i.event_id) (attempt digest rs i t).1 ≡ true
  unfolding attempt row_of
  attempt-recorded rs i t e =
      insert_row-recorded (row_of digest i (head_of i.org_id t)) (rivals_insert rs t) e

  attempts-recorded :
      (tx : Bool) (left : ℕ) (rivals : List (List Entry)) (i : Input) (t : List Entry)
      → (append_attempts digest tx left rivals i t).0 ≡ appended
      → exists_in (has_event i.source i.event_id) (append_attempts digest tx left rivals i t).1
        ≡ true
  unfolding append_attempts
  attempts-recorded tx zero rivals i t e = ground (arith, attempt-recorded (next_rivals rivals) i t)
  attempts-recorded tx (suc left) rivals i t e = ground (
    arith,
    attempt-recorded (next_rivals rivals) i t,
    attempts-recorded tx left (later_rivals rivals) i (attempt digest (next_rivals rivals) i t).1,
  )

  -- An append that returns has its event in the chain, and to append that event again does nothing,
  -- whichever rivals there are.
  pub append_audit_integrity_entry-again :
      (tx : Bool) (rivals again : List (List Entry)) (i : Input) (t : List Entry)
      → (append_audit_integrity_entry digest tx rivals i t).0 ≡ appended
      → append_audit_integrity_entry digest tx again i
          (append_audit_integrity_entry digest tx rivals i t).1
        ≡ append_audit_integrity_entry digest tx rivals i t
  unfolding append_audit_integrity_entry
  append_audit_integrity_entry-again tx rivals again i t e =
      ground (arith, attempts-recorded tx 7 rivals i t)
