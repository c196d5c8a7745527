-- ===== src/Audit/Tests.antt =====
-- modules/audit/audit-integrity.ts: runs at concrete inputs, with a digest that writes numbers in unary.
use cadena.Prelude.{
  ℕ, zero, suc, ◌≡◌, refl, true, Option, none, some, List, [], ◌∷◌, inl, inr, arith, ◌≢◌, sym,
  if◌then◌else◌,
}
use cadena.Prelude.Text.{join, Text, codes, text_eq, text_lt}
use cadena.Audit.{
  Input, Entry, Source, domain_events, audit_events, row_of, verify_tenant_audit_chain, head_of,
  append_audit_integrity_entry, appended, insert_row, of_tenant, chain_error, rivals_insert,
  exists_in, calculate_audit_hash, canonical_audit_event, chain_taken, verify_rows, append_attempts,
  verify_row, attempt, false,
}
use cadena.Audit.Canonical.{
  object, field, empty, number, null, stable_stringify, insert_member, bool, written, quote, escape,
}
use cadena.Audit.Canonical.Order.{objects, swaps, stable_stringify-Same}
use cadena.Audit.Chain.{World, Reachable, start, next, reads, inserts, Reachable-verifies}
use cadena.Audit.Head.{IsHex, texts, verify_tenant_audit_chain-commits}
use cadena.Audit.Retry.{append_audit_integrity_entry-enough, after_rivals}

bar : ℕ → Text → Text
bar zero t = b'0' ∷ t
bar (suc n) t = b'a' ∷ bar n t

unary : Text → Text
unfolding bar
unary [] = []
unary (c ∷ t) = bar c (unary t)

bar-IsHex : (n : ℕ) (t : Text) → IsHex t → IsHex (bar n t)
unfolding bar
bar-IsHex zero t h = (refl, h)
bar-IsHex (suc n) t h = (refl, bar-IsHex n t h)

unary-IsHex : (t : Text) → IsHex (unary t)
unfolding unary
unary-IsHex [] = tt
unary-IsHex (c ∷ t) = bar-IsHex c (unary t) (unary-IsHex t)

bar_injective : (n m : ℕ) (s t : Text) → bar n s ≡ bar m t → (n ≡ m) × (s ≡ t)
unfolding bar
bar_injective zero zero s t e = (refl, cc)
bar_injective zero (suc m) s t e = ground arith
bar_injective (suc n) zero s t e = ground arith
bar_injective (suc n) (suc m) s t e =
    let (p, q) = bar_injective n m s t (ground arith) in (rw p refl, q)

bar-not_empty : (n : ℕ) (t : Text) → bar n t ≢ []
unfolding bar
bar-not_empty zero t e = cc
bar-not_empty (suc n) t e = cc

unary_injective : (s t : Text) → unary s ≡ unary t → s ≡ t
unfolding unary
unary_injective [] [] e = refl
unary_injective [] (d ∷ t) e = absurd (bar-not_empty d (unary t) (sym e))
unary_injective (c ∷ s) [] e = absurd (bar-not_empty c (unary s) e)
unary_injective (c ∷ s) (d ∷ t) e =
    let (p, q) = bar_injective c d (unary s) (unary t) e in rw (p, unary_injective s t q) refl

abbrev created : Input
created = record {
  source = domain_events;
  event_id = codes "e-1";
  org_id = codes "acme";
  work_item_id = some (codes "w-1");
  event_type = codes "WorkItemCreated";
  actor_type = codes "user";
  actor_id = codes "ana";
  payload = object (field (codes "b") (number (codes "2")) (field (codes "a") null empty));
  occurred_at = codes "2026-01-05T09:00:00.000Z";
}

abbrev other_tenant : Input
other_tenant = record created { event_id = codes "e-2"; org_id = codes "globex" }

abbrev moved : Input
moved = record created { event_id = codes "e-3"; event_type = codes "WorkItemMoved" }

abbrev event_store : Source → Text → Option Input
event_store domain_events e =
    if text_eq e (codes "e-1")
    then some created
    else if text_eq e (codes "e-2")
    then some other_tenant
    else if text_eq e (codes "e-3")
    then some moved
    else none
event_store audit_events e = none

-- Two writers of one tenant and one of another read before any of them inserts.
read_before :
    Reachable unary event_store
      (record { table = []; readers = (other_tenant, none) ∷ (moved, none) ∷ (created, none) ∷ [] })
unfolding text_eq head_of
read_before =
    next (next (next start (reads created refl)) (reads moved refl)) (reads other_tenant refl)

abbrev one_entry : List Entry
one_entry = (insert_row (row_of unary created none) []).1

abbrev two_writes : List Entry
two_writes = (insert_row (row_of unary moved none) one_entry).1

abbrev three_writes : List Entry
three_writes = (insert_row (row_of unary other_tenant none) two_writes).1

abbrev raced : World
raced = record {
  table = three_writes;
  readers = (other_tenant, none) ∷ (moved, none) ∷ (created, none) ∷ [];
}

raced-Reachable : Reachable unary event_store raced
raced-Reachable =
    next
      (next (next read_before (inserts created none (inr (inr (inl (refl, refl))))))
        (inserts moved none (inr (inl (refl, refl)))))
      (inserts other_tenant none (inl (refl, refl)))

lost_the_race : (insert_row (row_of unary moved none) one_entry).0 ≡ chain_taken
unfolding insert_row row_of exists_in text_eq calculate_audit_hash unary bar canonical_audit_event
    stable_stringify insert_member written join quote escape text_lt
lost_the_race = refl

Reachable-verifies_example :
    ((verify_tenant_audit_chain unary event_store (codes "acme") three_writes).chain_verified
      ≡ true)
    × ((verify_tenant_audit_chain unary event_store (codes "acme") three_writes).chain_head
        ≡ head_of (codes "acme") three_writes)
Reachable-verifies_example =
    Reachable-verifies unary event_store (codes "acme") raced raced-Reachable

stable_stringify-Same_example :
    stable_stringify (object (field (codes "b") (bool true) (field (codes "a") null empty)))
    ≡ stable_stringify (object (field (codes "a") null (field (codes "b") (bool true) empty)))
stable_stringify-Same_example = stable_stringify-Same _ _ (objects (swaps (λ e. ground arith)))

sorted_text :
    stable_stringify (object (field (codes "b") (bool true) (field (codes "a") null empty)))
    ≡ codes "{\"a\":null,\"b\":true}"
unfolding stable_stringify insert_member written join quote escape text_lt
sorted_text = refl

-- The other tenant's entry leaves the chain as it is.
two_writes-Reachable : Reachable unary event_store (record {
  table = two_writes;
  readers = (other_tenant, none) ∷ (moved, none) ∷ (created, none) ∷ [];
})
two_writes-Reachable =
    next (next read_before (inserts created none (inr (inr (inl (refl, refl))))))
      (inserts moved none (inr (inl (refl, refl))))

heads_agree :
    (verify_tenant_audit_chain unary event_store (codes "acme") two_writes).chain_head
    ≡ (verify_tenant_audit_chain unary event_store (codes "acme") three_writes).chain_head
unfolding insert_row row_of exists_in text_eq calculate_audit_hash unary bar canonical_audit_event
    stable_stringify insert_member written join quote escape text_lt verify_tenant_audit_chain
    verify_rows verify_row
heads_agree = refl

verify_tenant_audit_chain-commits_example :
    texts (of_tenant (codes "acme") two_writes) ≡ texts (of_tenant (codes "acme") three_writes)
verify_tenant_audit_chain-commits_example =
    verify_tenant_audit_chain-commits unary unary-IsHex unary_injective event_store event_store
      (codes "acme") (codes "acme") two_writes three_writes
      (Reachable-verifies unary event_store (codes "acme") _ two_writes-Reachable).0
      (Reachable-verifies unary event_store (codes "acme") raced raced-Reachable).0 heads_agree

-- A rival inserts an entry after the first read.
abbrev one_rival : List (List Entry)
one_rival = (row_of unary created none ∷ []) ∷ []

rival_verified :
    verify_rows unary event_store (of_tenant (codes "acme") (after_rivals one_rival []))
    ≡ (head_of (codes "acme") (after_rivals one_rival []), true)
unfolding insert_row row_of exists_in text_eq calculate_audit_hash unary bar canonical_audit_event
    stable_stringify insert_member written join quote escape text_lt rivals_insert verify_rows
    verify_row head_of
rival_verified = refl

append_audit_integrity_entry-enough_example :
    (append_audit_integrity_entry unary false one_rival moved []).0 ≢ chain_error
append_audit_integrity_entry-enough_example =
    append_audit_integrity_entry-enough unary unary-IsHex unary_injective event_store one_rival
      moved [] (omega arith) rival_verified

appended_after_rival : (append_audit_integrity_entry unary false one_rival moved []).0 ≡ appended
unfolding insert_row row_of exists_in text_eq calculate_audit_hash unary bar canonical_audit_event
    stable_stringify insert_member written join quote escape text_lt rivals_insert
    append_audit_integrity_entry append_attempts attempt head_of
appended_after_rival = refl
