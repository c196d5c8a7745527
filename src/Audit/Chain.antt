-- ===== src/Audit/Chain.antt =====
-- modules/audit/audit-integrity.ts: what any number of writers leave in the table, whichever way their
-- reads of the head and their inserts interleave.
use mathlib.Core.List.{foldl-append}
use cadena.Prelude.{
  ◌≡◌, refl, sym, Bool, true, false, Bool-cases, Option, none, some, List, [], ◌∷◌, ◌++◌, inl, inr,
  ◌⊎◌, arith, if◌then◌else◌,
}
use cadena.Prelude.Text.{Text, text_eq, text_eq_iff, text_eq_refl}
use cadena.Audit.{
  Input, Entry, Source, row_of, verify_row, verify_rows, of_tenant, head_of, exists_in, has_link,
  insert_row, same_hash, next_head, verify_tenant_audit_chain,
}

pub same_hash_refl : (h : Option Text) → same_hash h h ≡ true
same_hash_refl none = refl
same_hash_refl (some a) = text_eq_refl a

pub same_hash_iff : (h k : Option Text) → same_hash h k ≡ true → h ≡ k
same_hash_iff none none e = refl
same_hash_iff (some a) (some b) e = ground (arith, text_eq_iff a b)
same_hash_iff none (some b) e = cc
same_hash_iff (some a) none e = cc

pub exists_in-append :
    (p : Entry → Bool) (t : List Entry) (r : Entry)
    → exists_in p (t ++ r ∷ []) ≡ (if exists_in p t then true else p r)
unfolding exists_in
exists_in-append p [] r = ground arith
exists_in-append p (x ∷ t) r = ground (arith, exists_in-append p t r)

pub head_of-append :
    (org : Text) (t : List Entry) (r : Entry)
    → head_of org (t ++ r ∷ []) ≡ next_head org (head_of org t) r
unfolding head_of
head_of-append org t r = rw foldl-append refl

pub of_tenant-append :
    (org : Text) (t : List Entry) (r : Entry)
    → of_tenant org (t ++ r ∷ [])
      ≡ (if text_eq r.org_id org then of_tenant org t ++ r ∷ [] else of_tenant org t)
of_tenant-append org [] r = ground arith
of_tenant-append org (x ∷ t) r = ground (arith, of_tenant-append org t r)

-- The head that a writer has read is the head still, or an entry has followed it since.
abbrev pub IsStale : (org : Text) → Option Text → List Entry → Type 0
IsStale org p t = (p ≡ head_of org t) ⊎ (exists_in (has_link org p) t ≡ true)

IsStale-free :
    (org : Text) (p : Option Text) (t : List Entry)
    → IsStale org p t
    → exists_in (has_link org p) t ≡ false
    → p ≡ head_of org t
IsStale-free org p t (inl e) free = e
IsStale-free org p t (inr linked) free = cc

IsStale-append :
    (org : Text) (p : Option Text) (t : List Entry) (r : Entry)
    → IsStale r.org_id r.previous_hash t
    → exists_in (has_link r.org_id r.previous_hash) t ≡ false
    → IsStale org p t
    → IsStale org p (t ++ r ∷ [])
IsStale-append org p t r (inr linked) free old = cc
IsStale-append org p t r (inl at_head) free (inr linked) = inr (rw (exists_in-append, linked) refl)
IsStale-append org p t r (inl at_head) free (inl e) = elim (Bool-cases (text_eq r.org_id org)) [
  | inr o ↦ inl (rw (head_of-append, o) e)
  | inl o ↦
      let same : r.previous_hash ≡ p = rw (e, at_head, (text_eq_iff r.org_id org).0 o) refl in
      inr (rw (exists_in-append, o, same, same_hash_refl) (ground arith))
]

insert_row-cases :
    (r : Entry) (t : List Entry)
    → ((insert_row r t).1 ≡ t)
      ⊎ (((insert_row r t).1 ≡ t ++ r ∷ [])
          × (exists_in (has_link r.org_id r.previous_hash) t ≡ false))
unfolding insert_row
insert_row-cases r t = ground arith

-- The writer of event `i` has read the head `p`.
abbrev pub HasRead : Input → Option Text → List (Input × Option Text) → Type 0
HasRead i p [] = ⊥
HasRead i p (r ∷ rs) = ((i ≡ r.0) × (p ≡ r.1)) ⊎ HasRead i p rs

-- The table, and the writers that have read a head: the event of each with the head it read.
pub record World : Type 0 where
  pub table : List Entry
  pub readers : List (Input × Option Text)

abbrev pub no_entries : World
no_entries = record { table = []; readers = [] }

module _ (digest : Text → Text) (current : Source → Text → Option Input) where
  -- A writer reads the head of its tenant; a writer that has read makes its INSERT, on the table as
  -- it is by then. A writer may try again, or give up, at any time.
  pub data Step : World → World → Type 0 where
    reads :
        {w : World} (i : Input)
        → current i.source i.event_id ≡ some i
        → Step w (record w { readers = (i, head_of i.org_id w.table) ∷ w.readers })
    inserts :
        {w : World} (i : Input) (p : Option Text)
        → HasRead i p w.readers
        → Step w (record w { table = (insert_row (row_of digest i p) w.table).1 })

  pub data Reachable : World → Type 0 where
    start : Reachable no_entries
    next : {w v : World} → Reachable w → Step w v → Reachable v

  pub record IsSound (w : World) : Type 0 where
    pub verified :
        (org : Text)
        → verify_rows digest current (of_tenant org w.table) ≡ (head_of org w.table, true)
    pub fresh :
        (i : Input) (p : Option Text)
        → HasRead i p w.readers
        → (current i.source i.event_id ≡ some i) × IsStale i.org_id p w.table

  verify_row-row_of :
      (i : Input) (p : Option Text)
      → current i.source i.event_id ≡ some i
      → verify_row digest current (p, true) (row_of digest i p)
        ≡ (some (row_of digest i p).event_hash, true)
  unfolding verify_row row_of
  verify_row-row_of i p k = rw (k, same_hash_refl p, text_eq_refl) refl

  verified-append :
      (org : Text) (i : Input) (p : Option Text) (t : List Entry)
      → current i.source i.event_id ≡ some i
      → p ≡ head_of i.org_id t
      → verify_rows digest current (of_tenant org t) ≡ (head_of org t, true)
      → verify_rows digest current (of_tenant org (t ++ row_of digest i p ∷ []))
        ≡ (head_of org (t ++ row_of digest i p ∷ []), true)
  unfolding verify_rows row_of
  verified-append org i p t k h v = elim (Bool-cases (text_eq i.org_id org)) [
    | inr o ↦ rw (of_tenant-append, head_of-append, o) v
    | inl o ↦
        let at_head : head_of org t ≡ p = sym (rw (sym ((text_eq_iff i.org_id org).0 o)) h) in
        rw (of_tenant-append, head_of-append, o, foldl-append, v, at_head) (verify_row-row_of i p k)
  ]

  insert_row-IsSound :
      (i : Input) (p : Option Text) (w : World)
      → HasRead i p w.readers
      → IsSound w
      → IsSound (record w { table = (insert_row (row_of digest i p) w.table).1 })
  unfolding row_of
  insert_row-IsSound i p w m s =
      let (known, stale) = s.fresh i p m in
      elim (insert_row-cases (row_of digest i p) w.table) [
        | inl e ↦ rw e s
        | inr (e, free) ↦ rw e (record {
          verified = λ org.
              verified-append org i p w.table known (IsStale-free i.org_id p w.table stale free)
                (s.verified org);
          fresh = λ j q n. (
            (s.fresh j q n).0,
            IsStale-append j.org_id q w.table (row_of digest i p) stale free (s.fresh j q n).1,
          );
        })
      ]

  Step-IsSound : {w v : World} → Step w v → IsSound w → IsSound v
  Step-IsSound (reads i k) s = record {
    verified = s.verified;
    fresh = λ j q m. elim m [ inl (e, f) ↦ (rw e k, inl (rw (e, f) refl)) | inr n ↦ s.fresh j q n ];
  }
  Step-IsSound (inserts {w} i p m) s = insert_row-IsSound i p w m s

  Reachable-IsSound : {w : World} → Reachable w → IsSound w
  unfolding verify_rows head_of
  Reachable-IsSound start = record { verified = λ org. refl; fresh = λ i p m. absurd m }
  Reachable-IsSound (next r s) = Step-IsSound s (Reachable-IsSound r)

  -- Racing writers never break a chain: whatever number of writers, of any tenants, read the head and
  -- insert, in any order and with any head that was current when they read it, the verification of
  -- every tenant's chain succeeds, and names the head that the next writer will read, as long as the
  -- events that the entries stand for are still there as they were.
  pub Reachable-verifies :
      (org : Text) (w : World)
      → Reachable w
      → ((verify_tenant_audit_chain digest current org w.table).chain_verified ≡ true)
        × ((verify_tenant_audit_chain digest current org w.table).chain_head ≡ head_of org w.table)
  unfolding verify_tenant_audit_chain
  Reachable-verifies org w r = rw ((Reachable-IsSound r).verified org) (refl, refl)
