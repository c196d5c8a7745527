-- ===== src/Audit/Retry.antt =====
-- modules/audit/audit-integrity.ts: an append among rivals for the same head.
use mathlib.Core.List.{foldl, foldl-append}
use cadena.Prelude.{
  ℕ, zero, suc, ◌≤◌, ◌≡◌, ◌≢◌, refl, ◌∙◌, Bool, true, false, Bool-cases, Option, none, List, [],
  ◌∷◌, ◌++◌, inl, inr, ◌⊎◌, arith, length,
}
use cadena.Prelude.Text.{Text, text_eq}
use cadena.Audit.{
  Input, Entry, Source, row_of, verify_row, verify_rows, of_tenant, head_of, exists_in, has_link,
  insert_row, attempt, append_attempts, append_audit_integrity_entry, chain_error,
  transaction_aborted, has_event, rivals_insert, next_rivals, later_rivals, same_hash, inserted,
  ignored, hash_taken, chain_taken, Inserted,
}
use cadena.Audit.Chain.{same_hash_iff}
use cadena.Audit.Head.{IsHex, texts, rows-commit, verify_row-true, after_pair}

-- Where an entry of the tenant follows `p`, the chain splits there.
split_at_link :
    (org : Text) (p : Option Text) (t : List Entry)
    → exists_in (has_link org p) t ≡ true
    → (before : List Entry) × (r : Entry) × (rest : List Entry) × (of_tenant org t
        ≡ before ++ r ∷ rest)
      × (r.previous_hash ≡ p)
unfolding exists_in
split_at_link org p [] e = cc
split_at_link org p (x ∷ t) e = elim (Bool-cases (text_eq x.org_id org)) [
  | inr o ↦
      let (before, r, rest, s, q) = split_at_link org p t (rw o at e) in
      (before, r, rest, rw (o, s) refl, q)
  | inl o ↦ elim (Bool-cases (same_hash x.previous_hash p)) [
    | inl h ↦ ([], x, of_tenant org t, rw o refl, same_hash_iff _ _ h)
    | inr h ↦
        let (before, r, rest, s, q) = split_at_link org p t (rw (o, h) at e) in
        (x ∷ before, r, rest, rw (o, s) refl, q)
  ]
]

module _ (digest : Text → Text) (current : Source → Text → Option Input) where
  abbrev body : Option Text × Bool → Entry → Option Text × Bool
  body = verify_row digest current

  valid_before :
      (rs : List Entry) (p h : Option Text) (v : Bool) → foldl body (p, v) rs ≡ (h, true) → v ≡ true
  valid_before [] p h v e = cc
  valid_before (r ∷ rs) p h v e =
      let next = body (p, v) r in
      let w = valid_before rs next.0 h next.1 e in
      (verify_row-true digest current p next.0 v r (rw (← w) refl)).0

  verified_prefix :
      (before : List Entry) (r : Entry) (rest : List Entry) (h : Option Text)
      → verify_rows digest current (before ++ r ∷ rest) ≡ (h, true)
      → verify_rows digest current before ≡ (r.previous_hash, true)
  unfolding verify_rows
  verified_prefix before r rest h e =
      let s = foldl body (none, true) before in
      let t = body s r in
      let v = valid_before rest t.0 h t.1 (rw foldl-append at e) in
      let (w, p, _, _) = verify_row-true digest current s.0 t.0 s.1 r (after_pair t v) in
      after_pair s w ∙ rw p refl

  texts_longer :
      (before : List Entry) (r : Entry) (rest : List Entry)
      → texts before ≢ texts (before ++ r ∷ rest)
  unfolding texts
  texts_longer [] r rest e = cc
  texts_longer (x ∷ before) r rest e = texts_longer before r rest cc

  -- In a verified chain no entry follows the head.
  head-free :
      (IsHex-digest : (t : Text) → IsHex (digest t))
      (injective : (s t : Text) → digest s ≡ digest t → s ≡ t) (org : Text) (t : List Entry)
      → verify_rows digest current (of_tenant org t) ≡ (head_of org t, true)
      → exists_in (has_link org (head_of org t)) t ≡ false
  head-free IsHex-digest injective org t v =
      elim (Bool-cases (exists_in (has_link org (head_of org t)) t)) [
        | inr e ↦ e
        | inl e ↦
            let (before, r, rest, s, q) = split_at_link org (head_of org t) t e in
            let whole : verify_rows digest current (before ++ r ∷ rest) ≡ (head_of org t, true) =
              rw (← s) v in
            let part = verified_prefix before r rest (head_of org t) whole in
            absurd (
              texts_longer before r rest (
                rows-commit digest IsHex-digest injective current current before
                  (before ++ r ∷ rest) (head_of org t) (part ∙ rw q refl) whole))
      ]

-- All that the rivals of a list of rounds insert.
abbrev pub after_rivals : List (List Entry) → List Entry → List Entry
after_rivals [] t = t
after_rivals (rs ∷ rest) t = after_rivals rest (rivals_insert rs t)

insert_row-chain_taken :
    (r : Entry) (t : List Entry)
    → (insert_row r t).0 ≡ chain_taken
    → ((insert_row r t).1 ≡ t) × (exists_in (has_link r.org_id r.previous_hash) t ≡ true)
unfolding insert_row
insert_row-chain_taken r t e = ground arith

taken_or_not : (r : Inserted) → (r ≡ chain_taken) ⊎ (r ≢ chain_taken)
taken_or_not inserted = inr (λ e. cc)
taken_or_not ignored = inr (λ e. cc)
taken_or_not hash_taken = inr (λ e. cc)
taken_or_not chain_taken = inl refl

module _ (digest : Text → Text) where
  attempts-settled :
      (left : ℕ) (rivals : List (List Entry)) (i : Input) (t : List Entry)
      → (attempt digest (next_rivals rivals) i t).0 ≢ chain_taken
      → (append_attempts digest false left rivals i t).0 ≢ chain_error
  unfolding append_attempts
  attempts-settled zero rivals i t n = ground arith
  attempts-settled (suc left) rivals i t n = ground arith

  attempt-chain_taken :
      (rs : List Entry) (i : Input) (t : List Entry)
      → (attempt digest rs i t).0 ≡ chain_taken
      → ((attempt digest rs i t).1 ≡ rivals_insert rs t)
        × (exists_in (has_link i.org_id (head_of i.org_id t)) (rivals_insert rs t) ≡ true)
  unfolding attempt row_of
  attempt-chain_taken rs i t e =
      insert_row-chain_taken (row_of digest i (head_of i.org_id t)) (rivals_insert rs t) e

  attempts-taken :
      (left : ℕ) (rivals : List (List Entry)) (i : Input) (t : List Entry)
      → (attempt digest (next_rivals rivals) i t).0 ≡ chain_taken
      → append_attempts digest false (suc left) rivals i t
        ≡ append_attempts digest false left
            (later_rivals rivals)
            i
            (rivals_insert (next_rivals rivals) t)
  unfolding append_attempts
  attempts-taken left rivals i t e =
      let unchanged : (attempt digest (next_rivals rivals) i t).1
          ≡ rivals_insert (next_rivals rivals) t =
        (attempt-chain_taken (next_rivals rivals) i t e).0 in
      rw (append_attempts, e, unchanged) refl

  -- Inside a transaction of the caller the first lost race ends the append.
  append_audit_integrity_entry-aborted :
      (rivals : List (List Entry)) (i : Input) (t : List Entry)
      → exists_in (has_event i.source i.event_id) t ≡ false
      → (attempt digest (next_rivals rivals) i t).0 ≡ chain_taken
      → (append_audit_integrity_entry digest true rivals i t).0 ≡ transaction_aborted
  unfolding append_audit_integrity_entry append_attempts
  append_audit_integrity_entry-aborted rivals i t n e = ground (arith, n, e)

module _ (digest : Text → Text) (IsHex-digest : (t : Text) → IsHex (digest t))
    (injective : (s t : Text) → digest s ≡ digest t → s ≡ t)
    (current : Source → Text → Option Input) where
  quiet-not_taken :
      (i : Input) (t : List Entry)
      → verify_rows digest current (of_tenant i.org_id t) ≡ (head_of i.org_id t, true)
      → (attempt digest [] i t).0 ≢ chain_taken
  unfolding rivals_insert
  quiet-not_taken i t v e =
      let (_, taken) = attempt-chain_taken digest [] i t e in
      let free = head-free digest current IsHex-digest injective i.org_id t v in cc

  attempts-not_lost :
      (left : ℕ) (rivals : List (List Entry)) (i : Input) (t : List Entry)
      → length rivals ≤ left
      → verify_rows digest current (of_tenant i.org_id (after_rivals rivals t))
        ≡ (head_of i.org_id (after_rivals rivals t), true)
      → (append_attempts digest false left rivals i t).0 ≢ chain_error
  attempts-not_lost left [] i t h v = attempts-settled digest left [] i t (quiet-not_taken i t v)
  attempts-not_lost zero (rs ∷ rest) i t h v = absurd (omega (arith, h))
  attempts-not_lost (suc left) (rs ∷ rest) i t h v = elim (taken_or_not (attempt digest rs i t).0) [
    | inr n ↦ attempts-settled digest (suc left) (rs ∷ rest) i t n
    | inl e ↦
        rw (attempts-taken digest left (rs ∷ rest) i t e)
          (attempts-not_lost left rest i (rivals_insert rs t) (omega (arith, h)) v)
  ]

  -- Enough attempts, outside a transaction: an append fails for the race only if rivals got in between the read of the head
  -- and the INSERT in each of its eight attempts. If they do so in at most seven rounds, and leave
  -- the tenant's chain verified, the append does not end with the unique violation on the chain,
  -- whatever the rows are that they insert.
  pub append_audit_integrity_entry-enough :
      (rivals : List (List Entry)) (i : Input) (t : List Entry)
      → length rivals ≤ 7
      → verify_rows digest current (of_tenant i.org_id (after_rivals rivals t))
        ≡ (head_of i.org_id (after_rivals rivals t), true)
      → (append_audit_integrity_entry digest false rivals i t).0 ≢ chain_error
  unfolding append_audit_integrity_entry
  append_audit_integrity_entry-enough rivals i t h v =
      ground (arith, attempts-not_lost 7 rivals i t h v)
