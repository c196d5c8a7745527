-- ===== src/Audit/Head.antt =====
-- modules/audit/audit-integrity.ts: what the head of a verified chain commits to.
use mathlib.Core.List.{foldl-append, reverse, reverse-cons, reverse-reverse}
use cadena.Prelude.{
  ℕ, ◌≡◌, refl, sym, ◌∙◌, ap, Bool, true, false, ◌&&◌, ◌||◌, leb, ◌==◌, Option, none, some, List,
  [], ◌∷◌, ◌++◌, arith, All,
}
use cadena.Prelude.Text.{Text, text_eq_iff}
use cadena.Audit.{
  Input, Entry, Source, calculate_audit_hash, hashed, previous_or_genesis, verify_row, verify_rows,
  of_tenant, verify_tenant_audit_chain,
}
use cadena.Audit.Canonical.{stable_stringify}
use cadena.Audit.Chain.{same_hash_iff}

abbrev is_hex : ℕ → Bool
is_hex c = (leb b'0' c && leb c b'9') || (leb b'a' c && leb c b'f')

-- A digest in hexadecimal digits.
abbrev pub IsHex : Text → Type 0
IsHex = All (λ c. is_hex c ≡ true)

-- The canonical texts of the entries.
unfoldable pub texts : List Entry → List Text
texts [] = []
texts (r ∷ rs) = stable_stringify r.canonical_event ∷ texts rs

texts-append :
    (rs : List Entry) (r : Entry)
    → texts (rs ++ r ∷ []) ≡ texts rs ++ stable_stringify r.canonical_event ∷ []
unfolding texts
texts-append [] r = refl
texts-append (x ∷ rs) r = rw (texts-append rs r) refl

texts-reverse : (rs : List Entry) → texts (reverse rs) ≡ reverse (texts rs)
unfolding texts
texts-reverse [] = refl
texts-reverse (r ∷ rs) = rw (reverse-cons, texts-append, texts-reverse rs, reverse-cons) refl

no_break_split :
    (a b s t : Text)
    → All (λ c. (c == b'\n') ≡ false) a
    → All (λ c. (c == b'\n') ≡ false) b
    → a ++ b'\n' ∷ s ≡ b ++ b'\n' ∷ t
    → (a ≡ b) × (s ≡ t)
no_break_split [] [] s t ha hb e = (refl, cc)
no_break_split [] (y ∷ b) s t ha hb e = ground arith
no_break_split (x ∷ a) [] s t ha hb e = ground arith
no_break_split (x ∷ a) (y ∷ b) s t ha hb e =
    let (p, q) = no_break_split a b s t ha.1 hb.1 (ground arith) in (ground arith, q)

hex_no_break : (a : Text) → IsHex a → All (λ c. (c == b'\n') ≡ false) a
hex_no_break [] h = tt
hex_no_break (c ∷ a) h = (ground arith, hex_no_break a h.1)

-- The head of a prefix of a chain: none, or a digest.
abbrev IsLink : Option Text → Type 0
IsLink none = Unit
IsLink (some h) = IsHex h

link_no_break :
    (p : Option Text) → IsLink p → All (λ c. (c == b'\n') ≡ false) (previous_or_genesis p)
link_no_break none h = (refl, (refl, (refl, (refl, (refl, (refl, (refl, tt)))))))
link_no_break (some a) h = hex_no_break a h

link_injective :
    (p q : Option Text)
    → IsLink p
    → IsLink q
    → previous_or_genesis p ≡ previous_or_genesis q
    → p ≡ q
link_injective none none hp hq e = refl
link_injective none (some []) hp hq e = ground arith
link_injective (some []) none hp hq e = ground arith
link_injective none (some (c ∷ b)) hp hq e = ground arith
link_injective (some (c ∷ a)) none hp hq e = ground arith
link_injective (some a) (some b) hp hq e = cc

pub after_pair : (s : Option Text × Bool) → s.1 ≡ true → s ≡ (s.0, true)
after_pair (h, v) e = rw e refl

module _ (digest : Text → Text) (current : Source → Text → Option Input) where
  -- The loop's state after the entries of a list, the newest first.
  unfoldable after : List Entry → Option Text × Bool
  after [] = (none, true)
  after (r ∷ rs) = verify_row digest current (after rs) r

  after-rows : (rs : List Entry) → after rs ≡ verify_rows digest current (reverse rs)
  unfolding after verify_rows
  after-rows [] = refl
  after-rows (r ∷ rs) = rw (reverse-cons, foldl-append, ← after-rows rs) refl

  pub verify_row-true :
      (p h : Option Text) (valid : Bool) (r : Entry)
      → verify_row digest current (p, valid) r ≡ (h, true)
      → (valid ≡ true)
        × (p ≡ r.previous_hash)
        × (digest (hashed r.previous_hash r.canonical_event) ≡ r.event_hash)
        × (h ≡ some r.event_hash)
  unfolding verify_row calculate_audit_hash
  verify_row-true p h valid r e = ground (
    arith,
    same_hash_iff r.previous_hash p,
    text_eq_iff (digest (hashed r.previous_hash r.canonical_event)) r.event_hash,
  )

  after-IsLink :
      (IsHex-digest : (t : Text) → IsHex (digest t))
      → (rs : List Entry) (p : Option Text) → after rs ≡ (p, true)
      → IsLink p
  unfolding after
  after-IsLink IsHex-digest [] p e = rw (← ap (λ s. s.0) e) tt
  after-IsLink IsHex-digest (r ∷ rs) p e =
      let (_, _, d, h) = verify_row-true (after rs).0 p (after rs).1 r e in
      rw (h, ← d) (IsHex-digest _)

module _ (digest : Text → Text) (IsHex-digest : (t : Text) → IsHex (digest t))
    (injective : (s t : Text) → digest s ≡ digest t → s ≡ t)
    (current then_current : Source → Text → Option Input) where
  after-commits :
      (xs ys : List Entry) (h : Option Text)
      → after digest current xs ≡ (h, true)
      → after digest then_current ys ≡ (h, true)
      → texts xs ≡ texts ys
  unfolding after texts
  after-commits [] [] h e f = refl
  after-commits [] (y ∷ ys) h e f =
      let (_, _, _, k) = verify_row-true digest then_current _ h _ y f in ground arith
  after-commits (x ∷ xs) [] h e f =
      let (_, _, _, k) = verify_row-true digest current _ h _ x e in ground arith
  after-commits (x ∷ xs) (y ∷ ys) h e f =
      let (v, p, d, k) = verify_row-true digest current (after digest current xs).0 h _ x e in
      let (w, q, c, l) =
        verify_row-true digest then_current (after digest then_current ys).0 h _ y f in
      let one_hash : x.event_hash ≡ y.event_hash = cc in
      let link_x : IsLink x.previous_hash =
        rw (← p) (after-IsLink digest current IsHex-digest xs _ (after_pair _ v)) in
      let link_y : IsLink y.previous_hash =
        rw (← q) (after-IsLink digest then_current IsHex-digest ys _ (after_pair _ w)) in
      let (same, text) =
        no_break_split _ _ _ _ (link_no_break _ link_x) (link_no_break _ link_y)
          (injective _ _ (d ∙ one_hash ∙ sym c)) in
      let previous = link_injective _ _ link_x link_y same in
      let rest =
        after-commits xs ys x.previous_hash (after_pair _ v ∙ rw p refl)
          (after_pair _ w ∙ rw (q, previous) refl) in
      rw (text, rest) refl

  pub rows-commit :
      (xs ys : List Entry) (h : Option Text)
      → verify_rows digest current xs ≡ (h, true)
      → verify_rows digest then_current ys ≡ (h, true)
      → texts xs ≡ texts ys
  rows-commit xs ys h e f =
      let back =
        after-commits (reverse xs) (reverse ys) h
          (after-rows digest current (reverse xs) ∙ rw reverse-reverse e)
          (after-rows digest then_current (reverse ys) ∙ rw reverse-reverse f) in
      sym (reverse-reverse (texts xs))
      ∙ ap reverse (sym (texts-reverse xs) ∙ back ∙ texts-reverse ys)
      ∙ reverse-reverse (texts ys)

  -- The head of a verified chain fixes all of it: where the digest is collision-free and written in
  -- hexadecimal digits, two chains that verify and have one head, say one exported earlier and the
  -- one in the table now, have the same number of entries with the same canonical texts in the same
  -- order. So no entry can have been changed, left out, added or moved in between.
  pub verify_tenant_audit_chain-commits :
      (org then_org : Text) (t u : List Entry)
      → (verify_tenant_audit_chain digest current org t).chain_verified ≡ true
      → (verify_tenant_audit_chain digest then_current then_org u).chain_verified ≡ true
      → (verify_tenant_audit_chain digest current org t).chain_head
        ≡ (verify_tenant_audit_chain digest then_current then_org u).chain_head
      → texts (of_tenant org t) ≡ texts (of_tenant then_org u)
  unfolding verify_tenant_audit_chain
  verify_tenant_audit_chain-commits org then_org t u v w e =
      rows-commit (of_tenant org t) (of_tenant then_org u) _ (after_pair _ v)
        (after_pair _ w ∙ rw e refl)
