-- ===== src/Relay/Lease.antt =====
-- modules/connectors/relay/connector-relay.service.ts: one delivery at a time. A relay's queue is worked off
-- in order, and while a lease on its head runs, nothing else of the queue is handed out.
use Prim.Native.String.{String}
use text.Mathlib.Text.{◌==◌ as str_eq}
use text.Mathlib.TextEquality.{eq_iff}
use cadena.Prelude.{
  ℕ, suc, ◌+◌, ◌≡◌, refl, Bool, true, false, Option, none, some, List, [], ◌∷◌, ◌++◌, ◌&&◌, not,
  ltb, ◌==◌, if◌then◌else◌, arith, Bool-cases, inl, inr, All,
}
use cadena.Relay.{Row, leased, completed, claim, update_rows, relay_lease_ms, holds_lease}
use cadena.Relay.Acknowledge.{carry_out, backoff_ms, is_leased_row, back_off_row, complete_row}
use cadena.Relay.Request.{revive}
use cadena.Relay.Queue.{
  Op, claims, answers, backs_off, enqueues, revives, apply, IsSound, fresh_row,
  insert_request-cases,
}

abbrev expires_at : ℕ → Option ℕ → Bool
expires_at until none = false
expires_at until (some t) = t == until

-- The head of the relay's queue is leased under `lease` until `until`.
unfoldable busy : (relay lease : String) → (until : ℕ) → List Row → Bool
busy relay lease until [] = false
busy relay lease until (r ∷ rs) =
    let rest = busy relay lease until rs in
    if str_eq r.relay_id relay
    then elim r.status [
      | leased ↦ holds_lease lease r.lease_id && expires_at until r.lease_expires_at
      | completed ↦ elim r.lease_id [ none ↦ rest | some l ↦ false ]
      | _ ↦ false
    ]
    else rest

-- A statement of the time before `until` that does not hold the lease.
abbrev pub leaves : (lease : String) → (until : ℕ) → Op → Bool
leaves lease until (claims now l relay) = ltb now until
leaves lease until (answers id relay l res) = not (str_eq l lease)
leaves lease until (backs_off id relay l error now attempts) = not (str_eq l lease)
leaves lease until (enqueues q) = true
leaves lease until (revives id) = true

-- A claim of the relay's pollers that gets a delivery.
abbrev delivers_by : (relay : String) → Op → List Row → Bool
delivers_by relay (claims now l r) rows =
    str_eq r relay && elim (claim now l r rows).0 [ none ↦ false | some q ↦ true ]
delivers_by relay _ rows = false

unfoldable pub deliveries : (relay : String) → List Op → List Row → ℕ
deliveries relay [] rows = 0
deliveries relay (op ∷ ops) rows =
    let rest = deliveries relay ops (apply op rows) in
    if delivers_by relay op rows then suc rest else rest

busy-claim :
    (now : ℕ) (l r relay lease : String) (until : ℕ) (rows : List Row)
    → ltb now until ≡ true
    → busy relay lease until rows ≡ true
    → (busy relay lease until (claim now l r rows).1 ≡ true)
      × (delivers_by relay (claims now l r) rows ≡ false)
unfolding busy claim
busy-claim now l r relay lease until [] h b = cc
busy-claim now l r relay lease until (x ∷ rows) h b = ground (
  arith,
  eq_iff x.relay_id relay,
  eq_iff x.relay_id r,
  eq_iff r relay,
  busy-claim now l r relay lease until rows h,
)

busy-cons :
    (relay lease : String) (until : ℕ) (x : Row) (rows others : List Row)
    → busy relay lease until (x ∷ rows) ≡ true
    → (busy relay lease until rows ≡ true → busy relay lease until others ≡ true)
    → busy relay lease until (x ∷ others) ≡ true
unfolding busy
busy-cons relay lease until x rows others b f = elim (Bool-cases (busy relay lease until rows)) [
  | inl c ↦ let d = f c in ground arith
  | inr c ↦ ground arith
]

held :
    (id relay l : String) (x : Row)
    → is_leased_row id relay l x ≡ true
    → holds_lease l x.lease_id ≡ true
held id relay l x t = ground arith

holds_lease_one :
    (l lease : String) (o : Option String)
    → holds_lease l o ≡ true
    → holds_lease lease o ≡ true
    → l ≡ lease
holds_lease_one l lease none h k = cc
holds_lease_one l lease (some o) h k = ground (arith, eq_iff o l, eq_iff o lease)

busy-not_held :
    (l relay lease : String) (until : ℕ) (x : Row) (rows : List Row)
    → str_eq l lease ≡ false
    → holds_lease l x.lease_id ≡ true
    → busy relay lease until (x ∷ rows) ≡ true
    → (str_eq x.relay_id relay ≡ false) × (busy relay lease until rows ≡ true)
unfolding busy
busy-not_held l relay lease until x rows n h b =
    ground (arith, eq_iff l lease, holds_lease_one l lease x.lease_id h)

busy-update :
    (id relay' l relay lease : String) (until : ℕ) (change : Row → Row) (rows : List Row)
    → str_eq l lease ≡ false
    → busy relay lease until rows ≡ true
    → ((r : Row) → (change r).relay_id ≡ r.relay_id)
    → busy relay lease until (update_rows (is_leased_row id relay' l) change rows) ≡ true
unfolding busy update_rows
busy-update id relay' l relay lease until change [] n b keeps = b
busy-update id relay' l relay lease until change (x ∷ rows) n b keeps =
    let rest = busy-update id relay' l relay lease until change rows n in
    elim (Bool-cases (is_leased_row id relay' l x)) [
      | inr t ↦ rw t (busy-cons relay lease until x rows _ b (λ c. rest c keeps))
      | inl t ↦
          let (other, c) = busy-not_held l relay lease until x rows n (held id relay' l x t) b in
          rw (t, keeps x, other) (rest c keeps)
    ]

busy-revive :
    (id relay lease : String) (until : ℕ) (rows : List Row)
    → busy relay lease until rows ≡ true
    → busy relay lease until (revive id rows) ≡ true
unfolding busy revive update_rows
busy-revive id relay lease until [] b = b
busy-revive id relay lease until (x ∷ rows) b =
    ground (arith, busy-revive id relay lease until rows)

busy-append :
    (relay lease : String) (until : ℕ) (rows : List Row) (q : Row)
    → busy relay lease until rows ≡ true
    → busy relay lease until (rows ++ q ∷ []) ≡ true
unfolding busy
busy-append relay lease until [] q b = cc
busy-append relay lease until (x ∷ rows) q b = ground (arith, busy-append relay lease until rows q)

busy-apply :
    (op : Op) (relay lease : String) (until : ℕ) (rows : List Row)
    → leaves lease until op ≡ true
    → busy relay lease until rows ≡ true
    → (busy relay lease until (apply op rows) ≡ true) × (delivers_by relay op rows ≡ false)
unfolding apply carry_out
busy-apply (claims now l r) relay lease until rows h b =
    busy-claim now l r relay lease until rows h b
busy-apply (answers id r l res) relay lease until rows h b = (
  busy-update id r l relay lease until (complete_row res) rows (ground arith) b (λ q. refl),
  refl,
)
busy-apply (backs_off id r l error now attempts) relay lease until rows h b = (
  busy-update id r l relay lease until (back_off_row error (now + backoff_ms attempts)) rows
      (ground arith) b (λ q. refl),
  refl,
)
busy-apply (enqueues q) relay lease until rows h b = (
  elim (insert_request-cases (fresh_row q) rows) [
    | inl e ↦ rw e b
    | inr e ↦ rw e (busy-append relay lease until rows (fresh_row q) b)
  ],
  refl,
)
busy-apply (revives id) relay lease until rows h b = (busy-revive id relay lease until rows b, refl)

deliveries-busy :
    (ops : List Op) (relay lease : String) (until : ℕ) (rows : List Row)
    → All (λ op. leaves lease until op ≡ true) ops
    → busy relay lease until rows ≡ true
    → deliveries relay ops rows ≡ 0
unfolding deliveries
deliveries-busy [] relay lease until rows h b = refl
deliveries-busy (op ∷ ops) relay lease until rows (h, hs) b =
    let (kept, none_here) = busy-apply op relay lease until rows h b in
    rw none_here (deliveries-busy ops relay lease until (apply op rows) hs kept)

claim-busy :
    (now : ℕ) (lease relay : String) (rows : List Row) (q : Row)
    → IsSound rows
    → (claim now lease relay rows).0 ≡ some q
    → busy relay lease (now + relay_lease_ms) (claim now lease relay rows).1 ≡ true
unfolding busy claim
claim-busy now lease relay [] q s e = cc
claim-busy now lease relay (x ∷ rows) q (s, ss) e =
    ground (arith, eq_iff lease lease, claim-busy now lease relay rows q ss)

-- One delivery at a time: once a poll has been handed a request, no poll of that relay is handed
-- anything, neither that request nor one behind it, by whatever statements of whatever
-- pollers, callers and other relays, in any order, until the lease has run for thirty seconds or its
-- holder has acknowledged.
pub claim-exclusive_lease :
    (now : ℕ) (lease relay : String) (rows : List Row) (q : Row) (ops : List Op)
    → IsSound rows
    → (claim now lease relay rows).0 ≡ some q
    → All (λ op. leaves lease (now + relay_lease_ms) op ≡ true) ops
    → deliveries relay ops (claim now lease relay rows).1 ≡ 0
claim-exclusive_lease now lease relay rows q ops s e h =
    deliveries-busy ops relay lease (now + relay_lease_ms) (claim now lease relay rows).1 h
      (claim-busy now lease relay rows q s e)
