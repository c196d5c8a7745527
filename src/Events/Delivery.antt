-- ===== src/Events/Delivery.antt =====
-- What one delivery does, from the claim to the recorded outcome.
use Prim.Native.String.{String}
use cadena.Events.Envelope.{Envelope}
use cadena.Events.Registry.{
  processing, processed, failed, same_key, status_of, put, may_claim, claim, DeadLetter, dead,
  is_dead, clear_dead_letter, put_dead, dead_letter, Store, Tried, handled, exhausted, Dispatched,
  success, skipped_duplicate, dead_lettered, Consumer, most_of, attempts_from, settle, deliver,
  run_consumer,
}
use cadena.Events.Claims.{same_key_refl, status_of-put}
use cadena.Prelude.{
  ℕ, zero, suc, ◌+◌, ◌<◌, ◌≡◌, ◌⊎◌, refl, Bool, true, false, Bool-cases, Option, none, some,
  Option-cases, List, [], ◌∷◌, ◌&&◌, ◌||◌, inl, inr, arith,
}

module _ {ℓ} {W : Type ℓ} (handle : W → Envelope → W × Option String) (event : Envelope) where
  -- `n` calls of the handler that throw, one after the other.
  pub data Fails : W → ℕ → W → Type ℓ where
    none_yet : {w : W} → Fails w 0 w
    and_then :
        {w w' : W} {n : ℕ}
        → (err : String) → (handle w event).1 ≡ some err
        → Fails (handle w event).0 n w'
        → Fails w (suc n) w'

  -- What the loop ends with: a call that returns after fewer failures than there are attempts, or
  -- a failure of every attempt.
  pub data Ends (w : W) (left attempt : ℕ) : W × Tried → Type ℓ where
    returns :
        {w' : W} {m : ℕ} (n : ℕ)
        → n < left
        → m ≡ attempt + n
        → Fails w n w'
        → (handle w' event).1 ≡ none
        → Ends w left attempt ((handle w' event).0, handled m)
    throws : {w' : W} (err : String) → Fails w left w' → Ends w left attempt (w', exhausted err)

  one_earlier :
      (w : W) (left attempt : ℕ) (err : String) (r : W × Tried)
      → (handle w event).1 ≡ some err
      → Ends (handle w event).0 left (suc attempt) r
      → Ends w (suc left) attempt r
  one_earlier w left attempt err r h (returns n k e fails ok) =
      returns (suc n) (omega arith) (omega arith) (and_then err h fails) ok
  one_earlier w left attempt err r h (throws err' fails) = throws err' (and_then err h fails)

  -- The loop of `dispatch` ends after at most its number of attempts, at the first call that returns;
  -- it reports exhaustion only when every attempt has thrown.
  pub attempts_from-Ends :
      (left attempt : ℕ) (err : String) (w : W)
      → Ends w left attempt (attempts_from handle event left attempt err w)
  unfolding attempts_from
  attempts_from-Ends zero attempt err w = throws err none_yet
  attempts_from-Ends (suc left) attempt err w = elim (Option-cases (handle w event).1) [
    | inl e ↦ rw (attempts_from, e) (returns 0 (omega arith) (omega arith) none_yet e)
    | inr (err', e) ↦
        rw (attempts_from, e)
          (one_earlier w left attempt err' _ e (attempts_from-Ends left (suc attempt) err' _))
  ]

-- Some row of the pair is dead.
unfoldable pub has_dead : (consumer event_id : String) → List DeadLetter → Bool
has_dead c e [] = false
has_dead c e (x ∷ xs) = (same_key c e x.consumer x.event_id && is_dead x.status) || has_dead c e xs

has_dead-clear_dead_letter :
    (c e : String) (ds : List DeadLetter) → has_dead c e (clear_dead_letter c e ds) ≡ false
unfolding has_dead clear_dead_letter
has_dead-clear_dead_letter c e [] = refl
has_dead-clear_dead_letter c e (x ∷ xs) = ground (arith, has_dead-clear_dead_letter c e xs)

has_dead-put_dead :
    (d : DeadLetter) (ds : List DeadLetter)
    → d.status ≡ dead
    → has_dead d.consumer d.event_id (put_dead d ds) ≡ true
unfolding has_dead put_dead
has_dead-put_dead d [] h = ground (arith, same_key_refl d.consumer d.event_id)
has_dead-put_dead d (x ∷ xs) h = ground (arith, has_dead-put_dead d xs h)

-- The outcome of a delivery, with what the tables say of it afterwards.
pub data Recorded (c e : String) (most : ℕ) (s : Store) : Dispatched → Type 0 where
  as_processed :
      (n : ℕ)
      → status_of c e s.consumptions ≡ some processed
      → has_dead c e s.dead_letters ≡ false
      → Recorded c e most s (success n)
  as_dead :
      (err : String)
      → status_of c e s.consumptions ≡ some failed
      → has_dead c e s.dead_letters ≡ true
      → Recorded c e most s (dead_lettered most err)

settle-Recorded :
    (org_of : String → Option String) (id : ℕ) (c : String) (most : ℕ) (event : Envelope)
    (t : Tried) (s : Store)
    → Recorded c event.event_id most
        (settle org_of id c most event t s).0
        (settle org_of id c most event t s).1
unfolding settle dead_letter
settle-Recorded org_of id c most event (handled n) s =
    as_processed n (status_of-put c event.event_id processed (some n) s.consumptions)
      (has_dead-clear_dead_letter c event.event_id s.dead_letters)
settle-Recorded org_of id c most event (exhausted err) s =
    as_dead err (status_of-put c event.event_id failed (some most) s.consumptions)
      (has_dead-put_dead _ s.dead_letters refl)

module _ {ℓ} {W : Type ℓ} (org_of : String → Option String) (d : Consumer W)
    (event : Envelope) where
  pub deliver-Recorded :
      (id : ℕ) (w : W) (s : Store)
      → let r = deliver org_of id d event (w, s) in
        Recorded d.name event.event_id (most_of d) r.0.1 r.1
  unfolding deliver
  deliver-Recorded id w s = settle-Recorded org_of id d.name (most_of d) event _ s

  pub run_consumer-won :
      (id : ℕ) (force : Bool) (w : W) (s : Store)
      → may_claim force (status_of d.name event.event_id s.consumptions) ≡ true
      → run_consumer org_of id d event force (w, s)
        ≡ deliver org_of id d event (
          w,
          record s { consumptions = put d.name event.event_id processing none s.consumptions },
        )
  unfolding run_consumer claim
  run_consumer-won id force w s h = ground (arith, h)

  run_consumer-lost :
      (id : ℕ) (force : Bool) (w : W) (s : Store)
      → may_claim force (status_of d.name event.event_id s.consumptions) ≡ false
      → run_consumer org_of id d event force (w, s) ≡ ((w, s), skipped_duplicate)
  unfolding run_consumer claim
  run_consumer-lost id force w s h = ground (arith, h)

  -- No event is lost: a delivery that loses the claim changes nothing; any other ends with the event
  -- processed and no dead letter of it, or failed with a dead letter.
  pub run_consumer-Recorded :
      (id : ℕ) (force : Bool) (w : W) (s : Store)
      → let r = run_consumer org_of id d event force (w, s) in
        let may = may_claim force (status_of d.name event.event_id s.consumptions) in
        ((may ≡ false) × (r ≡ ((w, s), skipped_duplicate)))
        ⊎ ((may ≡ true) × Recorded d.name event.event_id (most_of d) r.0.1 r.1)
  run_consumer-Recorded id force w s =
      elim (Bool-cases (may_claim force (status_of d.name event.event_id s.consumptions))) [
        | inl h ↦ inr (h, rw (run_consumer-won id force w s h) (deliver-Recorded id w _))
        | inr h ↦ inl (h, run_consumer-lost id force w s h)
      ]

  Recorded-processed :
      {c e : String} {most : ℕ} {s : Store} {o : Dispatched} {n : ℕ}
      → Recorded c e most s o
      → o ≡ success n
      → status_of c e s.consumptions ≡ some processed
  Recorded-processed (as_processed n h k) e = h
  Recorded-processed (as_dead err h k) e = cc

  -- A redelivery is harmless: after a delivery that processed the event, another one, without force,
  -- is skipped, calls no handler and changes no table.
  pub run_consumer-again :
      (id id' : ℕ) (force : Bool) (w : W) (s : Store) (n : ℕ)
      → (run_consumer org_of id d event force (w, s)).1 ≡ success n
      → let left = (run_consumer org_of id d event force (w, s)).0 in
        run_consumer org_of id' d event false left ≡ (left, skipped_duplicate)
  run_consumer-again id id' force w s n h = elim (run_consumer-Recorded id force w s) [
    | inl (k, e) ↦ cc
    | inr (k, r) ↦ run_consumer-lost id' false _ _ (rw (Recorded-processed r h) refl)
  ]
