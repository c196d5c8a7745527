-- ===== src/Events/Replay.antt =====
-- What an operator's replay of a dead letter does, and what a tenant can see.
use Prim.Native.String.{String}
use cadena.Events.Envelope.{Envelope, Json}
use cadena.Events.Registry.{
  Consumption, ConsumptionStatus, processing, processed, failed, status_of, may_claim, DeadLetter,
  dead, replayed, discarded, clear_dead_letter, put_dead, dead_letter, Store, Tried, handled,
  exhausted, Dispatched, success, skipped_duplicate, not_registered, dead_lettered, Consumer,
  consumer_named, most_of, settle, deliver, run_consumer, dispatch,
}
use cadena.Events.DeadLetters.{
  of_tenant, get_entry, update_entry, Filter, passes, take, select, list, status_eq, corrected,
  payload_ok, replay_result, record_replay, or_replay_failed, was_replayed, still_dead, redispatch,
  replay,
}
use cadena.Events.Delivery.{Recorded, as_processed, as_dead, run_consumer-won, deliver-Recorded}
use cadena.Prelude.{
  ℕ, zero, suc, ◌≡◌, refl, ap, Bool, true, false, Bool-cases, Option, none, some, List, [], ◌∷◌,
  ◌&&◌, inl, inr, if◌then◌else◌, arith, All, is_some, ◌==◌,
}

get_entry-clear_dead_letter :
    (id : ℕ) (org c e : String) (ds : List DeadLetter)
    → is_some (get_entry id org ds) ≡ true
    → is_some (get_entry id org (clear_dead_letter c e ds)) ≡ true
unfolding get_entry clear_dead_letter
get_entry-clear_dead_letter id org c e [] h = h
get_entry-clear_dead_letter id org c e (x ∷ xs) h =
    ground (arith, get_entry-clear_dead_letter id org c e xs)

get_entry-put_dead :
    (id : ℕ) (org : String) (d : DeadLetter) (ds : List DeadLetter)
    → is_some (get_entry id org ds) ≡ true
    → is_some (get_entry id org (put_dead d ds)) ≡ true
unfolding get_entry put_dead
get_entry-put_dead id org d [] h = cc
get_entry-put_dead id org d (x ∷ xs) h = ground (arith, get_entry-put_dead id org d xs)

-- An update that leaves a row's id and tenant alone.
pub record KeepsKey (f : DeadLetter → DeadLetter) : Type 0 where
  pub id_kept : (d : DeadLetter) → (f d).id ≡ d.id
  pub org_kept : (d : DeadLetter) → (f d).org_id ≡ d.org_id

get_entry-update_entry :
    (id : ℕ) (org : String) (f : DeadLetter → DeadLetter) (ds : List DeadLetter)
    → KeepsKey f
    → is_some (get_entry id org ds) ≡ true
    → (x : DeadLetter) × (get_entry id org (update_entry id f ds) ≡ some (f x))
unfolding get_entry update_entry
get_entry-update_entry id org f [] k h = cc
get_entry-update_entry id org f (x ∷ xs) k h = elim (Bool-cases (id == x.id && of_tenant org x)) [
  | inl e ↦ (x, ground (arith, e, k.id_kept x, k.org_kept x))
  | inr e ↦
      let (x', found) = get_entry-update_entry id org f xs k (ground (arith, h, e)) in
      (x', ground (arith, e, found, k.id_kept x, k.org_kept x))
]

settle-keeps :
    (org_of : String → Option String) (fresh id : ℕ) (org c : String) (most : ℕ) (event : Envelope)
    (t : Tried) (s : Store)
    → is_some (get_entry id org s.dead_letters) ≡ true
    → is_some (get_entry id org (settle org_of fresh c most event t s).0.dead_letters) ≡ true
unfolding settle dead_letter
settle-keeps org_of fresh id org c most event (handled n) s h =
    get_entry-clear_dead_letter id org c event.event_id s.dead_letters h
settle-keeps org_of fresh id org c most event (exhausted err) s h =
    get_entry-put_dead id org _ s.dead_letters h

module _ {ℓ} {W : Type ℓ} (org_of : String → Option String) where
  dispatch-registered :
      (fresh : ℕ) (ds : List (Consumer W)) (c : String) (d : Consumer W) (event : Envelope)
      (force : Bool) (ws : W × Store)
      → consumer_named c ds ≡ some d
      → dispatch org_of fresh ds c event force ws ≡ run_consumer org_of fresh d event force ws
  unfolding dispatch
  dispatch-registered fresh ds c d event force ws h = rw (dispatch, h) refl

  deliver-keeps :
      (fresh id : ℕ) (org : String) (d : Consumer W) (event : Envelope) (w : W) (s : Store)
      → is_some (get_entry id org s.dead_letters) ≡ true
      → is_some (get_entry id org (deliver org_of fresh d event (w, s)).0.1.dead_letters) ≡ true
  unfolding deliver
  deliver-keeps fresh id org d event w s h =
      settle-keeps org_of fresh id org d.name (most_of d) event _ s h

-- How a replay ends, told by the entry that it returns and by the consumption of the event.
pub data ReplayEnds (entry : DeadLetter) (c e : String) (most : ℕ) (cs : List Consumption)
    : Dispatched → Type 0 where
  as_replayed :
      (n : ℕ)
      → entry.status ≡ replayed
      → status_of c e cs ≡ some processed
      → ReplayEnds entry c e most cs (success n)
  as_still_dead :
      (err : String)
      → entry.status ≡ dead
      → entry.last_error ≡ some (or_replay_failed err)
      → status_of c e cs ≡ some failed
      → ReplayEnds entry c e most cs (dead_lettered most err)

record_replay-ends :
    (id : ℕ) (org c e : String) (most : ℕ) (s : Store) (o : Dispatched)
    → Recorded c e most s o
    → is_some (get_entry id org s.dead_letters) ≡ true
    → (entry : DeadLetter) × (get_entry id org (record_replay id o s.dead_letters) ≡ some entry)
      × ReplayEnds entry c e most s.consumptions o
unfolding record_replay
record_replay-ends id org c e most s (success _) (as_processed n h k) g =
    let (x, found) =
      get_entry-update_entry id org was_replayed s.dead_letters
        (record { id_kept = λ d. refl; org_kept = λ d. refl }) g in
    (was_replayed x, found, as_replayed n refl h)
record_replay-ends id org c e most s (dead_lettered _ _) (as_dead err h k) g =
    let (x, found) =
      get_entry-update_entry id org (still_dead most (or_replay_failed err)) s.dead_letters
        (record { id_kept = λ d. refl; org_kept = λ d. refl }) g in
    (still_dead most (or_replay_failed err) x, found, as_still_dead err refl refl h)
record_replay-ends id org c e most s not_registered r g = elim r [ ]
record_replay-ends id org c e most s skipped_duplicate r g = elim r [ ]

may_claim-forced : (o : Option ConsumptionStatus) → may_claim true o ≡ true
may_claim-forced none = refl
may_claim-forced (some processing) = refl
may_claim-forced (some processed) = refl
may_claim-forced (some failed) = refl

ReplayEnds-same :
    {x : DeadLetter} {c e e' : String} {most : ℕ} {cs : List Consumption} {o : Dispatched}
    → e ≡ e'
    → ReplayEnds x c e most cs o
    → ReplayEnds x c e' most cs o
ReplayEnds-same h r = rw (← h) r

corrected-event_id : (p : Option Json) (e : Envelope) → (corrected p e).event_id ≡ e.event_id
corrected-event_id none e = refl
corrected-event_id (some p) e = refl

-- The table with the corrected envelope stored.
abbrev stored : (id : ℕ) → Option Json → Envelope → List DeadLetter → List DeadLetter
stored id payload e ds =
    if is_some payload then update_entry id (λ d. record d { envelope = e }) ds else ds

stored-keeps :
    (id : ℕ) (org : String) (payload : Option Json) (e : Envelope) (ds : List DeadLetter)
    → is_some (get_entry id org ds) ≡ true
    → is_some (get_entry id org (stored id payload e ds)) ≡ true
stored-keeps id org none e ds h = h
stored-keeps id org (some p) e ds h =
    let (x, found) =
      get_entry-update_entry id org (λ d. record d { envelope = e }) ds
        (record { id_kept = λ d. refl; org_kept = λ d. refl }) h in
    rw (found) refl

module _ {ℓ} {W : Type ℓ} (org_of : String → Option String) (fresh id : ℕ) (org : String)
    (ds : List (Consumer W)) (d : Consumer W) where
  dispatch-ends :
      (c : String) (event : Envelope) (w : W) (s : Store)
      → consumer_named c ds ≡ some d
      → is_some (get_entry id org s.dead_letters) ≡ true
      → let r = dispatch org_of fresh ds c event true (w, s) in
        Recorded d.name event.event_id (most_of d) r.0.1 r.1
        × (is_some (get_entry id org r.0.1.dead_letters) ≡ true)
  dispatch-ends c event w s h g =
      rw
        (
          dispatch-registered org_of fresh ds c d event true (w, s) h,
          run_consumer-won org_of d event fresh true w s (may_claim-forced _),
        )
        (deliver-Recorded org_of d event fresh w _, deliver-keeps org_of fresh id org d event w _ g)

  redispatch-ends :
      (entry : DeadLetter) (payload : Option Json) (w : W) (s : Store)
      → consumer_named entry.consumer ds ≡ some d
      → is_some (get_entry id org s.dead_letters) ≡ true
      → let r = redispatch org_of fresh id org ds entry payload (w, s) in
        (entry' : DeadLetter) × (o : Dispatched) × (r.1 ≡ replay_result (some entry') o)
        × ReplayEnds entry' d.name entry.envelope.event_id (most_of d) r.0.1.consumptions o
  unfolding redispatch
  redispatch-ends entry payload w s h g =
      let event = corrected payload entry.envelope in
      let s1 : Store = record s { dead_letters = stored id payload event s.dead_letters } in
      let (recorded, kept) =
        dispatch-ends entry.consumer event w s1 h
          (stored-keeps id org payload event s.dead_letters g) in
      let (entry', found, ends) =
        record_replay-ends id org d.name event.event_id (most_of d) _ _ recorded kept in
      let o = (dispatch org_of fresh ds entry.consumer event true (w, s1)).1 in
      (
        entry',
        o,
        ap (λ x. replay_result x o) found,
        ReplayEnds-same (corrected-event_id payload entry.envelope) ends,
      )

  replay-redispatch :
      (entry : DeadLetter) (payload : Option Json) (w : W) (s : Store)
      → get_entry id org s.dead_letters ≡ some entry
      → status_eq entry.status discarded ≡ false
      → consumer_named entry.consumer ds ≡ some d
      → payload_ok payload ≡ true
      → replay org_of fresh id org ds payload (w, s)
        ≡ redispatch org_of fresh id org ds entry payload (w, s)
  unfolding replay
  replay-redispatch entry payload w s g n h p = rw (replay, g, n, h, p) refl

  -- A replay of a tenant's own entry, if it is not discarded and its consumer is registered here, runs
  -- the consumer that failed, with the event's identity kept, and ends in one of two ways: the handler
  -- returns, the entry is marked as replayed and the event as processed; or every attempt throws, the
  -- entry is dead with the last error, or with 'Replay failed' where that is empty, and the event is
  -- failed.
  pub replay-ends :
      (entry : DeadLetter) (payload : Option Json) (w : W) (s : Store)
      → get_entry id org s.dead_letters ≡ some entry
      → status_eq entry.status discarded ≡ false
      → consumer_named entry.consumer ds ≡ some d
      → payload_ok payload ≡ true
      → let r = replay org_of fresh id org ds payload (w, s) in
        (entry' : DeadLetter) × (o : Dispatched) × (r.1 ≡ replay_result (some entry') o)
        × ReplayEnds entry' d.name entry.envelope.event_id (most_of d) r.0.1.consumptions o
  replay-ends entry payload w s g n h p =
      rw (replay-redispatch entry payload w s g n h p)
        (redispatch-ends entry payload w s h (rw (g) refl))

All-take :
    (P : DeadLetter → Bool) (n : ℕ) (ds : List DeadLetter)
    → All (λ d. P d ≡ true) ds
    → All (λ d. P d ≡ true) (take n ds)
All-take P zero ds h = tt
All-take P (suc n) [] h = tt
All-take P (suc n) (x ∷ xs) (h, hs) = (h, All-take P n xs hs)

select-of_tenant :
    (org : String) (f : Filter) (ds : List DeadLetter)
    → All (λ d. of_tenant org d ≡ true) (select org f ds)
unfolding select
select-of_tenant org f [] = tt
select-of_tenant org f (x ∷ xs) = elim (Bool-cases (of_tenant org x && passes f x)) [
  | inl e ↦ rw (e) (ground (arith, e), select-of_tenant org f xs)
  | inr e ↦ rw (e) (select-of_tenant org f xs)
]

-- A listing shows entries of its own tenant only.
pub list-of_tenant :
    (org : String) (f : Filter) (ds : List DeadLetter)
    → All (λ d. of_tenant org d ≡ true) (list org f ds)
unfolding list
list-of_tenant org f ds = All-take (of_tenant org) _ (select org f ds) (select-of_tenant org f ds)
