-- ===== src/Events/DeadLetters.antt =====
-- modules/events/dead-letter.service.ts: the operator's surface of the dead-letter queue, one tenant at
-- a time. The text of an error is its constructor.
use Prim.Native.String.{String}
use text.Mathlib.Text.{◌==◌ as str_eq}
use cadena.Events.Envelope.{Envelope, Json, object}
use cadena.Events.Registry.{
  DeadLetter, DeadLetterStatus, dead, replayed, discarded, is_dead, Store, Dispatched, success,
  dead_lettered, skipped_duplicate, not_registered, Consumer, consumer_named, dispatch,
}
use cadena.Prelude.{
  ℕ, zero, suc, Bool, true, false, Option, none, some, List, [], ◌∷◌, ◌&&◌, if◌then◌else◌, ◌==◌,
  min, max, is_some,
}

abbrev pub of_tenant : (org_id : String) → DeadLetter → Bool
of_tenant org d = elim d.org_id [ none ↦ false | some o ↦ str_eq org o ]

-- `get`: not found for another tenant's entry.
unfoldable pub get_entry : (id : ℕ) → (org_id : String) → List DeadLetter → Option DeadLetter
get_entry id org [] = none
get_entry id org (x ∷ xs) = if id == x.id && of_tenant org x then some x else get_entry id org xs

-- `UPDATE dead_letter_events ... WHERE id = ...`
unfoldable pub update_entry :
    (id : ℕ) → (DeadLetter → DeadLetter) → List DeadLetter → List DeadLetter
update_entry id f [] = []
update_entry id f (x ∷ xs) = (if id == x.id then f x else x) ∷ update_entry id f xs

pub record Filter : Type 0 where
  pub consumer : Option String
  pub status : Option DeadLetterStatus
  pub limit : ℕ

abbrev pub status_eq : DeadLetterStatus → DeadLetterStatus → Bool
status_eq dead dead = true
status_eq replayed replayed = true
status_eq discarded discarded = true
status_eq _ _ = false

abbrev pub passes : Filter → DeadLetter → Bool
passes f d =
    elim f.consumer [ none ↦ true | some c ↦ str_eq c d.consumer ]
    && elim f.status [ none ↦ true | some s ↦ status_eq s d.status ]

abbrev pub take : ℕ → List DeadLetter → List DeadLetter
take zero xs = []
take (suc n) [] = []
take (suc n) (x ∷ xs) = x ∷ take n xs

unfoldable pub select : (org_id : String) → Filter → List DeadLetter → List DeadLetter
select org f [] = []
select org f (x ∷ xs) =
    if of_tenant org x && passes f x then x ∷ select org f xs else select org f xs

-- `list`, where the table has its newest row first. A limit of 0 stands for a missing one.
unfoldable pub list : (org_id : String) → Filter → List DeadLetter → List DeadLetter
list org f ds = take (min (max (if f.limit == 0 then 100 else f.limit) 1) 500) (select org f ds)

-- The `total` of `depth`, the sum over the consumers.
unfoldable pub depth : (org_id : String) → List DeadLetter → ℕ
depth org [] = 0
depth org (x ∷ xs) =
    if is_dead x.status && of_tenant org x then suc (depth org xs) else depth org xs

pub data ReplayError : Type 0 where
  not_found was_discarded consumer_not_registered payload_not_object : ReplayError

pub data Replayed : Type 0 where
  refused : ReplayError → Replayed
  replay_result : (entry : Option DeadLetter) → Dispatched → Replayed

abbrev is_object : Json → Bool
is_object (object fields) = true
is_object _ = false

abbrev pub payload_ok : Option Json → Bool
payload_ok none = true
payload_ok (some p) = is_object p

abbrev pub corrected : Option Json → Envelope → Envelope
corrected none e = e
corrected (some p) e = record e { payload = p }

abbrev pub was_replayed : DeadLetter → DeadLetter
was_replayed d = record d { status = replayed; last_error = none }

abbrev pub still_dead : (attempts : ℕ) → (error : String) → DeadLetter → DeadLetter
still_dead n err d = record d { attempts = n; last_error = some err; status = dead }

-- `result.error || 'Replay failed'`
abbrev pub or_replay_failed : (error : String) → String
or_replay_failed String.[] = "Replay failed"
or_replay_failed (String.◌∷◌ c s) = String.◌∷◌ c s

-- The update by the outcome of the dispatch.
unfoldable pub record_replay : (id : ℕ) → Dispatched → List DeadLetter → List DeadLetter
record_replay id (success n) ds = update_entry id was_replayed ds
record_replay id (dead_lettered n err) ds = update_entry id (still_dead n (or_replay_failed err)) ds
record_replay id skipped_duplicate ds = update_entry id (still_dead 0 "Replay failed") ds
record_replay id not_registered ds = ds

module _ {ℓ} {W : Type ℓ} where
  -- The calls past the refusals.
  unfoldable pub redispatch :
      (org_of : String → Option String)
      → (fresh id : ℕ) → (org_id : String) → List (Consumer W)
      → DeadLetter
      → Option Json
      → W × Store
      → (W × Store) × Replayed
  redispatch org_of fresh id org ds entry payload (w, s) =
      let envelope = corrected payload entry.envelope in
      let letters =
        if is_some payload
        then update_entry id (λ d. record d { envelope = envelope }) s.dead_letters
        else s.dead_letters in
      let ((w', s'), outcome) =
        dispatch org_of fresh ds entry.consumer envelope true
          (w, record s { dead_letters = letters }) in
      let letters' = record_replay id outcome s'.dead_letters in
      (
        (w', record s' { dead_letters = letters' }),
        replay_result (get_entry id org letters') outcome,
      )

  unfoldable pub replay :
      (org_of : String → Option String)
      → (fresh id : ℕ) → (org_id : String) → List (Consumer W)
      → Option Json
      → W × Store
      → (W × Store) × Replayed
  replay org_of fresh id org ds payload (w, s) = elim (get_entry id org s.dead_letters) [
    | none ↦ ((w, s), refused not_found)
    | some entry ↦
        if status_eq entry.status discarded
        then ((w, s), refused was_discarded)
        else if is_some (consumer_named entry.consumer ds)
        then if payload_ok payload
          then redispatch org_of fresh id org ds entry payload (w, s)
          else ((w, s), refused payload_not_object)
        else ((w, s), refused consumer_not_registered)
  ]

-- `discard`; a reason of no characters counts as none, in the caller.
unfoldable pub discard :
    (id : ℕ)
    → (org_id : String) → (reason : Option String) → List DeadLetter
    → List DeadLetter × Option DeadLetter
discard id org reason ds = elim (get_entry id org ds) [
  | none ↦ (ds, none)
  | some entry ↦
      let ds' =
        update_entry id
          (λ d. record d {
            status = discarded;
            last_error = elim reason [ none ↦ d.last_error | some r ↦ some r ];
          })
          ds in
      (ds', get_entry id org ds')
]
