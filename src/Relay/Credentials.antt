-- ===== src/Relay/Credentials.antt =====
-- modules/connectors/relay/connector-relay.service.ts: no credential is put on the queue.
use Prim.Native.String.{String}
use text.Mathlib.Text.{◌==◌ as str_eq}
use cadena.Prelude.{
  ◌<◌, ap, sym, ◌∙◌, Bool, true, if◌then◌else◌, ◌≡◌, refl, false, Option, none, some, List, [], ◌∷◌,
  ◌++◌, ◌&&◌, arith, Bool-cases, inl, inr, All,
}
use cadena.Prelude.Text.{fold_case, to_lower, codes, Text, text_eq}
use cadena.Relay.{Row, Headers, update_rows}
use cadena.Relay.Acknowledge.{put_entry}
use cadena.Relay.Queue.{insert_request-cases}
use cadena.Relay.Request.{
  request, insert_request, revive, find_key, Connector, HttpRequest, is_sensitive, safe_headers,
  safe_entries, enqueue, revive_failed, is_failed,
}
use cadena.Relay.Once.{request-cases}

-- The names of the headers that hold a credential.
abbrev credential_names : List Text
credential_names =
    codes "authorization" ∷ codes "cookie" ∷ codes "proxy-authorization" ∷ codes "x-api-key" ∷ []

abbrev pub among_names : Text → List Text → Bool
among_names t [] = false
among_names t (n ∷ ns) = if text_eq t n then true else among_names t ns

abbrev pub names_credential : Text → Bool
names_credential name = among_names (fold_case name) credential_names

-- No header holds a credential, however its name is capitalised.
abbrev pub IsCredentialFree : Headers → Type 0
IsCredentialFree = All (λ e. names_credential e.0 ≡ false)

-- The name of a header is ASCII text in HTTP.
abbrev pub IsAscii : Text → Type 0
IsAscii = All (λ c. c < 128)

abbrev pub HasAsciiNames : Headers → Type 0
HasAsciiNames = All (λ e. IsAscii e.0)

fold_case-to_lower : (t : Text) → IsAscii t → fold_case (to_lower t) ≡ fold_case t
fold_case-to_lower [] a = refl
fold_case-to_lower (c ∷ t) (h, a) = ground (arith, fold_case-to_lower t a)

is_sensitive-names : (name : Text) → is_sensitive name ≡ names_credential name
is_sensitive-names name = ground arith

put_entry-IsCredentialFree :
    (k v : Text) (hs : Headers)
    → names_credential k ≡ false
    → IsCredentialFree hs
    → IsCredentialFree (put_entry k v hs)
put_entry-IsCredentialFree k v [] n s = (n, tt)
put_entry-IsCredentialFree k v (e ∷ es) n (s, ss) = elim (Bool-cases (text_eq e.0 k)) [
  | inl t ↦ rw t (n, ss)
  | inr t ↦ rw t (s, put_entry-IsCredentialFree k v es n ss)
]

safe_entries-IsCredentialFree :
    (out hs : Headers)
    → HasAsciiNames hs
    → IsCredentialFree out
    → IsCredentialFree (safe_entries out hs)
safe_entries-IsCredentialFree out [] a s = s
safe_entries-IsCredentialFree out (e ∷ es) (h, a) s = elim (Bool-cases (is_sensitive e.0)) [
  | inl t ↦ rw t (safe_entries-IsCredentialFree out es a s)
  | inr t ↦
      let kept : names_credential (to_lower e.0) ≡ false =
        ap (λ n. among_names n credential_names) (fold_case-to_lower e.0 h)
        ∙ (sym (is_sensitive-names e.0) ∙ t) in
      rw t (
        safe_entries-IsCredentialFree (put_entry (to_lower e.0) e.1 out) es a
          (put_entry-IsCredentialFree (to_lower e.0) e.1 out kept s))
]

safe_headers-IsCredentialFree :
    (hs : Headers) → HasAsciiNames hs → IsCredentialFree (safe_headers hs)
unfolding safe_headers
safe_headers-IsCredentialFree hs a = safe_entries-IsCredentialFree [] hs a tt

append-IsCredentialFree :
    (rows : List Row) (q : Row)
    → All (λ r. IsCredentialFree r.headers) rows
    → IsCredentialFree q.headers
    → All (λ r. IsCredentialFree r.headers) (rows ++ q ∷ [])
append-IsCredentialFree [] q s h = (h, tt)
append-IsCredentialFree (x ∷ rows) q (s, ss) h = (s, append-IsCredentialFree rows q ss h)

revive-IsCredentialFree :
    (id : String) (rows : List Row)
    → All (λ r. IsCredentialFree r.headers) rows
    → All (λ r. IsCredentialFree r.headers) (revive id rows)
unfolding revive update_rows
revive-IsCredentialFree id [] s = tt
revive-IsCredentialFree id (x ∷ rows) (s, ss) =
    let rest = revive-IsCredentialFree id rows ss in
    elim (Bool-cases (str_eq x.id id && is_failed x.status)) [
      | inl t ↦ rw t (s, rest)
      | inr t ↦ rw t (s, rest)
    ]

revive_failed-IsCredentialFree :
    (o : Option Row) (rows : List Row)
    → All (λ r. IsCredentialFree r.headers) rows
    → All (λ r. IsCredentialFree r.headers) (revive_failed o rows)
revive_failed-IsCredentialFree none rows s = s
revive_failed-IsCredentialFree (some r) rows s = elim (Bool-cases (is_failed r.status)) [
  | inl f ↦ rw f (revive-IsCredentialFree r.id rows s)
  | inr f ↦ rw f s
]

enqueue-IsCredentialFree :
    (q : Row) (rows : List Row)
    → All (λ r. IsCredentialFree r.headers) rows
    → IsCredentialFree q.headers
    → All (λ r. IsCredentialFree r.headers) (enqueue q rows)
enqueue-IsCredentialFree q rows s h =
    let after : All (λ r. IsCredentialFree r.headers) (insert_request q rows) =
      elim (insert_request-cases q rows) [
        | inl e ↦ rw e s
        | inr e ↦ rw e (append-IsCredentialFree rows q s h)
      ] in
    revive_failed-IsCredentialFree (find_key q.relay_id q.idempotency_key (insert_request q rows))
      (insert_request q rows) after

module _ (digest : Text → Text) (origin : Text → Option Text) where
  -- No credential leaves the cloud side: whatever headers with names of ASCII a call has, no row of the
  -- queue holds an authorization, cookie or key header, however its name is capitalised, if none did
  -- before.
  pub request-IsCredentialFree :
      (id operation : String) (c : Connector) (url : Text) (init : HttpRequest) (rows : List Row)
      → HasAsciiNames init.headers
      → All (λ r. IsCredentialFree r.headers) rows
      → All (λ r. IsCredentialFree r.headers) (request digest origin id operation c url init rows).1
  request-IsCredentialFree id operation c url init rows a s =
      elim (request-cases digest origin operation c url init) [
        | inl (why, e) ↦ rw (e id rows) s
        | inr (relay, e) ↦
            rw (e id rows)
              (enqueue-IsCredentialFree _ rows s (safe_headers-IsCredentialFree init.headers a))
      ]
