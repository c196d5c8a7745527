-- ===== src/Mapping/Written.antt =====
-- modules/connectors/mapping/field-mapping-evaluator.ts: what is written at a path is read there.
use cadena.Prelude.{
  ◌≡◌, refl, sym, ◌∙◌, Bool, true, false, Bool-cases, Option, none, some, List, [], ◌∷◌,
  if◌then◌else◌, inl, inr, arith, ap,
}
use cadena.Prelude.Text.{Text, text_eq, text_eq_iff, text_eq_refl}
use cadena.Audit.Canonical.{Json, object, Fields, empty, field, bool, number, string, array, null}
use cadena.Mapping.Path.{
  segments, field_at, put_field, object_fields, get_from, or_new, set_in, get_path, set_path,
  is_own_path,
}

field_at-put_field : (k : Text) (v : Json) (fs : Fields) → field_at k (put_field k v fs) ≡ some v
unfolding field_at put_field
field_at-put_field k v empty = rw (text_eq_refl k) refl
field_at-put_field k v (field l w fs) = ground (arith, text_eq_refl k, field_at-put_field k v fs)

field_at-put_field_other :
    (j k : Text) (v : Json) (fs : Fields)
    → text_eq k j ≡ false
    → field_at j (put_field k v fs) ≡ field_at j fs
unfolding field_at put_field
field_at-put_field_other j k v empty h = rw h refl
field_at-put_field_other j k v (field l w fs) h =
    ground (
      arith,
      text_eq_iff l k,
      text_eq_iff l j,
      text_eq_iff k j,
      field_at-put_field_other j k v fs h,
    )

abbrev pub all_segments : Text → List Text
all_segments path = (segments path).0 ∷ (segments path).1

-- Two paths that part at some segment.
abbrev pub part : List Text → List Text → Bool
part (s ∷ ss) (t ∷ ts) = if text_eq s t then part ss ts else true
part _ _ = false

get_from-object :
    (fs : Fields) (s : Text) (ss : List Text)
    → get_from (some (object fs)) (s ∷ ss) ≡ get_from (field_at s fs) ss
unfolding get_from
get_from-object fs s ss = refl

pub get_from-none : (ss : List Text) → get_from none ss ≡ none
unfolding get_from
get_from-none [] = refl
get_from-none (s ∷ ss) = refl

here : (o : Option Json) → get_from o [] ≡ o
unfolding get_from
here o = refl

get_from-set_in :
    (fs : Fields) (s : Text) (ss : List Text) (v : Json)
    → get_from (some (object (set_in fs s ss v))) (s ∷ ss) ≡ some v
unfolding set_in
get_from-set_in fs s [] v = rw (get_from-object, field_at-put_field s v fs) (here (some v))
get_from-set_in fs s (t ∷ ss) v =
    rw
      (
        get_from-object,
        field_at-put_field s (object (set_in (or_new (object_fields (field_at s fs))) t ss v)) fs,
      )
      (get_from-set_in (or_new (object_fields (field_at s fs))) t ss v)

-- Below a value that is no object nothing is read, as below a new object.
get_from-new :
    (o : Option Json) (t : Text) (ts : List Text)
    → get_from (some (object (or_new (object_fields o)))) (t ∷ ts) ≡ get_from o (t ∷ ts)
unfolding get_from field_at
get_from-new none t ts = get_from-none ts
get_from-new (some null) t ts = get_from-none ts
get_from-new (some (bool b)) t ts = get_from-none ts
get_from-new (some (number n)) t ts = get_from-none ts
get_from-new (some (string n)) t ts = get_from-none ts
get_from-new (some (array n)) t ts = get_from-none ts
get_from-new (some (object fs)) t ts = refl

get_from-put_field_other :
    (fs : Fields) (s : Text) (v : Json) (t : Text) (ts : List Text)
    → text_eq s t ≡ false
    → get_from (some (object (put_field s v fs))) (t ∷ ts) ≡ get_from (some (object fs)) (t ∷ ts)
get_from-put_field_other fs s v t ts h =
    get_from-object (put_field s v fs) t ts
    ∙ (ap (λ o. get_from o ts) (field_at-put_field_other t s v fs h)
        ∙ sym (get_from-object fs t ts))

get_from-put_field_same :
    (fs : Fields) (s : Text) (gs : Fields) (t w : Text) (ws : List Text)
    → s ≡ t
    → get_from (some (object gs)) (w ∷ ws)
      ≡ get_from (some (object (or_new (object_fields (field_at s fs))))) (w ∷ ws)
    → get_from (some (object (put_field s (object gs) fs))) (t ∷ w ∷ ws)
      ≡ get_from (some (object fs)) (t ∷ w ∷ ws)
get_from-put_field_same fs s gs t w ws same h =
    rw (sym same, get_from-object, get_from-object, field_at-put_field s (object gs) fs)
      (h ∙ get_from-new (field_at s fs) w ws)

get_from-set_in_other :
    (fs : Fields) (s : Text) (ss : List Text) (t : Text) (ts : List Text) (v : Json)
    → part (s ∷ ss) (t ∷ ts) ≡ true
    → get_from (some (object (set_in fs s ss v))) (t ∷ ts) ≡ get_from (some (object fs)) (t ∷ ts)
unfolding set_in
get_from-set_in_other fs s [] t ts v h = get_from-put_field_other fs s v t ts (ground arith)
get_from-set_in_other fs s (u ∷ ss) t [] v h = get_from-put_field_other fs s _ t [] (ground arith)
get_from-set_in_other fs s (u ∷ ss) t (w ∷ ws) v h = elim (Bool-cases (text_eq s t)) [
  | inr n ↦ get_from-put_field_other fs s _ t (w ∷ ws) n
  | inl y ↦
      get_from-put_field_same fs s _ t w ws ((text_eq_iff s t).0 y)
        (get_from-set_in_other (or_new (object_fields (field_at s fs))) u ss w ws v (ground arith))
]

pub get_path-written :
    (target : Fields) (path : Text) (v : Json) → get_path (set_path target path v) path ≡ some v
unfolding get_path set_path
get_path-written target path v = get_from-set_in target (segments path).0 (segments path).1 v

pub get_path-kept :
    (target : Fields) (path other : Text) (v : Json)
    → part (all_segments path) (all_segments other) ≡ true
    → get_path (set_path target path v) other ≡ get_path target other
unfolding get_path set_path
get_path-kept target path other v h =
    get_from-set_in_other target (segments path).0 (segments path).1 (segments other).0
      (segments other).1 v h

-- Of paths without a key of Object.prototype, a path that parts from the one that is written reads what it
-- read before; the path itself reads what was written, through objects that were there, through
-- objects that were missing, and through other values, which give way.
pub get_path-set_path :
    (target : Fields) (path other : Text) (v : Json)
    → is_own_path path ≡ true
    → is_own_path other ≡ true
    → part (all_segments path) (all_segments other) ≡ true
    → (get_path (set_path target path v) path ≡ some v)
      × (get_path (set_path target path v) other ≡ get_path target other)
get_path-set_path target path other v _ _ h =
    (get_path-written target path v, get_path-kept target path other v h)
