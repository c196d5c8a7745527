-- ===== src/Mapping/Path.antt =====
-- modules/connectors/mapping/field-mapping-evaluator.ts: `getPath` and `setPath` on dotted paths. The objects
-- here have their own keys only, which is what the code sees on a path of which no segment is a key
-- of Object.prototype (`is_own_path`); on another path it reads an inherited member, and with `__proto__`
-- writes into Object.prototype.
use cadena.Prelude.{Option, none, some, List, [], ◌∷◌, ◌++◌, ◌==◌, if◌then◌else◌, Bool, false, true}
use cadena.Prelude.Text.{Text, codes, text_eq}
use cadena.Audit.Canonical.{Json, object, Fields, empty, field}

-- `split('.')`: a first segment and the others.
unfoldable pub split_from : Text → Text → Text × List Text
split_from seg [] = (seg, [])
split_from seg (c ∷ t) =
    let (next, others) = split_from [] t in
    let longer = split_from (seg ++ c ∷ []) t in if c == b'.' then (seg, next ∷ others) else longer

unfoldable pub segments : Text → Text × List Text
unfolding split_from
segments = split_from []

unfoldable pub field_at : Text → Fields → Option Json
field_at k empty = none
field_at k (field l v fs) = if text_eq l k then some v else field_at k fs

-- An assignment keeps the place of a key that is there.
unfoldable pub put_field : Text → Json → Fields → Fields
put_field k v empty = field k v empty
put_field k v (field l w fs) =
    let rest = put_field k v fs in if text_eq l k then field l v fs else field l w rest

abbrev pub object_fields : Option Json → Option Fields
object_fields (some (object fs)) = some fs
object_fields _ = none

unfoldable pub get_from : Option Json → List Text → Option Json
get_from v [] = v
get_from v (s ∷ ss) = elim (object_fields v) [ none ↦ none | some fs ↦ get_from (field_at s fs) ss ]

abbrev pub or_new : Option Fields → Fields
or_new none = empty
or_new (some fs) = fs

unfoldable pub set_in : Fields → Text → List Text → Json → Fields
set_in fs s [] v = put_field s v fs
set_in fs s (t ∷ ss) v =
    put_field s (object (set_in (or_new (object_fields (field_at s fs))) t ss v)) fs

unfoldable pub get_path : Fields → (path : Text) → Option Json
get_path source path = get_from (some (object source)) ((segments path).0 ∷ (segments path).1)

unfoldable pub set_path : Fields → (path : Text) → Json → Fields
set_path target path v = set_in target (segments path).0 (segments path).1 v

-- The keys of Object.prototype.
abbrev inherited_keys : List Text
inherited_keys =
    codes "__proto__"
    ∷ codes "constructor"
    ∷ codes "hasOwnProperty"
    ∷ codes "isPrototypeOf"
    ∷ codes "propertyIsEnumerable"
    ∷ codes "toLocaleString"
    ∷ codes "toString"
    ∷ codes "valueOf"
    ∷ codes "__defineGetter__"
    ∷ codes "__defineSetter__"
    ∷ codes "__lookupGetter__"
    ∷ codes "__lookupSetter__"
    ∷ []

abbrev is_inherited : Text → List Text → Bool
is_inherited s [] = false
is_inherited s (k ∷ ks) = if text_eq s k then true else is_inherited s ks

abbrev are_own : List Text → Bool
are_own [] = true
are_own (s ∷ ss) = if is_inherited s inherited_keys then false else are_own ss

-- No segment of the path is a key of Object.prototype.
unfoldable pub is_own_path : Text → Bool
is_own_path path = are_own ((segments path).0 ∷ (segments path).1)
