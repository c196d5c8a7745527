-- ===== src/Audit/Canonical/Order.antt =====
-- modules/audit/audit-integrity.ts: the order of an object's keys does not show in the canonical text.
use cadena.Prelude.{◌≡◌, ◌≢◌, refl, ◌∙◌, List, [], ◌∷◌, arith}
use cadena.Prelude.Text.{Text, text_lt_asym, text_lt_total, text_lt_trans}
use cadena.Audit.Canonical.{
  Json, array, object, Items, nothing, item, Fields, empty, field, Member, insert_member,
  stable_stringify, stringify_items, sorted_members,
}

insert_member_comm :
    (m n : Member) (ms : List Member)
    → m.0 ≢ n.0
    → insert_member m (insert_member n ms) ≡ insert_member n (insert_member m ms)
unfolding insert_member
insert_member_comm m n [] d = ground (arith, text_lt_asym m.0 n.0, text_lt_total m.0 n.0)
insert_member_comm m n (l ∷ ms) d = ground (
  arith,
  text_lt_asym m.0 n.0,
  text_lt_total m.0 n.0,
  text_lt_trans m.0 l.0 n.0,
  text_lt_trans n.0 l.0 m.0,
  text_lt_trans l.0 m.0 n.0,
  text_lt_trans l.0 n.0 m.0,
  text_lt_asym l.0 m.0,
  text_lt_asym l.0 n.0,
  text_lt_total l.0 m.0,
  text_lt_total l.0 n.0,
  insert_member_comm m n ms d,
)

-- The same value, with the keys of its objects, at any depth, in another order. Two neighbours
-- change places where their keys differ, as the keys of one object do.
mutual
  pub data Same : Json → Json → Type 0 where
    itself : {v : Json} → Same v v
    arrays : {a b : Items} → SameItems a b → Same (array a) (array b)
    objects : {a b : Fields} → SameFields a b → Same (object a) (object b)

  pub data SameItems : Items → Items → Type 0 where
    ends : SameItems nothing nothing
    each : {v w : Json} {a b : Items} → Same v w → SameItems a b → SameItems (item v a) (item w b)

  pub data SameFields : Fields → Fields → Type 0 where
    no_field : SameFields empty empty
    keeps :
        {k : Text} {v w : Json} {a b : Fields}
        → Same v w
        → SameFields a b
        → SameFields (field k v a) (field k w b)
    swaps :
        {k l : Text} {v w : Json} {a : Fields}
        → k ≢ l
        → SameFields (field k v (field l w a)) (field l w (field k v a))
    both : {a b c : Fields} → SameFields a b → SameFields b c → SameFields a c

mutual
  unfolding stable_stringify

  stringify_same : (v w : Json) → Same v w → stable_stringify v ≡ stable_stringify w
  stringify_same v w itself = refl
  stringify_same v w (arrays s) = rw (items_same _ _ s) refl
  stringify_same v w (objects s) = rw (members_same _ _ s) refl

  items_same : (a b : Items) → SameItems a b → stringify_items a ≡ stringify_items b
  items_same a b ends = refl
  items_same a b (each s ss) = rw (stringify_same _ _ s, items_same _ _ ss) refl

  members_same : (a b : Fields) → SameFields a b → sorted_members a ≡ sorted_members b
  members_same x y no_field = refl
  members_same x y (keeps s ss) = rw (stringify_same _ _ s, members_same _ _ ss) refl
  members_same x y (swaps {k} {l} {v} {w} {a} d) =
      insert_member_comm (k, stable_stringify v) (l, stable_stringify w) (sorted_members a) d
  members_same x y (both s t) = members_same _ _ s ∙ members_same _ _ t

-- Values that differ only in the order of their objects' keys, at any depth, have one canonical
-- text, and so one digest after the same previous entry.
pub stable_stringify-Same : (v w : Json) → Same v w → stable_stringify v ≡ stable_stringify w
stable_stringify-Same = stringify_same
