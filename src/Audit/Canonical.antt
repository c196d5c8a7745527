-- ===== src/Audit/Canonical.antt =====
-- modules/audit/audit-integrity.ts: `stableStringify`, the canonical text of a JSON value.
pub mod Order
use cadena.Prelude.{
  ℕ, ◌+◌, ◌/◌, ◌%◌, Bool, true, false, List, [], ◌∷◌, ◌++◌, ltb, ◌==◌, if◌then◌else◌, ◌-◌,
}
use cadena.Prelude.Text.{Text, join, codes, text_lt}

-- A number is the text that JSON writes for it.
mutual
  pub data Json : Type 0 where
    null : Json
    bool : Bool → Json
    number string : Text → Json
    array : Items → Json
    object : Fields → Json

  pub data Items : Type 0 where
    nothing : Items
    item : Json → Items → Items

  pub data Fields : Type 0 where
    empty : Fields
    field : Text → Json → Fields → Fields

abbrev hex_digit : ℕ → ℕ
hex_digit n = if ltb n 10 then b'0' + n else b'a' + n - 10

-- What `JSON.stringify` writes for a character of a string.
abbrev escaped : ℕ → Text
escaped c =
    if c == b'"'
    then b'\\' ∷ b'"' ∷ []
    else if c == b'\\'
    then b'\\' ∷ b'\\' ∷ []
    else if c == 8
    then b'\\' ∷ b'b' ∷ []
    else if c == 9
    then b'\\' ∷ b't' ∷ []
    else if c == 10
    then b'\\' ∷ b'n' ∷ []
    else if c == 12
    then b'\\' ∷ b'f' ∷ []
    else if c == 13
    then b'\\' ∷ b'r' ∷ []
    else if ltb c 32
    then b'\\' ∷ b'u' ∷ b'0' ∷ b'0' ∷ hex_digit (c / 16) ∷ hex_digit (c % 16) ∷ []
    else c ∷ []

unfoldable pub escape : Text → Text
escape [] = []
escape (c ∷ s) = escaped c ++ escape s

unfoldable pub quote : Text → Text
unfolding escape
quote s = b'"' ∷ escape s ++ b'"' ∷ []

-- A key and the text of its value. `sort` puts the keys in order.
abbrev pub Member : Type 0
Member = Text × Text

unfoldable pub insert_member : Member → List Member → List Member
insert_member m [] = m ∷ []
insert_member m (n ∷ ns) =
    let rest = insert_member m ns in if text_lt n.0 m.0 then n ∷ rest else m ∷ n ∷ ns

unfoldable pub written : List Member → List Text
written [] = []
written (m ∷ ms) = (quote m.0 ++ b':' ∷ m.1) ∷ written ms

unfoldable mutual
  pub stable_stringify : Json → Text
  stable_stringify null = codes "null"
  stable_stringify (bool true) = codes "true"
  stable_stringify (bool false) = codes "false"
  stable_stringify (number t) = t
  stable_stringify (string s) = quote s
  stable_stringify (array items) = b'[' ∷ join (b',' ∷ []) (stringify_items items) ++ b']' ∷ []
  stable_stringify (object fields) =
      b'{' ∷ join (b',' ∷ []) (written (sorted_members fields)) ++ b'}' ∷ []

  pub stringify_items : Items → List Text
  stringify_items nothing = []
  stringify_items (item v vs) = stable_stringify v ∷ stringify_items vs

  pub sorted_members : Fields → List Member
  sorted_members empty = []
  sorted_members (field k v fs) = insert_member (k, stable_stringify v) (sorted_members fs)
