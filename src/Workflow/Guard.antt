-- ===== src/Workflow/Guard.antt =====
-- `evaluateRoleGuard`. The regular expression `in\s*\[(.*?)\]` is a search from each position on; white
-- space is that of ASCII, and the line ends that `.` does not match are line feed and return.
use Prim.Native.Char.{code}
use Prim.Native.String.{String}
use text.Mathlib.Text.{◌==◌ as str_eq}
use cadena.Prelude.{
  ℕ, Bool, true, false, Option, none, some, List, [], ◌∷◌, ◌&&◌, ◌||◌, leb, ◌==◌, if◌then◌else◌,
}

pub data RoleGuard : Type 0 where
  text_guard : String → RoleGuard
  object_guard : (role : Option String) → (roles : Option (List String)) → RoleGuard

abbrev is_space : ℕ → Bool
is_space c = c == b' ' || (leb 9 c && leb c 13)

abbrev is_line_end : ℕ → Bool
is_line_end c = c == 10 || c == 13

abbrev skip_spaces : String → String
skip_spaces String.[] = ""
skip_spaces (String.◌∷◌ c s) = if is_space (code c) then skip_spaces s else String.◌∷◌ c s

-- What is left of a text behind a prefix.
abbrev behind : (prefix : String) → String → Option String
behind String.[] s = some s
behind (String.◌∷◌ p ps) String.[] = none
behind (String.◌∷◌ p ps) (String.◌∷◌ c s) = if code p == code c then behind ps s else none

abbrev starts_with : (prefix : String) → String → Bool
starts_with p s = elim (behind p s) [ none ↦ false | some rest ↦ true ]

-- `includes`.
abbrev occurs : String → String → Bool
occurs p String.[] = starts_with p ""
occurs p (String.◌∷◌ c s) = starts_with p (String.◌∷◌ c s) || occurs p s

-- The text in front of the first bracket, on the same line.
abbrev up_to_bracket : String → Option String
up_to_bracket String.[] = none
up_to_bracket (String.◌∷◌ c s) =
    if code c == b']'
    then some ""
    else if is_line_end (code c)
    then none
    else elim (up_to_bracket s) [ none ↦ none | some t ↦ some (String.◌∷◌ c t) ]

abbrev match_at : String → Option String
match_at s = elim (behind "in" s) [
  | none ↦ none
  | some t ↦ elim (behind "[" (skip_spaces t)) [ none ↦ none | some u ↦ up_to_bracket u ]
]

abbrev match_list : String → Option String
match_list String.[] = none
match_list (String.◌∷◌ c s) = elim (match_at (String.◌∷◌ c s)) [
  | none ↦ match_list s
  | some t ↦ some t
]

-- `split` at a character: the first part, and the others.
abbrev split : (at : ℕ) → String → String × List String
split a String.[] = ("", [])
split a (String.◌∷◌ c s) =
    let (first, rest) = split a s in
    if code c == a then ("", first ∷ rest) else (String.◌∷◌ c first, rest)

abbrev is_blank : String → Bool
is_blank String.[] = true
is_blank (String.◌∷◌ c s) = is_space (code c) && is_blank s

abbrev trim_end : String → String
trim_end String.[] = ""
trim_end (String.◌∷◌ c s) = if is_blank (String.◌∷◌ c s) then "" else String.◌∷◌ c (trim_end s)

abbrev trim : String → String
trim s = trim_end (skip_spaces s)

abbrev trim_all : List String → List String
trim_all [] = []
trim_all (s ∷ ss) = trim s ∷ trim_all ss

abbrev is_empty : String → Bool
is_empty String.[] = true
is_empty (String.◌∷◌ c s) = false

abbrev append : String → String → String
append String.[] t = t
append (String.◌∷◌ c s) t = String.◌∷◌ c (append s t)

-- `join(' or ')`.
abbrev join : List String → String
join [] = ""
join (s ∷ []) = s
join (s ∷ t ∷ ss) = append s (append " or " (join (t ∷ ss)))

abbrev pub includes_role : List String → String → Bool
includes_role [] r = false
includes_role (x ∷ xs) r = str_eq x r || includes_role xs r

abbrev listed_roles : (first : String) → (rest : List String) → List String × String
listed_roles first rest = (trim first ∷ trim_all rest, join (trim first ∷ trim_all rest))

-- `matches && matches[1]`
abbrev bracket_roles : Option String → List String × String
bracket_roles none = ([], "qualified_role")
bracket_roles (some t) =
    if is_empty t then ([], "qualified_role") else listed_roles (split b',' t).0 (split b',' t).1

-- `guard.split(':')[1].trim()`
abbrev colon_roles : List String → List String × String
colon_roles [] = ([], "qualified_role")
colon_roles (role ∷ more) = (trim role ∷ [], trim role)

-- `allowedRoles` and `requiredRoleName`, for a guard that is text.
unfoldable pub text_roles : String → List String × String
text_roles guard =
    if occurs "in [" guard
    then bracket_roles (match_list guard)
    else if occurs ":" guard
    then colon_roles (split b':' guard).1
    else (guard ∷ [], guard)

abbrev object_roles : Option (List String) → List String × String
object_roles none = ([], "qualified_role")
object_roles (some roles) = (roles, join roles)

unfoldable pub roles_of : RoleGuard → List String × String
unfolding text_roles
roles_of (text_guard g) = text_roles g
roles_of (object_guard none roles) = object_roles roles
roles_of (object_guard (some role) roles) =
    if is_empty role then object_roles roles else (role ∷ [], role)

abbrev is_nil : List String → Bool
is_nil [] = true
is_nil (x ∷ xs) = false

-- The missing role, where the guard refuses.
unfoldable pub evaluate_role_guard : RoleGuard → (actor_role : String) → Option String
evaluate_role_guard g role =
    let (allowed, name) = roles_of g in
    if is_nil allowed || includes_role allowed role then none else some name
