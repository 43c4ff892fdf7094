-- ===== src/Auth/Routes/Laws.antt =====
-- No page that needs a session is without a permission, and the navigation agrees with the pages.
use telecam.Prelude.{
  ◌≡◌, refl, ◌≢◌, Bool, true, false, ◌||◌, List, [], ◌∷◌, ◌++◌, none, some, arith, All, any, map,
  ◌==◌, Bool-cases, ◌∙◌, ap, inl, inr,
}
use telecam.Text.{Text, text, text_eq, starts_with, before}
use telecam.Text.Laws.{text_eq_iff, starts_with_refl}
use telecam.Auth.Permissions.{schools_update}
use telecam.Auth.Routes.{
  starting, exactly, around, Route, matches, route_permissions, special_route_permissions,
  first_match, get_route_permission, protected_route_prefixes, is_protected_path, main_nav_items,
  from_slash,
}

-- A prefix with no question mark is still one after the query is cut off.
abbrev pub NoQuery : Text → Type 0
NoQuery [] = Unit
NoQuery (c ∷ s) = (c == b'?' ≡ false) × NoQuery s

starts_with-before :
    (s p : Text) → NoQuery p → starts_with s p ≡ true → starts_with (before b'?' s) p ≡ true
unfolding starts_with before
starts_with-before [] [] q h = refl
starts_with-before (c ∷ s) [] q h = ground arith
starts_with-before [] (d ∷ p) q h = cc
starts_with-before (c ∷ s) (d ∷ p) q h = ground (arith, starts_with-before s p q.1)

starts_with-append_left : (s p r : Text) → starts_with s (p ++ r) ≡ true → starts_with s p ≡ true
unfolding starts_with
starts_with-append_left s [] r h = refl
starts_with-append_left [] (d ∷ p) r h = cc
starts_with-append_left (c ∷ s) (d ∷ p) r h = ground (arith, starts_with-append_left s p r)

abbrev prefix_of : Route → Text
prefix_of r = elim r.pattern [ starting p ↦ p | exactly p ↦ p | around p q ↦ p ]

abbrev IsPlain : Route → Type 0
IsPlain r = (r.pattern ≡ starting (prefix_of r)) × NoQuery (prefix_of r)

-- The test of `is_protected_path` for one prefix.
abbrev is_under : Text → Text → Bool
is_under path prefix = text_eq path prefix || starts_with path (prefix ++ text "/")

starts_with_of_is_under :
    (path prefix : Text) → is_under path prefix ≡ true → starts_with path prefix ≡ true
starts_with_of_is_under path prefix h = elim (Bool-cases (text_eq path prefix)) [
  | inl same ↦ let e = (text_eq_iff path prefix).0 same in rw e (starts_with_refl prefix)
  | inr differ ↦ starts_with-append_left path prefix (text "/") (ground arith)
]

matches-starting :
    (r : Route) (p path : Text)
    → r.pattern ≡ starting p
    → starts_with path p ≡ true
    → matches r.pattern path ≡ true
unfolding matches
matches-starting r p path shape h = rw shape h

first_match-covers :
    (routes : List Route) (path : Text)
    → All IsPlain routes
    → any (is_under path) (map prefix_of routes) ≡ true
    → first_match routes (before b'?' path) ≢ none
unfolding first_match
first_match-covers [] path _ h = cc
first_match-covers (r ∷ rs) path ((shape, plain), more) h =
    elim (Bool-cases (is_under path (prefix_of r))) [
      | inl here ↦
          let begins = starts_with_of_is_under path (prefix_of r) here in
          let hit = starts_with-before path (prefix_of r) plain begins in
          rw (matches-starting r (prefix_of r) (before b'?' path) shape hit) (cc)
      | inr other ↦
          let rest : any (is_under path) (map prefix_of rs) ≡ true = rw other at h in
          ground (arith, first_match-covers rs path more rest)
    ]

route_permissions-IsPlain : All IsPlain route_permissions
unfolding route_permissions
route_permissions-IsPlain = assumption refl

protected_route_prefixes_lem : protected_route_prefixes ≡ map prefix_of route_permissions
unfolding protected_route_prefixes route_permissions
protected_route_prefixes_lem = refl

-- Every path that needs a session, query included, needs a permission too.
pub get_route_permission_of_protected :
    (path : Text) → is_protected_path path ≡ true → get_route_permission path ≢ none
unfolding is_protected_path get_route_permission
get_route_permission_of_protected path h = ground (
  arith,
  first_match-covers route_permissions path route_permissions-IsPlain
      (rw (← protected_route_prefixes_lem) h),
)

-- The permission of each navigation entry is the one that its page needs, and the page needs a
-- session.
pub main_nav_items_agree :
    All
      (λ n. (get_route_permission n.href ≡ some n.permission) × (is_protected_path n.href ≡ true))
      main_nav_items
unfolding get_route_permission route_permissions special_route_permissions matches before text_eq
    is_protected_path protected_route_prefixes main_nav_items
main_nav_items_agree = assumption refl

abbrev pub NoSlash : Text → Type 0
NoSlash [] = Unit
NoSlash (c ∷ s) = (c == b'/' ≡ false) × NoSlash s

abbrev pub edit_page : Text → Text
edit_page id = text "/schools/" ++ (id ++ text "/edit")

before-eq : (s t : Text) → NoQuery s → before b'?' (s ++ t) ≡ s ++ before b'?' t
unfolding before
before-eq [] t h = refl
before-eq (c ∷ s) t h = ground (arith, before-eq s t h.1)

before_slash-eq : (s t : Text) → NoSlash s → before b'/' (s ++ (b'/' ∷ t)) ≡ s
unfolding before
before_slash-eq [] t h = refl
before_slash-eq (c ∷ s) t h = ground (arith, before_slash-eq s t h.1)

from_slash-eq : (s t : Text) → NoSlash s → from_slash (s ++ (b'/' ∷ t)) ≡ b'/' ∷ t
unfolding from_slash
from_slash-eq [] t h = refl
from_slash-eq (c ∷ s) t h = ground (arith, from_slash-eq s t h.1)

-- No id makes the page for a new school of it.
not_new :
    (id : Text)
    → (text_eq (id ++ text "/edit") (text "new") ≡ false)
      × (text_eq (id ++ text "/edit") (text "new/") ≡ false)
unfolding text_eq
not_new [] = (refl, refl)
not_new (a ∷ []) = (ground arith, ground arith)
not_new (a ∷ b ∷ []) = (ground arith, ground arith)
not_new (a ∷ b ∷ c ∷ []) = (ground arith, ground arith)
not_new (a ∷ b ∷ c ∷ d ∷ []) = (ground arith, ground arith)
not_new (a ∷ b ∷ c ∷ d ∷ id) = (ground arith, ground arith)

before-edit_page : (id : Text) → NoQuery id → before b'?' (edit_page id) ≡ edit_page id
unfolding before
before-edit_page id query =
    before-eq (text "/schools/") (id ++ text "/edit") (assumption (refl))
    ∙ ap (λ s. text "/schools/" ++ s) (before-eq id (text "/edit") query)

matches-edit_page :
    (id : Text)
    → id ≢ []
    → NoSlash id
    → matches (around (text "/schools/") (text "/edit")) (edit_page id) ≡ true
unfolding matches text_eq
matches-edit_page id filled slash =
    rw (before_slash-eq id (text "edit") slash, from_slash-eq id (text "edit") slash) (ground arith)

not_new_page : (id : Text) → matches (exactly (text "/schools/new")) (edit_page id) ≡ false
unfolding matches text_eq
not_new_page id = rw ((not_new id).0, (not_new id).1)

first_match-edit_page :
    (id : Text)
    → id ≢ []
    → NoSlash id
    → first_match special_route_permissions (edit_page id) ≡ some schools_update
unfolding first_match special_route_permissions
first_match-edit_page id filled slash = rw (not_new_page id, matches-edit_page id filled slash) refl

-- The page that edits a school needs the permission to update schools, for every id that is not
-- empty and holds neither a slash nor a question mark.
pub get_route_permission-edit_page :
    (id : Text)
    → id ≢ []
    → NoSlash id
    → NoQuery id
    → get_route_permission (edit_page id) ≡ some schools_update
unfolding get_route_permission
get_route_permission-edit_page id filled slash query =
    ground (arith, before-edit_page id query, first_match-edit_page id filled slash)
