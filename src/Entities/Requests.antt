-- ===== src/Entities/Requests.antt =====
-- Fetching and changing classrooms, children and parents:
-- admin-dashboard/lib/admin/classrooms-api.ts, children-api.ts and parents-api.ts. `to_text` is
-- `String`, `encode` is `encodeURIComponent`.
pub mod Laws
use telecam.Prelude.{◌==◌, List, [], ◌∷◌, ◌++◌, Option, none, some, get_or, if◌then◌else◌}
use telecam.Text.{Text, text, text_eq, trim}
use telecam.Json.Defs.{Json, null, object, string, Fields, field, end, unwrap_payload}
use telecam.Session.World.{
  Env, M, Failure, api_error, other_error, network_error, pure, throw, catch_with, ◌>>=◌,
}
use telecam.Session.Storage.{truthy}
use telecam.Session.Provider.{fetch_page}
use telecam.Session.Queries.{by_method, fetch_and, no_rows}
use telecam.Cameras.Requests.{field_if}
use telecam.Schools.Types.{School}
use telecam.Schools.Requests.{get_schools}
use telecam.Entities.Classrooms.{
  Classroom, entity_status_name, normalize_classrooms, normalize_classroom_detail,
}
use telecam.Entities.Children.{Child, normalize_children, normalize_child_detail}
use telecam.Entities.Parents.{
  Parent, LinkedChild, ParentDetail, normalize_parent, normalize_parents, normalize_linked_child,
  normalize_parent_detail,
}

-- `CreateClassroomInput`, less the status that is not sent, and `UpdateClassroomInput`
pub record CreateClassroomInput : Type 0 where
  pub name : Text
  pub notes : Option Text

pub record UpdateClassroomInput : Type 0 where
  pub name : Option Text
  pub status : Option Text
  pub notes : Option Text

-- `CreateChildInput`, less the status that is not sent, and `UpdateChildInput`
pub record CreateChildInput : Type 0 where
  pub full_name : Text
  pub classroom_id : Text

pub record UpdateChildInput : Type 0 where
  pub full_name : Option Text
  pub classroom_id : Option Text
  pub status : Option Text

-- `CreateParentInput`, less the status that is not sent, and `LinkParentToChildInput`
pub record CreateParentInput : Type 0 where
  pub full_name : Text
  pub email : Text
  pub phone : Option Text
  pub password : Text

pub record LinkParentToChildInput : Type 0 where
  pub parent_id : Text
  pub relationship : Option Text

unfoldable pub notes_to_age_group : Option Text → Text
unfolding trim
notes_to_age_group none = []
notes_to_age_group (some notes) = trim notes

-- `if (value !== undefined) body[key] = value`, which is also how a property is written.
abbrev defined : {N : Type 0} → Text → Option Text → Fields N → Fields N
defined key none rest = rest
defined key (some v) rest = field key (string v) rest

abbrev or_null : {N : Type 0} → Option Text → Json N
or_null none = null
or_null (some s) = string s

-- `parents.find((p) => p.id === id)`
unfoldable pub find_parent : Text → List Parent → Option Parent
unfolding text_eq
find_parent id [] = none
find_parent id (p ∷ ps) = let rest = find_parent id ps in if text_eq p.id id then some p else rest

module _ {N : Type 0} (env : Env N) (to_text : Json N → Text) (encode : Text → Text) where
  abbrev send : Text → Text → Fields N → M N (Json N)
  send path method body =
      fetch_page env path (by_method method (some (env.js.stringify (object body))))

  abbrev under_school : Text → Text → Text
  under_school id rest = text "/admin/schools/" ++ (encode id ++ rest)

  unfoldable pub get_school_classrooms : Text → M N (List (Classroom N))
  get_school_classrooms school_id =
      fetch_and env (under_school school_id (text "/classrooms")) (text "GET")
        (normalize_classrooms env.js to_text)

  unfoldable pub create_classroom : Text → CreateClassroomInput → M N (Classroom N)
  unfolding notes_to_age_group
  create_classroom school_id input = do
    raw ← send (under_school school_id (text "/classrooms")) (text "POST") (
        field (text "name") (string input.name)
          (field (text "age_group") (string (notes_to_age_group input.notes)) end))
    pure (normalize_classroom_detail env.js to_text raw)

  abbrev age_group_if : Option Text → Fields N
  age_group_if none = end
  age_group_if (some notes) =
      field (text "age_group") (string (notes_to_age_group (some notes))) end

  unfoldable pub update_classroom : Text → UpdateClassroomInput → M N (Classroom N)
  unfolding notes_to_age_group
  update_classroom classroom_id input = do
    raw ← send (text "/admin/classrooms/" ++ encode classroom_id) (text "PATCH") (
        field_if (text "name") input.name
          (field_if (text "status") input.status (age_group_if input.notes)))
    pure (normalize_classroom_detail env.js to_text raw)

  abbrev classroom_query : Option Text → Text
  classroom_query classroom_id = elim (truthy classroom_id) [
    | none ↦ []
    | some id ↦ text "?classroom_id=" ++ encode id
  ]

  unfoldable pub get_school_children : Text → Option Text → M N (List (Child N))
  get_school_children school_id classroom_id =
      fetch_and env (under_school school_id (text "/children" ++ classroom_query classroom_id))
        (text "GET") (normalize_children env.js to_text)

  unfoldable pub create_child : Text → CreateChildInput → M N (Child N)
  create_child school_id input = do
    raw ← send (under_school school_id (text "/children")) (text "POST") (
        field (text "full_name") (string input.full_name)
          (field (text "classroom_id") (string input.classroom_id) end))
    pure (normalize_child_detail env.js to_text raw)

  unfoldable pub update_child : Text → UpdateChildInput → M N (Child N)
  update_child child_id input = do
    raw ← send (text "/admin/children/" ++ encode child_id) (text "PATCH") (
        field_if (text "full_name") input.full_name (
          field_if (text "classroom_id") input.classroom_id
            (field_if (text "status") input.status end)))
    pure (normalize_child_detail env.js to_text raw)

  unfoldable pub get_parents : M N (List Parent)
  get_parents =
      catch_with
        (fetch_and env (text "/admin/parents") (text "GET") (normalize_parents env.js to_text))
        no_rows

  unfoldable pub create_parent : CreateParentInput → M N Parent
  create_parent input = do
    raw ← send (text "/admin/parents") (text "POST") (
        field (text "full_name") (string input.full_name) (
          field (text "email") (string input.email) (
            field (text "phone") (string (get_or input.phone []))
              (field (text "password") (string input.password) end))))
    pure (normalize_parent env.js to_text (unwrap_payload raw))

  abbrev parents_path : Text → Text
  parents_path child_id = text "/admin/children/" ++ (encode child_id ++ text "/parents")

  unfoldable pub get_child_parents : Text → M N (List Parent)
  get_child_parents child_id =
      fetch_and env (parents_path child_id) (text "GET") (normalize_parents env.js to_text)

  unfoldable pub link_parent_to_child : Text → LinkParentToChildInput → M N (Unit {0})
  link_parent_to_child child_id input = do
    raw ← send (parents_path child_id) (text "POST") (
        field (text "parent_id") (string input.parent_id)
          (defined (text "relationship") input.relationship end))
    pure tt

  -- The value of a child and its school that is read as a linked child.
  abbrev link_of : School N → Child N → LinkedChild
  link_of school c = normalize_linked_child env.js to_text (
      object (
        field (text "id") (string c.id) (
          field (text "full_name") (string c.name) (
            field (text "school_id") (string school.id) (
              field (text "school_name") (string school.name) (
                field (text "classroom_id") (or_null c.classroom_id) (
                  field (text "classroom_name") (or_null c.classroom_name) (
                    field (text "status") (string (entity_status_name c.status))
                      (field (text "relationship") null (field (text "linked_at") null end))))))))))

  abbrev links_if : Option Parent → LinkedChild → List LinkedChild
  links_if none link = []
  links_if (some p) link = link ∷ []

  -- The inner loop; the parents of a child that cannot be fetched are none.
  unfoldable pub links_in_school : Text → School N → List (Child N) → M N (List LinkedChild)
  unfolding find_parent get_child_parents
  links_in_school parent_id school [] = pure []
  links_in_school parent_id school (c ∷ cs) = do
    parents ← catch_with (get_child_parents c.id) (λ e. pure [])
    links ← links_in_school parent_id school cs
    pure (links_if (find_parent parent_id parents) (link_of school c) ++ links)

  -- The outer loop.
  unfoldable pub links_in_schools : Text → List (School N) → M N (List LinkedChild)
  unfolding get_school_children links_in_school
  links_in_schools parent_id [] = pure []
  links_in_schools parent_id (school ∷ schools) = do
    cs ← get_school_children school.id none
    links ← links_in_school parent_id school cs
    more ← links_in_schools parent_id schools
    pure (links ++ more)

  abbrev pub linked_children : Text → M N (List LinkedChild)
  linked_children parent_id = do
    schools ← get_schools env to_text encode
    links_in_schools parent_id schools

  -- What follows the search; where the children cannot be fetched, there are none.
  abbrev pub detail_of : Text → Option Parent → M N (Option ParentDetail)
  detail_of parent_id none = pure none
  detail_of parent_id (some p) =
      catch_with
        (linked_children parent_id >>= λ links. pure (some (normalize_parent_detail p links)))
        (λ e. pure (some (normalize_parent_detail p [])))

  unfoldable pub get_parent_by_id : Text → M N (Option ParentDetail)
  unfolding get_parents find_parent links_in_schools normalize_parent_detail
  get_parent_by_id parent_id = do
    parents ← get_parents
    detail_of parent_id (find_parent parent_id parents)
