-- ===== src/Entities/Parents.antt =====
-- admin-dashboard/lib/admin/parents-types.ts and parents-normalizer.ts. What the readers always
-- leave empty (counts, schools, the subscription, payments, invoices) is left out. `to_text` is
-- `String`.
use telecam.Prelude.{List, [], ◌∷◌, ◌++◌, map, Option, get_or, if◌then◌else◌}
use telecam.Text.{Text, text, text_eq, trim}
use telecam.Json.Defs.{Json, object, Engine, pick, str}
use telecam.Json.Case.{upper}
use telecam.Cameras.Read.{keys2, keys3, str_at, record_or_empty, rows, unwrap_record}
use telecam.Alerts.Read.{text_of}
use telecam.Schools.Read.{rows_under}

pub data ParentStatus : Type 0 where
  active blocked disabled unknown : ParentStatus

pub record Parent : Type 0 where
  pub id : Text
  pub name : Text
  pub email : Text
  pub phone : Option Text
  pub status : ParentStatus
  pub created_at : Option Text
  pub updated_at : Option Text

pub record LinkedChild : Type 0 where
  pub id : Text
  pub name : Text
  pub school_id : Option Text
  pub school_name : Option Text
  pub classroom_id : Option Text
  pub classroom_name : Option Text
  pub status : Option Text
  pub relationship : Option Text
  pub linked_at : Option Text

pub record ParentDetail : Type 0 where
  pub parent : Parent
  pub linked_children : List LinkedChild

abbrev parent_status_of : Text → ParentStatus
parent_status_of s =
    if text_eq s (text "ACTIVE")
    then active
    else if text_eq s (text "BLOCKED")
    then blocked
    else if text_eq s (text "DISABLED")
    then disabled
    else unknown

module _ {N : Type 0} (js : Engine N) (to_text : Json N → Text) where
  unfoldable pub normalize_parent_status : Json N → ParentStatus
  unfolding upper text_eq
  normalize_parent_status value = parent_status_of (upper js (text_of js to_text value))

  -- The two names joined are a text in any case, so no third name is used.
  unfoldable pub normalize_parent : Json N → Parent
  unfolding pick str trim normalize_parent_status
  normalize_parent raw =
      let row = record_or_empty raw in
      let first_name = get_or (str_at row (keys2 (text "first_name") (text "firstName"))) [] in
      let last_name = get_or (str_at row (keys2 (text "last_name") (text "lastName"))) [] in
      record {
        id =
            get_or
              (str_at row (
                text "id"
                ∷ text "user_id"
                ∷ text "userId"
                ∷ text "parent_id"
                ∷ text "parentId"
                ∷ []))
              [];
        name =
            get_or (str_at row (keys3 (text "full_name") (text "fullName") (text "name")))
              (trim (first_name ++ b' ' ∷ last_name));
        email = get_or (str_at row (text "email" ∷ [])) [];
        phone = str_at row (text "phone" ∷ []);
        status = normalize_parent_status (pick row (text "status" ∷ []));
        created_at = str_at row (keys2 (text "created_at") (text "createdAt"));
        updated_at = str_at row (keys2 (text "updated_at") (text "updatedAt"));
      }

  unfoldable pub normalize_parents : Json N → List Parent
  unfolding unwrap_record pick rows normalize_parent
  normalize_parents raw =
      map (λ row. normalize_parent (object row))
        (rows_under js to_text (keys3 (text "parents") (text "data") (text "items"))
          (unwrap_record raw))

  unfoldable pub normalize_linked_child : Json N → LinkedChild
  unfolding pick str
  normalize_linked_child raw =
      let row = record_or_empty raw in
      record {
        id = get_or (str_at row (keys3 (text "id") (text "child_id") (text "childId"))) [];
        name =
            get_or (str_at row (keys3 (text "full_name") (text "fullName") (text "name")))
              (text "Unknown child");
        school_id = str_at row (keys2 (text "school_id") (text "schoolId"));
        school_name = str_at row (keys2 (text "school_name") (text "schoolName"));
        classroom_id = str_at row (keys2 (text "classroom_id") (text "classroomId"));
        classroom_name = str_at row (keys2 (text "classroom_name") (text "classroomName"));
        status = str_at row (text "status" ∷ []);
        relationship = str_at row (text "relationship" ∷ []);
        linked_at = str_at row (keys3 (text "linked_at") (text "linkedAt") (text "created_at"));
      }

unfoldable pub normalize_parent_detail : Parent → List LinkedChild → ParentDetail
normalize_parent_detail parent linked_children = record {
  parent = parent;
  linked_children = linked_children;
}
