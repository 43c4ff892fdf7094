-- ===== src/Entities/Children.antt =====
-- admin-dashboard/lib/admin/children-types.ts and children-normalizer.ts. `to_text` is `String`.
use telecam.Prelude.{
  Bool, true, false, not, List, [], ◌∷◌, map, filter, Option, none, some, or_else, get_or,
  if◌then◌else◌,
}
use telecam.Text.{Text, text, text_eq, is_empty, trim, includes}
use telecam.Text.Split.{cut}
use telecam.Json.Defs.{Json, object, Engine, pick, str, as_record}
use telecam.Json.Case.{lower}
use telecam.Search.{haystack_of}
use telecam.Cameras.Read.{keys2, keys3, str_at, record_or_empty, rows, unwrap_record}
use telecam.Alerts.Filter.{name_in, known_name}
use telecam.Schools.Address.{filled}
use telecam.Schools.Read.{finite_number, finite_at, nested_or_self, rows_under}
use telecam.Entities.Classrooms.{EntityStatus, normalize_entity_status, misses_status, record_or}

pub record Child (N : Type 0) : Type 0 where
  pub id : Text
  pub child_id : Option Text
  pub school_id : Option Text
  pub classroom_id : Option Text
  pub classroom_name : Option Text
  pub first_name : Text
  pub last_name : Option Text
  pub name : Text
  pub status : EntityStatus
  pub date_of_birth : Option Text
  pub linked_parents_count : Option N
  pub notes : Option Text
  pub created_at : Option Text
  pub updated_at : Option Text

abbrev name_parts : Text → Option (Text × Text) → Text × Text
name_parts trimmed none = (trimmed, [])
name_parts trimmed (some (first, rest)) = (first, trim rest)

-- The first name is what stands before the first space.
unfoldable pub split_full_name : Text → Text × Text
unfolding trim cut
split_full_name full_name = let trimmed = trim full_name in name_parts trimmed (cut b' ' trimmed)

module _ {N : Type 0} (js : Engine N) (to_text : Json N → Text) where
  unfoldable pub normalize_child : Json N → Child N
  unfolding pick str normalize_entity_status finite_number split_full_name
  normalize_child raw =
      let row = record_or_empty raw in
      let full_name =
        get_or (str_at row (keys3 (text "full_name") (text "fullName") (text "name")))
          (text "Unknown child") in
      let parts = split_full_name full_name in
      record {
        id = get_or (str_at row (keys2 (text "id") (text "child_id"))) [];
        child_id = str_at row (keys2 (text "child_id") (text "childId"));
        school_id = str_at row (keys2 (text "school_id") (text "schoolId"));
        classroom_id = str_at row (keys2 (text "classroom_id") (text "classroomId"));
        classroom_name = str_at row (keys2 (text "classroom_name") (text "classroomName"));
        first_name = parts.0;
        last_name = filled parts.1;
        name = full_name;
        status = normalize_entity_status js to_text (pick row (text "status" ∷ []));
        date_of_birth = str_at row (keys2 (text "date_of_birth") (text "dateOfBirth"));
        linked_parents_count =
            finite_at js to_text row
              (keys2 (text "linked_parents_count") (text "linkedParentsCount"));
        notes = none;
        created_at = str_at row (keys2 (text "created_at") (text "createdAt"));
        updated_at = str_at row (keys2 (text "updated_at") (text "updatedAt"));
      }

  unfoldable pub normalize_children : Json N → List (Child N)
  unfolding unwrap_record pick rows normalize_child
  normalize_children raw =
      map (λ row. normalize_child (object row))
        (rows_under js to_text (keys3 (text "children") (text "data") (text "items"))
          (unwrap_record raw))

  unfoldable pub normalize_child_detail : Json N → Child N
  unfolding unwrap_record as_record pick normalize_child
  normalize_child_detail raw =
      let payload = unwrap_record raw in
      normalize_child
        (record_or js to_text (nested_or_self js to_text (text "child") payload) payload)

  abbrev in_classroom : Text → Option Text → Bool
  in_classroom wanted none = is_empty wanted
  in_classroom wanted (some id) = if is_empty wanted then true else text_eq id wanted

  abbrev child_parts : Child N → List (Option Text)
  child_parts c = some c.name ∷ c.classroom_name ∷ c.classroom_id ∷ some c.id ∷ []

  unfoldable pub filter_children : List (Child N) → Text → Text → Text → List (Child N)
  unfolding lower trim text_eq includes haystack_of
  filter_children children search status classroom_id =
      let q = lower js (trim search) in
      filter
        (λ c.
          if misses_status status c.status
          then false
          else if not (in_classroom classroom_id c.classroom_id)
          then false
          else if is_empty q
          then true
          else includes (haystack_of js (child_parts c)) q)
        children

-- A name that is there is kept.
abbrev with_classroom_name : {N : Type 0} → List (Text × Text) → Child N → Child N
with_classroom_name classrooms c = record c {
  classroom_name = or_else c.classroom_name (known_name classrooms c.classroom_id);
}

unfoldable pub enrich_children_with_classroom_names :
    {N : Type 0} → List (Child N) → List (Text × Text) → List (Child N)
unfolding name_in
enrich_children_with_classroom_names children classrooms =
    map (with_classroom_name classrooms) children
