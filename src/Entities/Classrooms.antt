-- ===== src/Entities/Classrooms.antt =====
-- admin-dashboard/lib/admin/classrooms-types.ts and classrooms-normalizer.ts. `to_text` is
-- `String`.
use telecam.Prelude.{
  Bool, true, false, not, ◌&&◌, List, [], ◌∷◌, map, filter, Option, none, some, or_else, get_or,
  if◌then◌else◌,
}
use telecam.Text.{Text, text, text_eq, is_empty, trim, includes}
use telecam.Json.Defs.{Json, object, Engine, pick, str, as_record}
use telecam.Json.Case.{upper, lower}
use telecam.Search.{haystack_of}
use telecam.Cameras.Read.{keys2, keys3, str_at, record_or_empty, rows, unwrap_record}
use telecam.Alerts.Read.{text_of}
use telecam.Schools.Read.{finite_number, finite_at, nested_or_self, rows_under}

pub data EntityStatus : Type 0 where
  active disabled unknown : EntityStatus

-- The texts that the type stands for.
abbrev pub entity_status_name : EntityStatus → Text
entity_status_name active = text "ACTIVE"
entity_status_name disabled = text "DISABLED"
entity_status_name unknown = text "UNKNOWN"

pub record Classroom (N : Type 0) : Type 0 where
  pub id : Text
  pub school_id : Option Text
  pub name : Text
  pub status : EntityStatus
  pub notes : Option Text
  pub age_group : Option Text
  pub children_count : Option N
  pub cameras_count : Option N
  pub created_at : Option Text
  pub updated_at : Option Text

abbrev entity_status_of : Text → EntityStatus
entity_status_of s =
    if text_eq s (text "ACTIVE")
    then active
    else if text_eq s (text "DISABLED")
    then disabled
    else unknown

-- `filters.status !== "all" && status !== filters.status`
abbrev pub misses_status : Text → EntityStatus → Bool
misses_status wanted status =
    not (text_eq wanted (text "all")) && not (text_eq (entity_status_name status) wanted)

module _ {N : Type 0} (js : Engine N) (to_text : Json N → Text) where
  unfoldable pub normalize_entity_status : Json N → EntityStatus
  unfolding upper text_eq
  normalize_entity_status value = entity_status_of (upper js (text_of js to_text value))

  unfoldable pub normalize_classroom : Json N → Classroom N
  unfolding pick str normalize_entity_status finite_number
  normalize_classroom raw =
      let row = record_or_empty raw in
      let age_group = str_at row (keys2 (text "age_group") (text "ageGroup")) in
      record {
        id = get_or (str_at row (keys2 (text "id") (text "classroom_id"))) [];
        school_id = str_at row (keys2 (text "school_id") (text "schoolId"));
        name = get_or (str_at row (text "name" ∷ [])) (text "Unknown classroom");
        status = normalize_entity_status (pick row (text "status" ∷ []));
        notes = age_group;
        age_group = age_group;
        children_count =
            finite_at js to_text row (keys2 (text "children_count") (text "childrenCount"));
        cameras_count =
            finite_at js to_text row (keys2 (text "cameras_count") (text "camerasCount"));
        created_at = str_at row (keys2 (text "created_at") (text "createdAt"));
        updated_at = str_at row (keys2 (text "updated_at") (text "updatedAt"));
      }

  unfoldable pub normalize_classrooms : Json N → List (Classroom N)
  unfolding unwrap_record pick rows normalize_classroom
  normalize_classrooms raw =
      map (λ row. normalize_classroom (object row))
        (rows_under js to_text (keys3 (text "classrooms") (text "data") (text "items"))
          (unwrap_record raw))

  -- `isRecord(row) ? row : payload`
  abbrev pub record_or : Json N → Json N → Json N
  record_or row payload = elim (as_record row) [ none ↦ payload | some fs ↦ object fs ]

  unfoldable pub normalize_classroom_detail : Json N → Classroom N
  unfolding unwrap_record as_record pick normalize_classroom
  normalize_classroom_detail raw =
      let payload = unwrap_record raw in
      normalize_classroom (record_or (nested_or_self js to_text (text "classroom") payload) payload)

  unfoldable pub filter_classrooms : List (Classroom N) → Text → Text → List (Classroom N)
  unfolding lower trim text_eq includes haystack_of
  filter_classrooms classrooms search status =
      let q = lower js (trim search) in
      filter
        (λ room.
          if misses_status status room.status
          then false
          else if is_empty q
          then true
          else includes (haystack_of js (some room.name ∷ room.notes ∷ some room.id ∷ [])) q)
        classrooms

-- The counts of the two maps win.
abbrev with_counts :
    {N : Type 0} → (Text → Option N) → (Text → Option N) → Classroom N → Classroom N
with_counts children cameras room = record room {
  children_count = or_else (children room.id) room.children_count;
  cameras_count = or_else (cameras room.id) room.cameras_count;
}

unfoldable pub enrich_classrooms_with_counts :
    {N : Type 0} → List (Classroom N) → (Text → Option N) → (Text → Option N) → List (Classroom N)
enrich_classrooms_with_counts classrooms children cameras =
    map (with_counts children cameras) classrooms
