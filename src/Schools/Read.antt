-- ===== src/Schools/Read.antt =====
-- Reading schools and what belongs to them: admin-dashboard/lib/admin/schools-normalizer.ts.
-- `to_text` is `String`.
pub mod Laws
use telecam.Prelude.{
  Bool, true, false, not, ◌&&◌, List, [], ◌∷◌, map, filter, Option, none, some, or_else, get_or,
  if◌then◌else◌,
}
use telecam.Text.{Text, text, text_eq, is_empty, trim, includes}
use telecam.Json.Defs.{
  Json, undefined, null, string, number, array, object, Fields, end, Engine, pick, str, as_record,
  items, coalesce,
}
use telecam.Json.Case.{upper, lower}
use telecam.Json.Numbers.{Arithmetic}
use telecam.Search.{haystack_of}
use telecam.Cameras.Read.{keys2, keys3, str_at, record_or_empty, rows, unwrap_record}
use telecam.Alerts.Read.{text_of, array_items}
use telecam.Schools.Address.{decode_school_address}
use telecam.Schools.Types.{
  SchoolStatus, active, disabled, unknown, school_status_name, School, SchoolDetail, SchoolAdmin,
  RevenueShare, ClassroomSummary, ChildSummary, StorageUsageRow,
}

abbrev school_status_of : Text → SchoolStatus
school_status_of s =
    if text_eq s (text "ACTIVE")
    then active
    else if text_eq s (text "DISABLED")
    then disabled
    else unknown

module _ {N : Type 0} (js : Engine N) (to_text : Json N → Text) where
  abbrev if_finite : N → Option N
  if_finite n = if js.is_finite n then some n else none

  -- The `num` of the normalizers of entities: what is no finite number is none.
  unfoldable pub finite_number : Json N → Option N
  unfolding trim
  finite_number (number n) = if_finite n
  finite_number (string s) = if is_empty (trim s) then none else if_finite (js.parse_number s)
  finite_number v = none

  abbrev pub finite_at : Fields N → List Text → Option N
  finite_at fs keys = finite_number (pick fs keys)

  unfoldable pub normalize_school_status : Json N → SchoolStatus
  unfolding upper text_eq
  normalize_school_status value = school_status_of (upper js (text_of js to_text value))

  unfoldable pub normalize_school : Json N → School N
  unfolding pick str decode_school_address normalize_school_status finite_number
  normalize_school raw =
      let row = record_or_empty raw in
      let address = str_at row (text "address" ∷ []) in
      let meta = decode_school_address address in
      record {
        id = get_or (str_at row (keys3 (text "id") (text "school_id") (text "schoolId"))) [];
        name = get_or (str_at row (text "name" ∷ [])) (text "Unknown school");
        status = normalize_school_status (pick row (text "status" ∷ []));
        timezone = meta.timezone;
        city = meta.city;
        address = or_else meta.street_address address;
        contact_name = meta.contact_name;
        contact_phone =
            str_at row (keys3 (text "phone") (text "contact_phone") (text "contactPhone"));
        contact_email = meta.contact_email;
        classrooms_count = finite_at row (keys2 (text "classrooms_count") (text "classroomsCount"));
        children_count = finite_at row (keys2 (text "children_count") (text "childrenCount"));
        cameras_count = finite_at row (keys2 (text "cameras_count") (text "camerasCount"));
        parents_count = finite_at row (keys2 (text "parents_count") (text "parentsCount"));
        created_at = str_at row (keys2 (text "created_at") (text "createdAt"));
        updated_at = str_at row (keys2 (text "updated_at") (text "updatedAt"));
      }

  -- `isRecord(payload) ? pick(payload, [key]) ?? payload : payload`
  abbrev pub nested_or_self : Text → Json N → Json N
  nested_or_self key payload = elim (as_record payload) [
    | none ↦ payload
    | some fs ↦ coalesce (pick fs (key ∷ [])) payload
  ]

  -- `isRecord(row) ? str(pick(row, ["address"])) : school.address`
  abbrev address_at : Json N → Option Text → Option Text
  address_at row otherwise = elim (as_record row) [
    | none ↦ otherwise
    | some fs ↦ str_at fs (text "address" ∷ [])
  ]

  unfoldable pub normalize_school_detail : Json N → SchoolDetail N
  unfolding unwrap_record as_record pick str decode_school_address normalize_school
  normalize_school_detail raw =
      let row = nested_or_self (text "school") (unwrap_record raw) in
      let school = normalize_school row in
      record {
        school = school;
        notes = (decode_school_address (address_at row school.address)).notes;
      }

  -- `Array.isArray(payload) ? payload : isRecord(payload) ? pick(payload, keys) : []`, and the
  -- records of that.
  abbrev pub rows_under : List Text → Json N → List (Fields N)
  rows_under keys (array vs) = rows (array vs)
  rows_under keys (object fs) = rows (pick fs keys)
  rows_under keys v = []

  unfoldable pub normalize_schools : Json N → List (School N)
  unfolding unwrap_record pick rows normalize_school
  normalize_schools raw =
      map (λ row. normalize_school (object row))
        (rows_under (keys3 (text "schools") (text "data") (text "items")) (unwrap_record raw))

  unfoldable pub normalize_school_admin : Json N → SchoolAdmin
  unfolding pick str
  normalize_school_admin raw =
      let row = record_or_empty raw in
      let id = str_at row (keys3 (text "id") (text "user_id") (text "userId")) in
      record {
        id = id;
        user_id = id;
        email = str_at row (text "email" ∷ []);
        name = str_at row (keys3 (text "full_name") (text "fullName") (text "name"));
        role = str_at row (text "role" ∷ []);
        status = str_at row (text "status" ∷ []);
        assigned_at =
            str_at row (keys3 (text "assigned_at") (text "assignedAt") (text "created_at"));
      }

  -- What is no record is read too.
  unfoldable pub normalize_school_admins : Json N → List SchoolAdmin
  unfolding unwrap_record normalize_school_admin
  normalize_school_admins raw = map normalize_school_admin (array_items (unwrap_record raw))

  -- `Math.round((100 - share) * 100) / 100`
  abbrev platform_share : Arithmetic N → N → N
  platform_share a share =
      let hundred = js.of_nat 100 in
      a.over (a.round (a.times (a.minus hundred share) hundred)) hundred

  unfoldable pub normalize_revenue_share : Arithmetic N → Json N → Option (RevenueShare N)
  unfolding unwrap_record as_record pick str finite_number
  normalize_revenue_share a raw = elim (as_record (unwrap_record raw)) [
    | none ↦ none
    | some payload ↦
        let share =
          get_or
            (finite_at payload
              (keys3 (text "percentage") (text "school_share_percent") (text "schoolSharePercent")))
            (js.of_nat 0) in
        let read : RevenueShare N = record {
          id = str_at payload (text "id" ∷ []);
          school_id = str_at payload (keys2 (text "school_id") (text "schoolId"));
          school_share_percent = share;
          platform_share_percent = platform_share a share;
          effective_from =
              str_at payload
                (keys3 (text "active_from") (text "activeFrom") (text "effective_from"));
          effective_to =
              str_at payload (keys3 (text "active_to") (text "activeTo") (text "effective_to"));
        } in
        some read
  ]

  unfoldable pub normalize_classroom_summary : Fields N → ClassroomSummary N
  unfolding pick str finite_number
  normalize_classroom_summary row = record {
    id = get_or (str_at row (text "id" ∷ [])) [];
    name = get_or (str_at row (text "name" ∷ [])) (text "Unknown");
    status = str_at row (text "status" ∷ []);
    children_count = finite_at row (keys2 (text "children_count") (text "childrenCount"));
    cameras_count = finite_at row (keys2 (text "cameras_count") (text "camerasCount"));
  }

  unfoldable pub normalize_classroom_summaries : Json N → List (ClassroomSummary N)
  unfolding unwrap_record rows normalize_classroom_summary
  normalize_classroom_summaries raw =
      filter (λ c. not (is_empty c.id)) (map normalize_classroom_summary (rows (unwrap_record raw)))

  unfoldable pub normalize_child_summary : Fields N → ChildSummary
  unfolding pick str
  normalize_child_summary row = record {
    id = get_or (str_at row (text "id" ∷ [])) [];
    full_name =
        get_or (str_at row (keys3 (text "full_name") (text "fullName") (text "name")))
          (text "Unknown");
    classroom_id = str_at row (keys2 (text "classroom_id") (text "classroomId"));
    classroom_name = str_at row (keys2 (text "classroom_name") (text "classroomName"));
    status = str_at row (text "status" ∷ []);
  }

  unfoldable pub normalize_child_summaries : Json N → List ChildSummary
  unfolding unwrap_record rows normalize_child_summary
  normalize_child_summaries raw =
      filter (λ c. not (is_empty c.id)) (map normalize_child_summary (rows (unwrap_record raw)))

  unfoldable pub normalize_storage_usage_row : Fields N → StorageUsageRow N
  unfolding pick str finite_number
  normalize_storage_usage_row row = record {
    school_id = get_or (str_at row (keys2 (text "school_id") (text "schoolId"))) [];
    school_name = str_at row (keys2 (text "school_name") (text "schoolName"));
    date = get_or (str_at row (text "date" ∷ [])) [];
    total_bytes =
        get_or (finite_at row (keys2 (text "total_bytes") (text "totalBytes"))) (js.of_nat 0);
    total_gb = get_or (finite_at row (keys2 (text "total_gb") (text "totalGB"))) (js.of_nat 0);
    segment_count =
        get_or (finite_at row (keys2 (text "segment_count") (text "segmentCount"))) (js.of_nat 0);
    estimated_cost_usd =
        finite_at row (keys2 (text "estimated_cost_usd") (text "estimatedCostUsd"));
  }

  unfoldable pub normalize_storage_usage : Json N → List (StorageUsageRow N)
  unfolding unwrap_record rows normalize_storage_usage_row
  normalize_storage_usage raw =
      filter (λ r. not (is_empty r.school_id))
        (map normalize_storage_usage_row (rows (unwrap_record raw)))

  abbrev school_parts : School N → List (Option Text)
  school_parts s = some s.name ∷ s.city ∷ s.address ∷ s.timezone ∷ s.contact_email ∷ some s.id ∷ []

  unfoldable pub filter_schools : List (School N) → Text → Text → List (School N)
  unfolding lower trim text_eq includes haystack_of
  filter_schools schools search status =
      let q = lower js (trim search) in
      filter
        (λ s.
          if not (text_eq status (text "all")) && not (text_eq (school_status_name s.status) status)
          then false
          else if is_empty q
          then true
          else includes (haystack_of js (school_parts s)) q)
        schools
