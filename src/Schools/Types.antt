-- ===== src/Schools/Types.antt =====
-- admin-dashboard/lib/admin/schools-types.ts. What may be missing is an `Option`.
use telecam.Prelude.{Option}
use telecam.Text.{Text, text}

pub data SchoolStatus : Type 0 where
  active disabled unknown : SchoolStatus

-- The texts that the type stands for.
abbrev pub school_status_name : SchoolStatus → Text
school_status_name active = text "ACTIVE"
school_status_name disabled = text "DISABLED"
school_status_name unknown = text "UNKNOWN"

pub record School (N : Type 0) : Type 0 where
  pub id : Text
  pub name : Text
  pub status : SchoolStatus
  pub timezone : Option Text
  pub city : Option Text
  pub address : Option Text
  pub contact_name : Option Text
  pub contact_phone : Option Text
  pub contact_email : Option Text
  pub classrooms_count : Option N
  pub children_count : Option N
  pub cameras_count : Option N
  pub parents_count : Option N
  pub created_at : Option Text
  pub updated_at : Option Text

-- `NormalizedSchoolDetail`
pub record SchoolDetail (N : Type 0) : Type 0 where
  pub school : School N
  pub notes : Option Text

pub record SchoolAdmin : Type 0 where
  pub id : Option Text
  pub user_id : Option Text
  pub email : Option Text
  pub name : Option Text
  pub role : Option Text
  pub status : Option Text
  pub assigned_at : Option Text

pub record RevenueShare (N : Type 0) : Type 0 where
  pub id : Option Text
  pub school_id : Option Text
  pub school_share_percent : N
  pub platform_share_percent : N
  pub effective_from : Option Text
  pub effective_to : Option Text

pub record ClassroomSummary (N : Type 0) : Type 0 where
  pub id : Text
  pub name : Text
  pub status : Option Text
  pub children_count : Option N
  pub cameras_count : Option N

pub record ChildSummary : Type 0 where
  pub id : Text
  pub full_name : Text
  pub classroom_id : Option Text
  pub classroom_name : Option Text
  pub status : Option Text

pub record StorageUsageRow (N : Type 0) : Type 0 where
  pub school_id : Text
  pub school_name : Option Text
  pub date : Text
  pub total_bytes : N
  pub total_gb : N
  pub segment_count : N
  pub estimated_cost_usd : Option N
