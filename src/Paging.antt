-- ===== src/Paging.antt =====
-- Client-side paging: admin-dashboard/lib/list-controls.ts and
-- admin-dashboard/hooks/use-client-pagination.ts. Pages, sizes and totals are natural numbers.
pub mod Laws
mod Tests
use telecam.Prelude.{
  ℕ, ◌+◌, ◌-◌, ◌*◌, ◌/◌, min, max, Bool, true, false, List, [], ◌∷◌, leb, ltb, ◌==◌, if◌then◌else◌,
  length, take, drop, filter, not, Option, none, some, get_or,
}

abbrev pub default_list_page_size : ℕ
default_list_page_size = 25

abbrev pub list_page_size_options : List ℕ
list_page_size_options = 10 ∷ 25 ∷ 50 ∷ 100 ∷ []

unfoldable pub paginate_array {ℓ} : {T : Type ℓ} → List T → ℕ → ℕ → List T
paginate_array items page page_size =
    if page_size == 0 then items else take page_size (drop (page * page_size) items)

-- `Math.ceil(total / pageSize)` is the quotient rounded up.
unfoldable pub get_list_page_count : ℕ → ℕ → ℕ
get_list_page_count total page_size =
    if total == 0
    then 1
    else if page_size == 0
    then 1
    else max 1 ((total + (page_size - 1)) / page_size)

unfoldable pub clamp_page : ℕ → ℕ → ℕ
clamp_page page total_pages = if total_pages == 0 then 0 else max 0 (min page (total_pages - 1))

pub record Range : Type 0 where
  pub start : ℕ
  pub end : ℕ

unfoldable pub get_list_range : ℕ → ℕ → ℕ → Range
get_list_range total page page_size =
    if total == 0
    then record { start = 0; end = 0 }
    else (let safe_page = clamp_page page (get_list_page_count total page_size) in
        record { start = safe_page * page_size + 1; end = min total ((safe_page + 1) * page_size) })

-- The two `useState` cells of `useClientPagination`.
pub record Pager : Type 0 where
  pub page : ℕ
  pub page_size : ℕ

unfoldable pub initial_pager : Option ℕ → Pager
initial_pager page_size = record { page = 0; page_size = get_or page_size default_list_page_size }

-- What the caller, or a change of the filters or of `items.length`, does to the state.
pub data Event : Type 0 where
  set_page : ℕ → Event
  set_page_size : ℕ → Event
  reset : Event

unfoldable pub update : Pager → Event → Pager
update p (set_page n) = record p { page = n }
update p (set_page_size size) = record { page = 0; page_size = size }
update p reset = record p { page = 0 }

-- What the hook returns.
pub record View {ℓ} (T : Type ℓ) : Type ℓ where
  pub page : ℕ
  pub page_size : ℕ
  pub paginated_items : List T
  pub total : ℕ
  pub total_pages : ℕ
  pub range_start : ℕ
  pub range_end : ℕ
  pub has_multiple_pages : Bool

unfoldable pub view {ℓ} : {T : Type ℓ} → Pager → List T → View T
view p items =
    let total = length items in
    let total_pages = get_list_page_count total p.page_size in
    let safe_page = clamp_page p.page total_pages in
    let range = get_list_range total safe_page p.page_size in
    record {
      page = safe_page;
      page_size = p.page_size;
      paginated_items = paginate_array items safe_page p.page_size;
      total = total;
      total_pages = total_pages;
      range_start = range.start;
      range_end = range.end;
      has_multiple_pages = ltb 1 total_pages;
    }
