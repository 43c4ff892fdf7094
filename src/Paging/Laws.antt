-- ===== src/Paging/Laws.antt =====
-- The pages cover the items, and the shown range counts the shown rows.
use telecam.Prelude.{
  ◌≢◌, ℕ, zero, suc, ◌+◌, ◌-◌, ◌*◌, ◌≤◌, ◌<◌, min, ◌≡◌, ◌∙◌, List, [], ◌++◌, arith, length, take,
  drop, length-take, length-drop, drop-drop, take-add, take_of_length-le, length-pos, sym,
}
use native.Mathlib.Nat.{zero-mul}
use telecam.Paging.{paginate_array, get_list_page_count, clamp_page, get_list_range, Pager, view}

get_list_page_count-pos : (total size : ℕ) → 1 ≤ get_list_page_count total size
unfolding get_list_page_count
get_list_page_count-pos total size = ground arith

clamp_page-lt : (page total_pages : ℕ) → 1 ≤ total_pages → clamp_page page total_pages < total_pages
unfolding clamp_page
clamp_page-lt page total_pages h = ground arith

clamp_page-eq : (page total_pages : ℕ) → page < total_pages → clamp_page page total_pages ≡ page
unfolding clamp_page
clamp_page-eq page total_pages h = ground arith

-- The last page starts before the end, and ends at it or beyond.
get_list_page_count-bounds :
    (total size : ℕ)
    → 0 < total
    → 0 < size
    → ((get_list_page_count total size - 1) * size < total)
      × (total ≤ get_list_page_count total size * size)
unfolding get_list_page_count
get_list_page_count-bounds total size h k = grind arith

enough_pages : (total size : ℕ) → 0 < size → total ≤ get_list_page_count total size * size
enough_pages zero size h = omega arith
enough_pages (suc n) size h = (get_list_page_count-bounds (suc n) size (omega arith) h).1

-- A page below the page count starts within the items.
page_start-lt :
    (page total size : ℕ)
    → 0 < total
    → 0 < size
    → page < get_list_page_count total size
    → page * size < total
page_start-lt page total size h k lt =
    let bound = (get_list_page_count-bounds total size h k).0 in grind arith

get_list_range_lem :
    (total page size : ℕ)
    → 0 < total
    → page < get_list_page_count total size
    → ((get_list_range total page size).start ≡ page * size + 1)
      × ((get_list_range total page size).end ≡ min total (page * size + size))
unfolding get_list_range
get_list_range_lem total page size h lt =
    ground (arith, clamp_page-eq page (get_list_page_count total size) lt)

module _ {ℓ} {T : Type ℓ} where
  -- The rows of `n` pages from page `i` on, one after another.
  abbrev pub rows_of_pages : List T → ℕ → ℕ → ℕ → List T
  rows_of_pages items size i zero = []
  rows_of_pages items size i (suc n) =
      paginate_array items i size ++ rows_of_pages items size (suc i) n

  rows_of_pages-eq-take :
      (items : List T) (size i n : ℕ)
      → 0 < size
      → rows_of_pages items size i n ≡ take (n * size) (drop (i * size) items)
  unfolding paginate_array
  rows_of_pages-eq-take items size i zero h = rw zero-mul
  rows_of_pages-eq-take items size i (suc n) h =
      let page : paginate_array items i size ≡ take size (drop (i * size) items) = ground arith in
      let start : i * size + size ≡ suc i * size = omega arith in
      let total : size + n * size ≡ suc n * size = omega arith in
      rw (page, rows_of_pages-eq-take items size (suc i) n h, ← start, ← drop-drop size, ← total)
        (sym (take-add size (n * size) (drop (i * size) items)))

  -- With a positive page size, the pages from the first to the last, shown one after another, are
  -- the items.
  pub rows_of_pages-eq-items :
      (items : List T) (size : ℕ)
      → 0 < size
      → rows_of_pages items size 0 (get_list_page_count (length items) size) ≡ items
  rows_of_pages-eq-items items size h =
      rows_of_pages-eq-take items size 0 _ h
      ∙ rw zero-mul (take_of_length-le _ items (enough_pages (length items) size h))

  paginate_array-length :
      (items : List T) (page size : ℕ)
      → 0 < size
      → length (paginate_array items page size) ≡ min size (length items - page * size)
  unfolding paginate_array
  paginate_array-length items page size h =
      ground (arith, length-take size (drop (page * size) items), length-drop (page * size) items)

  -- The page exists, and the range is the one of its rows.
  pub record IsAccurate (p : Pager) (items : List T) : Type ℓ where
    pub in_range : (view p items).page < (view p items).total_pages
    pub rows_shown :
        length (view p items).paginated_items + (view p items).range_start
        ≡ (view p items).range_end + 1
    pub starts_at : (view p items).range_start ≡ (view p items).page * p.page_size + 1
    pub within : (view p items).range_end ≤ length items

  -- Whatever the state, with a positive page size and at least one item, the shown page exists,
  -- and the shown range is the one of its rows: as many as there are rows, from the first to the
  -- last, within the total.
  pub view-IsAccurate :
      (p : Pager) (items : List T) → 0 < p.page_size → items ≢ [] → IsAccurate p items
  unfolding view
  view-IsAccurate p items h k =
      let total = length items in
      let pages = get_list_page_count total p.page_size in
      let page = clamp_page p.page pages in
      let below : page < pages =
        clamp_page-lt p.page pages (get_list_page_count-pos total p.page_size) in
      let start = page_start-lt page total p.page_size (length-pos items k) h below in
      let rows = paginate_array-length items page p.page_size h in
      let (first, last) = get_list_range_lem total page p.page_size (length-pos items k) below in
      record { in_range = below; rows_shown = omega arith; starts_at = first; within = omega arith }
