-- ===== src/Paging/Tests.antt =====
-- Paging at concrete lists.
use telecam.Prelude.{ℕ, ◌≡◌, refl, List, [], ◌∷◌, arith}
use telecam.Paging.{Pager, paginate_array, get_list_page_count, clamp_page, get_list_range, view}
use telecam.Paging.Laws.{rows_of_pages, rows_of_pages-eq-items, IsAccurate, view-IsAccurate}

abbrev five : List ℕ
five = 1 ∷ 2 ∷ 3 ∷ 4 ∷ 5 ∷ []

abbrev third_page : Pager
third_page = record { page = 7; page_size = 2 }

last_page : (view third_page five).paginated_items ≡ 5 ∷ []
unfolding view paginate_array get_list_page_count clamp_page get_list_range
last_page = refl

rows_of_pages-eq-items_example : rows_of_pages five 2 0 (get_list_page_count 5 2) ≡ five
rows_of_pages-eq-items_example = rows_of_pages-eq-items five 2 (omega arith)

view-IsAccurate_example : IsAccurate third_page five
view-IsAccurate_example = view-IsAccurate third_page five (omega arith) (cc)
