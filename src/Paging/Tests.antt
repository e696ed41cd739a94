-- ===== src/Paging/Tests.antt =====
-- Three pages of one item each, the third of which settles first.
use react_ai_healthycare.Base.{
  List, length, ◌≤◌, none, if◌then◌else◌, ◌==◌, nat_eq, ℕ, [], ◌∷◌, some, ◌≡◌, refl, true,
}
use react_ai_healthycare.Paging.Progress.{fetch_all_paginated_ends}
use react_ai_healthycare.Paging.Bounds.{run-start_bound}
use react_ai_healthycare.Paging.Errors.{fetch_all_paginated-failure}
use react_ai_healthycare.Paging.{
  thrown, fetch_error, is_in, run, aggregate_meta, Result, done, fetch_all_paginated, start,
  start_workers, take_next, settle, settled,
}
use react_ai_healthycare.Api.Records.{PaginatedResponse}
use react_ai_healthycare.Paging.Invariant.{IsServing, is_schedule}
use react_ai_healthycare.Paging.Laws.{fetch_all_paginated_lem}

abbrev page : ℕ → PaginatedResponse ℕ
page p = record {
  items = p ∷ [];
  meta = record { total = 3; page = p; per_page = 200; total_pages = 3 };
}

abbrev server : ℕ → Result (PaginatedResponse ℕ)
server p = done (page p)

page-IsServing : IsServing server page 3
page-IsServing = record { served = λ p a b. refl; numbered = λ p a b. refl; stable = λ p a b. refl }

third_first : is_schedule server 2 (3 ∷ 2 ∷ []) (start 2) ≡ true
unfolding start start_workers take_next settle settled
third_first = refl

fetch_all_paginated_example :
    fetch_all_paginated server (3 ∷ 2 ∷ [])
    ≡ some (
        done (record {
          items = 1 ∷ 2 ∷ 3 ∷ [];
          meta = record { total = 3; page = 1; per_page = 3; total_pages = 3 };
        }))
unfolding aggregate_meta
fetch_all_paginated_example =
    fetch_all_paginated_lem server page 3 page-IsServing (3 ∷ 2 ∷ []) third_first refl

-- The same, but the second page fails.
abbrev broken : ℕ → Result (PaginatedResponse ℕ)
broken p = if p == 2 then thrown (fetch_error "offline") else done (page p)

second_waits : is_in 2 (run broken 2 (3 ∷ []) (start 2)).busy ≡ true
unfolding run start start_workers take_next settle settled
second_waits = refl

none_failed : (run broken 2 (3 ∷ []) (start 2)).failure ≡ none
unfolding run start start_workers take_next settle settled
none_failed = refl

fetch_all_paginated-failure_example :
    fetch_all_paginated broken (3 ∷ 2 ∷ []) ≡ some (thrown (fetch_error "offline"))
fetch_all_paginated-failure_example =
    fetch_all_paginated-failure broken (page 1) (3 ∷ []) [] 2 (fetch_error "offline") refl refl
      second_waits none_failed refl

-- The third page has come, and the second is in flight.
one_came : is_schedule server 2 (3 ∷ []) (start 2) ≡ true
unfolding start start_workers take_next settle settled
one_came = refl

fetch_all_paginated_ends_example :
    (rest : List ℕ) × (fetch_all_paginated server (3 ∷ rest)
      ≡ some (
          done (record {
            items = 1 ∷ 2 ∷ 3 ∷ [];
            meta = record { total = 3; page = 1; per_page = 3; total_pages = 3 };
          })))
unfolding aggregate_meta
fetch_all_paginated_ends_example =
    fetch_all_paginated_ends server page 3 page-IsServing (3 ∷ []) one_came

run-start_bound_example : length (run broken 40 (5 ∷ 2 ∷ []) (start 40)).busy ≤ 6
run-start_bound_example = run-start_bound 40 broken (5 ∷ 2 ∷ [])
