-- ===== src/Tests/Pages.antt =====
-- The pagination on natural numbers.
use blockchain_task_server.Common.{ℕ, ◌-◌, ◌*◌, none, some, ◌≡◌, refl, ◌≤◌, ltb}
use blockchain_task_server.Pagination.{Numbers, IsExact, computed, transform, transform_lem}

abbrev numbers : Numbers ℕ ℕ
numbers = record {
  number = λ v. v;
  of_ℕ = λ n. n;
  is_less_than = ltb;
  is_greater_than = λ a b. ltb b a;
  minus = λ a b. a - b;
  times = λ a b. a * b;
}

numbers-IsExact : IsExact numbers
numbers-IsExact = record {
  less_law = λ a b. refl;
  greater_law = λ a b. refl;
  minus_law = λ a b h. refl;
  times_law = λ a b. refl;
}

-- The third page, with a limit that is too high.
transform_lem_example :
    (page limit : ℕ) × (transform numbers
        (record { page = some 3; limit = some 2000; skip_items = none })
      ≡ record {
        page = some page;
        limit = some limit;
        skip_items = some (computed ((page - 1) * limit));
      })
    × (1 ≤ page)
    × (1 ≤ limit)
    × (limit ≤ 1000)
    × (1 ≤ 3 → page ≡ 3)
    × (1 ≤ 2000 → 2000 ≤ 1000 → limit ≡ 2000)
transform_lem_example = transform_lem numbers numbers-IsExact 3 2000 none 3 2000 refl refl
