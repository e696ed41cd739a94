-- ===== src/Paging/Progress.antt =====
-- The pool does not get stuck, and has few fetches in flight.
use react_ai_healthycare.Base.{
  ℕ, zero, suc, ◌+◌, ◌-◌, ◌≤◌, ◌<◌, min, List, [], ◌∷◌, ◌++◌, some, true, false, ◌≡◌, refl, ap, ◌∙◌,
  arith, inl, inr, Bool-cases, length, length-append, nat_eq, ==_refl,
}
use react_ai_healthycare.Api.Records.{PaginatedResponse}
use react_ai_healthycare.Paging.{
  max_concurrent_pages, Result, done, Pool, is_in, take_next, settle, run, start, start_workers,
  new_pool, fetch_all_paginated, aggregate_meta,
}
use react_ai_healthycare.Paging.Invariant.{
  IsServing, is_schedule, Inv, pending, settle-Inv, settle_lem, settle-pending, run-Inv, start-Inv,
  start-pending, length-snoc,
}
use react_ai_healthycare.Paging.Laws.{all_items, fetch_all_paginated_lem}

module _ {T : Type 0} (count : ℕ) where
  -- While pages are left to take, a fetch is in flight.
  abbrev IsBusy : Pool T → Type 0
  IsBusy s = s.cursor < count → 1 ≤ length s.busy

  take_next-IsBusy : (s : Pool T) → s.aborted ≡ false → IsBusy (take_next count s)
  unfolding take_next
  take_next-IsBusy s h = ground (arith, h, length-snoc (s.cursor + 2) s.busy)

  take_next-alive : (s : Pool T) → s.aborted ≡ false → (take_next count s).aborted ≡ false
  unfolding take_next
  take_next-alive s h = ground (arith, h)

  start_workers-IsBusy :
      (k : ℕ) (s : Pool T) → s.aborted ≡ false → IsBusy s → IsBusy (start_workers count k s)
  unfolding start_workers
  start_workers-IsBusy zero s h b = b
  start_workers-IsBusy (suc k) s h b =
      start_workers-IsBusy k (take_next count s) (take_next-alive s h) (take_next-IsBusy s h)

first_workers :
    (T : Type 0) (count k : ℕ) → 1 ≤ k → IsBusy {T = T} count (start_workers count k new_pool)
unfolding start_workers
first_workers T count zero h = absurd (omega arith)
first_workers T count (suc k) h =
    start_workers-IsBusy count k (take_next count new_pool) (take_next-alive count new_pool refl)
      (take_next-IsBusy count new_pool refl)

start-IsBusy : (T : Type 0) (count : ℕ) → IsBusy {T = T} count (start count)
unfolding start
start-IsBusy T zero = λ h. absurd (omega (arith, h))
start-IsBusy T (suc n) = first_workers T (suc n) (min max_concurrent_pages (suc n)) (omega arith)

first_of : (qs : List ℕ) → 1 ≤ length qs → (q : ℕ) × (is_in q qs ≡ true)
first_of [] h = absurd (omega arith)
first_of (q ∷ qs) h = (q, ground (arith, ==_refl q))

module _ {T : Type 0} (server : ℕ → Result (PaginatedResponse T)) (pages : ℕ → PaginatedResponse T)
    (total : ℕ) (serving : IsServing server pages total) where
  settle-IsBusy :
      (p : ℕ) (s : Pool T)
      → Inv pages (total - 1) s
      → is_in p s.busy ≡ true
      → IsBusy (total - 1) (settle server (total - 1) p s)
  settle-IsBusy p s i b =
      rw (settle_lem server pages total serving p s i b) (take_next-IsBusy (total - 1) _ i.alive)

  run-IsBusy :
      (order : List ℕ) (s : Pool T)
      → Inv pages (total - 1) s
      → IsBusy (total - 1) s
      → is_schedule server (total - 1) order s ≡ true
      → IsBusy (total - 1) (run server (total - 1) order s)
  unfolding run
  run-IsBusy [] s i b h = b
  run-IsBusy (p ∷ order) s i b h = elim (Bool-cases (is_in p s.busy)) [
    | inl q ↦
        run-IsBusy order (settle server (total - 1) p s)
          (settle-Inv server pages total serving p s i q) (settle-IsBusy p s i q)
          (ground (arith, q, h))
    | inr q ↦ ground (arith, q, h)
  ]

  -- From a pool that waits, the pages in flight can be settled one after the other to the end.
  finish :
      (n : ℕ) (s : Pool T)
      → Inv pages (total - 1) s
      → IsBusy (total - 1) s
      → pending (total - 1) s ≡ n
      → (rest : List ℕ) × (is_schedule server (total - 1) rest s ≡ true) × (length rest ≡ n)
  finish zero s i b e = ([], refl, refl)
  finish (suc n) s i b e =
      let (q, here) = first_of s.busy (ground (arith, b, e)) in
      let next = settle server (total - 1) q s in
      let (rest, v, l) =
        finish n next (settle-Inv server pages total serving q s i here) (settle-IsBusy q s i here)
          (omega (arith, settle-pending server pages total serving q s i here, e)) in
      (q ∷ rest, ground (arith, here, v), ap suc l)

  schedule-append :
      (order rest : List ℕ) (s : Pool T)
      → is_schedule server (total - 1) order s ≡ true
      → is_schedule server (total - 1) rest (run server (total - 1) order s) ≡ true
      → is_schedule server (total - 1) (order ++ rest) s ≡ true
  unfolding run
  schedule-append [] rest s h k = k
  schedule-append (p ∷ order) rest s h k = elim (Bool-cases (is_in p s.busy)) [
    | inl q ↦
        let after =
          schedule-append order rest (settle server (total - 1) p s) (ground (arith, q, h)) k in
        ground (arith, q, after)
    | inr q ↦ ground (arith, q, h)
  ]

  -- If the fetch of each page that exists, the first always, settles with a response that has the
  -- page's number and the same number of pages, then after any settlements that the pool waits for,
  -- the fetches that are left can be settled so that the result is the items of all the pages in order.
  pub fetch_all_paginated_ends :
      (order : List ℕ)
      → is_schedule server (total - 1) order (start (total - 1)) ≡ true
      → (rest : List ℕ) × (fetch_all_paginated server (order ++ rest)
          ≡ some (
              done (record {
                items = all_items server pages total serving;
                meta =
                    aggregate_meta (pages 1).meta (length (all_items server pages total serving));
              })))
  fetch_all_paginated_ends order h =
      let s : Pool T = run server (total - 1) order (start (total - 1)) in
      let begin = start-Inv server pages total serving in
      let (i, e) = run-Inv server pages total serving order (start (total - 1)) begin h in
      let b = run-IsBusy order (start (total - 1)) begin (start-IsBusy T (total - 1)) h in
      let (rest, v, l) = finish (pending (total - 1) s) s i b refl in
      (
        rest,
        fetch_all_paginated_lem server pages total serving (order ++ rest)
            (schedule-append order rest (start (total - 1)) h v)
            (length-append order rest
              ∙ omega (arith, e, l, start-pending server pages total serving)),
      )
