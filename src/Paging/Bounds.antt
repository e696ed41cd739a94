-- ===== src/Paging/Bounds.antt =====
-- At most six fetches are in flight.
use react_ai_healthycare.Base.{
  ℕ, zero, suc, ◌+◌, ◌≤◌, min, List, [], ◌∷◌, Bool, true, false, arith, inl, inr, Bool-cases,
  length, insert, nat_eq, if◌then◌else◌,
}
use react_ai_healthycare.Api.Records.{PaginatedResponse}
use react_ai_healthycare.Paging.{
  max_concurrent_pages, Result, done, thrown, Pool, is_in, take_next, settled, settle, run, start,
  start_workers, new_pool, remove_first,
}
use react_ai_healthycare.Paging.Invariant.{length-snoc, length-remove_first}

module _ {T : Type 0} (count : ℕ) where
  abbrev in_flight : Pool T → ℕ
  in_flight s = length s.busy

  take_next_le : (s : Pool T) → in_flight (take_next count s) ≤ suc (in_flight s)
  unfolding take_next
  take_next_le s = ground (arith, length-snoc (s.cursor + 2) s.busy)

  start_workers_le : (k : ℕ) (s : Pool T) → in_flight (start_workers count k s) ≤ in_flight s + k
  unfolding start_workers
  start_workers_le zero s = omega arith
  start_workers_le (suc k) s = omega (arith, start_workers_le k (take_next count s), take_next_le s)

  either :
      (b : Bool) (s t : Pool T) (m : ℕ)
      → in_flight s ≤ m
      → in_flight t ≤ m
      → in_flight (if b then s else t) ≤ m
  either true s t m h k = h
  either false s t m h k = k

  settled_le :
      (p : ℕ) (r : Result (PaginatedResponse T)) (s : Pool T)
      → in_flight (settled count p r s) ≤ suc (in_flight s)
  unfolding settled
  settled_le p (thrown e) s = omega arith
  settled_le p (done r) s =
      let stored = record s { responses = insert p r s.responses } in
      either s.aborted s (take_next count stored) _ (omega arith) (take_next_le stored)

  module _ (server : ℕ → Result (PaginatedResponse T)) where
    settle_le : (p : ℕ) (s : Pool T) → in_flight (settle server count p s) ≤ in_flight s
    unfolding settle
    settle_le p s = elim (Bool-cases (is_in p s.busy)) [
      | inl h ↦ rw h (
          omega (
            arith,
            settled_le p (server p) (record s { busy = remove_first p s.busy }),
            length-remove_first p s.busy h,
          ))
      | inr h ↦ rw h (omega arith)
    ]

    run_le : (order : List ℕ) (s : Pool T) → in_flight (run server count order s) ≤ in_flight s
    unfolding run
    run_le [] s = omega arith
    run_le (p ∷ order) s = omega (arith, run_le order (settle server count p s), settle_le p s)

    -- Whatever the server answers, and in whatever order, at most six fetches are in flight at a time,
    -- and no more than there are pages after the first.
    pub run-start_bound :
        (order : List ℕ) → length (run server count order (start count)).busy ≤ min 6 count
    unfolding start
    run-start_bound order = omega (
      arith,
      run_le order (start count),
      start_workers_le (min max_concurrent_pages count) new_pool,
    )
