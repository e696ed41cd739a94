-- ===== src/Paging.antt =====
-- frontend/src/hooks/fetchAllPaginated.ts: all pages of a list, fetched by a pool of workers. An
-- `await` is a point where the pool waits; the order in which the fetches settle is a list of pages.
-- `fetchPage` is the parameter `server`, what a fetch of a page settles with.
pub mod Invariant
pub mod Laws
pub mod Errors
pub mod Progress
pub mod Bounds
mod Tests
use react_ai_healthycare.Base.{
  ℕ, String, ◌+◌, ◌-◌, suc, zero, min, List, [], ◌∷◌, ◌++◌, Option, none, some, Bool, true, false,
  not, if◌then◌else◌, ◌==◌, nat_eq, any, length, ltb, leb, Map, lookup, insert, ◌or_else◌,
}
use react_ai_healthycare.Api.Records.{PaginationMeta, PaginatedResponse}

abbrev pub max_concurrent_pages : ℕ
max_concurrent_pages = 6

-- The errors thrown here, with the numbers in their texts, and the error of a fetch.
pub data Failure : Type 0 where
  missing : (page : ℕ) → Failure
  drifted : (page expected received : ℕ) → Failure
  wrong_page : (received page : ℕ) → Failure
  fetch_error : (reason : String) → Failure

pub data Result (A : Type 0) : Type 0 where
  done : A → Result A
  thrown : Failure → Result A

unfoldable pub aggregate_meta : PaginationMeta → ℕ → PaginationMeta
aggregate_meta meta count = record {
  total = meta.total;
  page = 1;
  per_page = count;
  total_pages = meta.total_pages;
}

-- `Array.from({ length }, (_, index) => index + start)`
unfoldable pub pages_from : ℕ → ℕ → List ℕ
pages_from start zero = []
pages_from start (suc count) = start ∷ pages_from (suc start) count

-- `busy` holds the page each running worker waits for.
pub record Pool (T : Type 0) : Type 0 where
  pub cursor : ℕ
  pub aborted : Bool
  pub failure : Option Failure
  pub responses : Map ℕ (PaginatedResponse T)
  pub busy : List ℕ

abbrev pub remove_first : ℕ → List ℕ → List ℕ
remove_first p [] = []
remove_first p (q ∷ qs) = if q == p then qs else q ∷ remove_first p qs

abbrev pub is_in : ℕ → List ℕ → Bool
is_in p = any (λ q. q == p)

module _ {T : Type 0} where
  abbrev pub new_pool : Pool T
  new_pool = record { cursor = 0; aborted = false; failure = none; responses = []; busy = [] }

  -- A worker from the head of its loop to its next `await` or its end; `count` pages remain in all.
  unfoldable pub take_next : ℕ → Pool T → Pool T
  take_next count s =
      if s.aborted
      then s
      else if ltb s.cursor count
      then record s { cursor = suc s.cursor; busy = s.busy ++ (s.cursor + 2) ∷ [] }
      else record s { cursor = suc s.cursor }

  unfoldable pub start_workers : ℕ → ℕ → Pool T → Pool T
  unfolding take_next
  start_workers count zero s = s
  start_workers count (suc k) s = start_workers count k (take_next count s)

  -- `Promise.all` rejects with the first error.
  unfoldable pub settled : ℕ → ℕ → Result (PaginatedResponse T) → Pool T → Pool T
  unfolding take_next
  settled count p (thrown e) s = record s { aborted = true; failure = s.failure or_else some e }
  settled count p (done r) s =
      if s.aborted then s else take_next count (record s { responses = insert p r s.responses })

  unfoldable pub settle : (ℕ → Result (PaginatedResponse T)) → ℕ → ℕ → Pool T → Pool T
  unfolding settled
  settle server count p s =
      if is_in p s.busy
      then settled count p (server p) (record s { busy = remove_first p s.busy })
      else s

  unfoldable pub run : (ℕ → Result (PaginatedResponse T)) → ℕ → List ℕ → Pool T → Pool T
  unfolding settle
  run server count [] s = s
  run server count (p ∷ order) s = run server count order (settle server count p s)

  unfoldable pub start : ℕ → Pool T
  unfolding start_workers
  start count = start_workers count (min max_concurrent_pages count) new_pool

  -- the loop over `remainingPages` at the end
  unfoldable pub assemble : ℕ → Map ℕ (PaginatedResponse T) → List ℕ → List T → Result (List T)
  assemble total responses [] items = done items
  assemble total responses (p ∷ ps) items = elim (lookup p responses) [
    | none ↦ thrown (missing p)
    | some r ↦
        let rest = assemble total responses ps (items ++ r.items) in
        if not (r.meta.total_pages == total)
        then thrown (drifted p total r.meta.total_pages)
        else if not (r.meta.page == p)
        then thrown (wrong_page r.meta.page p)
        else rest
  ]

  abbrev pub with_meta : PaginationMeta → Result (List T) → Result (PaginatedResponse T)
  with_meta meta (thrown e) = thrown e
  with_meta meta (done items) =
      done (record { items = items; meta = aggregate_meta meta (length items) })

  -- what is known of the promise once the pool stands at `s`
  abbrev pub outcome : PaginatedResponse T → Pool T → Option (Result (PaginatedResponse T))
  outcome first s = elim s.failure [
    | some e ↦ some (thrown e)
    | none ↦ elim s.busy [
      | q ∷ qs ↦ none
      | [] ↦
          let total = first.meta.total_pages in
          some (
            with_meta first.meta
              (assemble total s.responses (pages_from 2 (total - 1)) first.items))
    ]
  ]

  abbrev pub after_first :
      (ℕ → Result (PaginatedResponse T))
      → List ℕ
      → Result (PaginatedResponse T)
      → Option (Result (PaginatedResponse T))
  after_first server order (thrown e) = some (thrown e)
  after_first server order (done first) =
      let count = first.meta.total_pages - 1 in
      if leb first.meta.total_pages 1
      then some (with_meta first.meta (done first.items))
      else outcome first (run server count order (start count))

  -- The result once the pages of `order` have settled, one after the other; none while it is pending.
  unfoldable pub fetch_all_paginated :
      (ℕ → Result (PaginatedResponse T)) → List ℕ → Option (Result (PaginatedResponse T))
  unfolding aggregate_meta run start assemble pages_from
  fetch_all_paginated server order = after_first server order (server 1)
