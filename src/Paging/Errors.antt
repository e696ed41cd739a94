-- ===== src/Paging/Errors.antt =====
-- A page whose fetch fails.
use react_ai_healthycare.Base.{
  ℕ, ◌-◌, List, [], ◌∷◌, none, some, true, false, ◌≡◌, refl, ap, ◌∙◌, ◌++◌, arith, Bool-cases, inl,
  inr, leb,
}
use react_ai_healthycare.Api.Records.{PaginatedResponse}
use react_ai_healthycare.Paging.{
  Failure, Result, done, thrown, Pool, is_in, take_next, settled, settle, run, start,
  fetch_all_paginated, after_first,
}

module _ {T : Type 0} (server : ℕ → Result (PaginatedResponse T)) (count : ℕ) where
  settled-failure :
      (p : ℕ) (r : Result (PaginatedResponse T)) (s : Pool T) (e : Failure)
      → s.failure ≡ some e
      → (settled count p r s).failure ≡ some e
  unfolding settled take_next
  settled-failure p (thrown f) s e h = ground (arith, h)
  settled-failure p (done r) s e h = ground (arith, h)

  settle-failure :
      (p : ℕ) (s : Pool T) (e : Failure)
      → s.failure ≡ some e
      → (settle server count p s).failure ≡ some e
  unfolding settle
  settle-failure p s e h = elim (Bool-cases (is_in p s.busy)) [
    | inl b ↦ rw b (settled-failure p (server p) _ e h)
    | inr b ↦ rw b h
  ]

  run-failure :
      (order : List ℕ) (s : Pool T) (e : Failure)
      → s.failure ≡ some e
      → (run server count order s).failure ≡ some e
  unfolding run
  run-failure [] s e h = h
  run-failure (p ∷ order) s e h =
      run-failure order (settle server count p s) e (settle-failure p s e h)

  run-append :
      (before after : List ℕ) (s : Pool T)
      → run server count (before ++ after) s ≡ run server count after (run server count before s)
  unfolding run
  run-append [] after s = refl
  run-append (p ∷ before) after s = run-append before after (settle server count p s)

  first-failure :
      (p : ℕ) (s : Pool T) (e : Failure)
      → is_in p s.busy ≡ true
      → s.failure ≡ none
      → server p ≡ thrown e
      → (settle server count p s).failure ≡ some e
  unfolding settle settled
  first-failure p s e b n f = rw b (rw f (ground (arith, n)))

-- If the first page has come, further pages remain, and of those in flight the fetch of `p` is the
-- first to fail, then the whole fetch fails with that error, whatever settles afterwards.
pub fetch_all_paginated-failure :
    {T : Type 0} (server : ℕ → Result (PaginatedResponse T)) (first : PaginatedResponse T)
    (before after : List ℕ) (p : ℕ) (e : Failure)
    → server 1 ≡ done first
    → leb first.meta.total_pages 1 ≡ false
    → let s = run server (first.meta.total_pages - 1) before (start (first.meta.total_pages - 1)) in
      is_in p s.busy ≡ true
      → s.failure ≡ none
      → server p ≡ thrown e
      → fetch_all_paginated server (before ++ p ∷ after) ≡ some (thrown e)
unfolding fetch_all_paginated
fetch_all_paginated-failure server first before after p e one many b n f =
    let count = first.meta.total_pages - 1 in
    let s = run server count before (start count) in
    ap (after_first server (before ++ p ∷ after)) one
    ∙ rw many (
        rw (run-append server count before (p ∷ after) (start count)) (
          rw
            (run-failure server count after (settle server count p s) e
              (first-failure server count p s e b n f))
            refl))
