-- ===== src/Paging/Invariant.antt =====
-- The pool while every fetch succeeds: which pages it holds, and how many are still to come.

use react_ai_healthycare.Base.{
  min, inr, inl, lookup-insert, Bool-cases, insert, ◌∙◌, ℕ, ◌+◌, ◌-◌, ◌≤◌, ◌<◌, suc, zero, List, [],
  ◌∷◌, ◌++◌, none, some, Bool, true, false, ◌&&◌, ◌||◌, ◌==◌, nat_eq, ==_iff, length, lookup, arith,
  ◌≡◌, refl, ap, ◌⊎◌,
}
use react_ai_healthycare.Paging.{
  max_concurrent_pages, start, run, start_workers, settled, new_pool, Result, done, Pool,
  remove_first, is_in, take_next, settle,
}
use react_ai_healthycare.Api.Records.{PaginatedResponse}

is_in-append : (p q : ℕ) (qs : List ℕ) → is_in p (qs ++ q ∷ []) ≡ (is_in p qs || q == p)
is_in-append p q [] = ground arith
is_in-append p q (r ∷ qs) = ground (arith, is_in-append p q qs)

is_in-remove_first :
    (p q : ℕ) (qs : List ℕ) → is_in p (remove_first q qs) ≡ true → is_in p qs ≡ true
is_in-remove_first p q [] h = h
is_in-remove_first p q (r ∷ qs) h = ground (arith, is_in-remove_first p q qs)

is_in-remove_other :
    (p q : ℕ) (qs : List ℕ) → (q == p) ≡ false → is_in p (remove_first q qs) ≡ is_in p qs
is_in-remove_other p q [] h = refl
is_in-remove_other p q (r ∷ qs) h =
    ground (arith, is_in-remove_other p q qs h, ==_iff r q, ==_iff r p, ==_iff q p)

pub length-remove_first :
    (q : ℕ) (qs : List ℕ) → is_in q qs ≡ true → suc (length (remove_first q qs)) ≡ length qs
length-remove_first q [] h = ground arith
length-remove_first q (r ∷ qs) h = ground (arith, length-remove_first q qs)

pub length-snoc : (q : ℕ) (qs : List ℕ) → length (qs ++ q ∷ []) ≡ suc (length qs)
length-snoc q [] = refl
length-snoc q (r ∷ qs) = ap suc (length-snoc q qs)

pub length-zero : (qs : List ℕ) → length qs ≡ 0 → qs ≡ []
length-zero [] h = refl
length-zero (q ∷ qs) h = ground (arith, h)

module _ {T : Type 0} where
  -- The server answers each page that exists, the first always, with that page and one total.
  pub record IsServing (server : ℕ → Result (PaginatedResponse T)) (pages : ℕ → PaginatedResponse T)
      (total : ℕ) : Type 0 where
    pub served : (p : ℕ) → 1 ≤ p → p ≤ suc (total - 1) → server p ≡ done (pages p)
    pub numbered : (p : ℕ) → 1 ≤ p → p ≤ suc (total - 1) → (pages p).meta.page ≡ p
    pub stable : (p : ℕ) → 1 ≤ p → p ≤ suc (total - 1) → (pages p).meta.total_pages ≡ total

  -- Each settlement is one that the pool waits for.
  abbrev pub is_schedule : (ℕ → Result (PaginatedResponse T)) → ℕ → List ℕ → Pool T → Bool
  is_schedule server count [] s = true
  is_schedule server count (p ∷ order) s =
      is_in p s.busy && is_schedule server count order (settle server count p s)

  -- the settlements that are still to come
  abbrev pub pending : ℕ → Pool T → ℕ
  pending count s = length s.busy + (count - s.cursor)

  pub record Inv (pages : ℕ → PaginatedResponse T) (count : ℕ) (s : Pool T) : Type 0 where
    pub alive : s.aborted ≡ false
    pub sound : s.failure ≡ none
    pub in_range : (p : ℕ) → is_in p s.busy ≡ true → (2 ≤ p) × (p < s.cursor + 2) × (p ≤ suc count)
    pub held :
        (p : ℕ)
        → 2 ≤ p
        → p < s.cursor + 2
        → p ≤ suc count
        → (lookup p s.responses ≡ some (pages p)) ⊎ (is_in p s.busy ≡ true)

  module _ (pages : ℕ → PaginatedResponse T) (count : ℕ) where
    pub take_next-Inv : (s : Pool T) → Inv pages count s → Inv pages count (take_next count s)
    unfolding take_next
    take_next-Inv s i = record {
      alive = ground (arith, i.alive);
      sound = ground (arith, i.alive, i.sound);
      in_range = λ p h. ground (
        arith,
        i.alive,
        i.in_range p,
        is_in-append p (s.cursor + 2) s.busy,
        ==_iff (s.cursor + 2) p,
      );
      held = λ p a b c.
          ground (
            arith,
            i.alive,
            i.held p,
            is_in-append p (s.cursor + 2) s.busy,
            ==_iff (s.cursor + 2) p,
          );
    }

    take_next-pending :
        (s : Pool T) → s.aborted ≡ false → pending count (take_next count s) ≡ pending count s
    unfolding take_next
    take_next-pending s h = ground (arith, h, length-snoc (s.cursor + 2) s.busy)

    -- After the page of a busy worker is stored, and before that worker goes on.
    store-Inv :
        (p : ℕ) (s : Pool T)
        → Inv pages count s
        → is_in p s.busy ≡ true
        → Inv pages count
            (record s { busy = remove_first p s.busy; responses = insert p (pages p) s.responses })
    store-Inv p s i b = record {
      alive = i.alive;
      sound = i.sound;
      in_range = λ q h. i.in_range q (is_in-remove_first q p s.busy h);
      held = λ q a c d. ground (
        arith,
        i.held q a c d,
        lookup-insert p q (pages p) s.responses,
        is_in-remove_other q p s.busy,
        ==_iff p q,
      );
    }

    pub start_workers-Inv :
        (k : ℕ) (s : Pool T) → Inv pages count s → Inv pages count (start_workers count k s)
    unfolding start_workers
    start_workers-Inv zero s i = i
    start_workers-Inv (suc k) s i = start_workers-Inv k (take_next count s) (take_next-Inv s i)

    start_workers-pending :
        (k : ℕ) (s : Pool T)
        → Inv pages count s
        → pending count (start_workers count k s) ≡ pending count s
    unfolding start_workers
    start_workers-pending zero s i = refl
    start_workers-pending (suc k) s i =
        start_workers-pending k (take_next count s) (take_next-Inv s i)
        ∙ take_next-pending s i.alive

    new_pool-Inv : Inv pages count new_pool
    new_pool-Inv = record {
      alive = refl;
      sound = refl;
      in_range = λ p h. ground (arith, h);
      held = λ p a b c. ground arith;
    }

  module _ (server : ℕ → Result (PaginatedResponse T)) (pages : ℕ → PaginatedResponse T) (total : ℕ)
      (serving : IsServing server pages total) where
    pub settle_lem :
        (p : ℕ) (s : Pool T)
        → Inv pages (total - 1) s
        → is_in p s.busy ≡ true
        → settle server (total - 1) p s
          ≡ take_next (total - 1) (record s {
            busy = remove_first p s.busy;
            responses = insert p (pages p) s.responses;
          })
    unfolding settle settled
    settle_lem p s i b =
        rw b (
          rw (serving.served p (omega (arith, i.in_range p b)) (i.in_range p b).2)
            (rw i.alive refl))

    pub settle-Inv :
        (p : ℕ) (s : Pool T)
        → Inv pages (total - 1) s
        → is_in p s.busy ≡ true
        → Inv pages (total - 1) (settle server (total - 1) p s)
    settle-Inv p s i b =
        rw (settle_lem p s i b)
          (take_next-Inv pages (total - 1) _ (store-Inv pages (total - 1) p s i b))

    pub settle-pending :
        (p : ℕ) (s : Pool T)
        → Inv pages (total - 1) s
        → is_in p s.busy ≡ true
        → suc (pending (total - 1) (settle server (total - 1) p s)) ≡ pending (total - 1) s
    settle-pending p s i b =
        let stored = record s {
          busy = remove_first p s.busy;
          responses = insert p (pages p) s.responses;
        } in
        rw (settle_lem p s i b) omega (
          arith,
          take_next-pending pages (total - 1) stored i.alive,
          length-remove_first p s.busy b,
        )

    pub run-Inv :
        (order : List ℕ) (s : Pool T)
        → Inv pages (total - 1) s
        → is_schedule server (total - 1) order s ≡ true
        → Inv pages (total - 1) (run server (total - 1) order s)
          × (length order + pending (total - 1) (run server (total - 1) order s)
              ≡ pending (total - 1) s)
    unfolding run
    run-Inv [] s i h = (i, omega arith)
    run-Inv (p ∷ order) s i h = elim (Bool-cases (is_in p s.busy)) [
      | inl b ↦
          let (j, e) =
            run-Inv order (settle server (total - 1) p s) (settle-Inv p s i b)
              (ground (arith, b, h)) in
          (j, omega (arith, e, settle-pending p s i b))
      | inr b ↦ ground (arith, b, h)
    ]

    pub start-pending : pending (total - 1) (start (total - 1)) ≡ total - 1
    unfolding start
    start-pending =
        start_workers-pending pages (total - 1) (min max_concurrent_pages (total - 1)) new_pool
          (new_pool-Inv pages (total - 1))
        ∙ omega arith

    pub start-Inv : Inv pages (total - 1) (start (total - 1))
    unfolding start
    start-Inv =
        start_workers-Inv pages (total - 1) (min max_concurrent_pages (total - 1)) new_pool
          (new_pool-Inv pages (total - 1))
