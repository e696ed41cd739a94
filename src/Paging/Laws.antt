-- ===== src/Paging/Laws.antt =====
-- The pool fetches every page once, whatever the order in which the fetches settle.
use mathlib.Core.List.{append-nil, append_assoc}
use react_ai_healthycare.Base.{
  if◌then◌else◌, leb, sym, inr, inl, Map, Bool-cases, ◌∙◌, ℕ, ◌+◌, ◌-◌, ◌≤◌, ◌<◌, suc, zero, List,
  [], ◌∷◌, ◌++◌, some, true, nat_eq, ==_iff, length, lookup, arith, ◌≡◌, ap, ◌⊎◌,
}
use react_ai_healthycare.Paging.{
  after_first, with_meta, start, aggregate_meta, fetch_all_paginated, outcome, pages_from, run,
  assemble, Result, done, Pool, is_in,
}
use react_ai_healthycare.Api.Records.{PaginatedResponse}
use react_ai_healthycare.Paging.Invariant.{
  IsServing, is_schedule, pending, Inv, run-Inv, start-Inv, start-pending, length-zero,
}

module _ {T : Type 0} where
  -- The items of `count` pages, in the order of the pages.
  abbrev pub items_from : (ℕ → PaginatedResponse T) → ℕ → ℕ → List T
  items_from pages p zero = []
  items_from pages p (suc count) = (pages p).items ++ items_from pages (suc p) count

  module _ (server : ℕ → Result (PaginatedResponse T)) (pages : ℕ → PaginatedResponse T) (total : ℕ)
      (serving : IsServing server pages total) where
    assemble-cons :
        (responses : Map ℕ (PaginatedResponse T)) (p : ℕ) (ps : List ℕ) (items : List T)
        (r : PaginatedResponse T)
        → lookup p responses ≡ some r
        → r.meta.total_pages ≡ total
        → r.meta.page ≡ p
        → assemble total responses (p ∷ ps) items ≡ assemble total responses ps (items ++ r.items)
    unfolding assemble
    assemble-cons responses p ps items r found same_total same_page =
        rw (assemble, found) ground (arith, ==_iff r.meta.total_pages total, ==_iff r.meta.page p)

    assemble_lem :
        (responses : Map ℕ (PaginatedResponse T)) (p count : ℕ) (items : List T)
        → 1 ≤ p
        → p + count ≤ suc (suc (total - 1))
        → ((q : ℕ) → p ≤ q → q < p + count → lookup q responses ≡ some (pages q))
        → assemble total responses (pages_from p count) items
          ≡ done (items ++ items_from pages p count)
    unfolding assemble pages_from
    assemble_lem responses p zero items a b h = ap done (sym (append-nil items))
    assemble_lem responses p (suc count) items a b h =
        assemble-cons responses p (pages_from (suc p) count) items (pages p)
          (h p (omega arith) (omega arith)) (serving.stable p a (omega (arith, b)))
          (serving.numbered p a (omega (arith, b)))
        ∙ (assemble_lem responses (suc p) count (items ++ (pages p).items) (omega arith)
              (omega (arith, b)) (λ q c d. h q (omega (arith, c)) (omega (arith, d)))
            ∙ ap done (append_assoc items (pages p).items (items_from pages (suc p) count)))

    not_busy :
        (q : ℕ) (s : Pool T)
        → (lookup q s.responses ≡ some (pages q)) ⊎ (is_in q s.busy ≡ true)
        → s.busy ≡ []
        → lookup q s.responses ≡ some (pages q)
    not_busy q s (inl e) idle = e
    not_busy q s (inr b) idle = ground (arith, ap (is_in q) idle, b)

    abbrev pub all_items : List T
    all_items = (pages 1).items ++ items_from pages 2 (total - 1)

    outcome_lem :
        (s : Pool T)
        → Inv pages (total - 1) s
        → pending (total - 1) s ≡ 0
        → outcome (pages 1) s
          ≡ some (
              done (record {
                items = all_items;
                meta = aggregate_meta (pages 1).meta (length all_items);
              }))
    outcome_lem s i h =
        let idle = length-zero s.busy (omega (arith, h)) in
        rw i.sound (
          rw idle (
            ap
              (λ z. some (
                with_meta (pages 1).meta
                  (assemble z s.responses (pages_from 2 (z - 1)) (pages 1).items)))
              (serving.stable 1 (omega arith) (omega arith))
            ∙ ap (λ z. some (with_meta (pages 1).meta z))
                (assemble_lem s.responses 2 (total - 1) (pages 1).items (omega arith) (omega arith)
                  (λ q a b.
                    not_busy q s (i.held q a (omega (arith, h, b)) (omega (arith, b))) idle))))

    one_page : leb total 1 ≡ true → (pages 1).items ≡ all_items
    one_page h =
        let none_left : total - 1 ≡ 0 = ground (arith, h) in
        sym (append-nil (pages 1).items)
        ∙ ap (λ z. (pages 1).items ++ items_from pages 2 z) (sym none_left)

    after_first_lem :
        (order : List ℕ)
        → after_first server order (done (pages 1)) ≡ (
            if leb total 1
            then some (with_meta (pages 1).meta (done (pages 1).items))
            else outcome (pages 1) (run server (total - 1) order (start (total - 1))))
    after_first_lem order =
        ap
          (λ z.
            if leb z 1
            then some (with_meta (pages 1).meta (done (pages 1).items))
            else outcome (pages 1) (run server (z - 1) order (start (z - 1))))
          (serving.stable 1 (omega arith) (omega arith))

    -- If the fetch of each page that exists, the first always, settles with a response that has the
    -- page's number and the same number of pages, then any order in which the workers' fetches settle
    -- gives the items of all the pages in the order of the pages, once as many have settled as there
    -- are pages after the first.
    pub fetch_all_paginated_lem :
        (order : List ℕ)
        → is_schedule server (total - 1) order (start (total - 1)) ≡ true
        → length order ≡ total - 1
        → fetch_all_paginated server order
          ≡ some (
              done (record {
                items = all_items;
                meta = aggregate_meta (pages 1).meta (length all_items);
              }))
    unfolding fetch_all_paginated
    fetch_all_paginated_lem order h e =
        ap (after_first server order) (serving.served 1 (omega arith) (omega arith))
        ∙ (after_first_lem order ∙ elim (Bool-cases (leb total 1)) [
          | inl few ↦ rw few (ap (λ z. some (with_meta (pages 1).meta (done z))) (one_page few))
          | inr many ↦
              let (i, d) =
                run-Inv server pages total serving order (start (total - 1))
                  (start-Inv server pages total serving) h in
              rw many
                (outcome_lem _ i (omega (arith, d, e, start-pending server pages total serving)))
        ])
