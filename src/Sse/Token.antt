-- ===== src/Sse/Token.antt =====
-- frontend/src/lib/sseToken.ts: token requests that run at the same time share one promise. A promise
-- is named by the number of requests sent before its own.
use react_ai_healthycare.Base.{
  ℕ, suc, ◌+◌, ◌≤◌, ◌≡◌, refl, List, [], ◌∷◌, Option, none, some, if◌then◌else◌, eqb, arith, All,
}

pub record TokenCache : Type 0 where
  pub in_flight : Option ℕ
  pub requests : ℕ

abbrev pub empty_cache : TokenCache
empty_cache = record { in_flight = none; requests = 0 }

-- The promise that the caller awaits, with the cache afterwards.
unfoldable pub fetch_sse_token : TokenCache → TokenCache × ℕ
fetch_sse_token c = elim c.in_flight [
  | some promise ↦ (c, promise)
  | none ↦ (record { in_flight = some c.requests; requests = c.requests + 1 }, c.requests)
]

-- the `finally` of the promise
unfoldable pub settle : ℕ → TokenCache → TokenCache
settle promise c = elim c.in_flight [
  | none ↦ c
  | some p ↦ if eqb p promise then record c { in_flight = none } else c
]

pub data Event : Type 0 where
  fetch : Event
  settled : ℕ → Event

-- The cache after the events, and the promises that the fetches got.
unfoldable pub run : TokenCache → List Event → TokenCache × List ℕ
unfolding fetch_sse_token settle
run c [] = (c, [])
run c (fetch ∷ es) =
    let (c', promise) = fetch_sse_token c in
    let (end, promises) = run c' es in (end, promise ∷ promises)
run c (settled p ∷ es) = run (settle p c) es

abbrev pub settles : List Event → ℕ
settles [] = 0
settles (fetch ∷ es) = settles es
settles (settled p ∷ es) = suc (settles es)

abbrev one_if_some : Option ℕ → ℕ
one_if_some none = 0
one_if_some (some p) = 1

run_count :
    (c : TokenCache) (es : List Event)
    → (run c es).0.requests + one_if_some c.in_flight ≤ c.requests + settles es + 1
unfolding run
run_count c [] = ground arith
run_count c (fetch ∷ es) = ground (arith, run_count (fetch_sse_token c).0 es)
run_count c (settled p ∷ es) = ground (arith, run_count (settle p c) es)

-- However many callers ask, and in whatever order promises settle, no more requests are sent than
-- promises have settled, and one.
pub run-requests_le : (es : List Event) → (run empty_cache es).0.requests ≤ settles es + 1
run-requests_le es = omega (arith, run_count empty_cache es)

-- Until the promise in flight settles every caller gets that promise, and nothing more is sent.
pub run-shares :
    (c : TokenCache) (p : ℕ) (es : List Event)
    → c.in_flight ≡ some p
    → settles es ≡ 0
    → ((run c es).0 ≡ c) × All (λ q. q ≡ p) (run c es).1
unfolding run
run-shares c p [] h z = (refl, tt)
run-shares c p (fetch ∷ es) h z = ground (arith, run-shares c p es h z)
run-shares c p (settled q ∷ es) h z = absurd (omega arith)
