-- ===== src/Clusters/Laws.antt =====
-- The result of an expansion does not change, and comes.
use mathlib.Core.Path.{subst}
use react_ai_healthycare.Base.{
  List, [], ◌∷◌, ◌++◌, Option, none, some, Bool, true, false, ◌≡◌, refl, sym, arith,
}
use react_ai_healthycare.Clusters.{
  parse_cluster_center, parse_cluster_id, ClusterFeature, Phase, asking, waiting, resolved,
  Expansion, begin, expand_map_signal_cluster, Zoomed, near, moving, throwing, Event, zoom_comes,
  zoom_fails, move_ends, times_out, step, run,
}
use react_ai_healthycare.Api.Json.{Json}

-- While the movement is awaited, the timeout and the listener are there; with the inner promise
-- settled they are not.
abbrev pub Fits : Phase → (settled timer listening : Bool) → Type 0
Fits asking settled timer listening = (settled ≡ false) × (timer ≡ false) × (listening ≡ false)
Fits waiting settled timer listening = (settled ≡ false) × (timer ≡ true) × (listening ≡ true)
Fits (resolved r) settled timer listening = (timer ≡ listening) × (timer ≡ true → settled ≡ false)

abbrev pub IsFitting : Expansion → Type 0
IsFitting s = Fits s.phase s.settled s.timer s.listening

abbrev at : Phase → (settled timer listening : Bool) → Expansion
at p settled timer listening = record {
  phase = p;
  settled = settled;
  timer = timer;
  listening = listening;
}

abbrev IsEnded : Phase → Type 0
IsEnded asking = ⊥
IsEnded waiting = ⊥
IsEnded (resolved r) = Unit

-- The result stays.
abbrev IsKept : Phase → Phase → Type 0
IsKept (resolved r) q = q ≡ resolved r
IsKept asking q = Unit
IsKept waiting q = Unit

step-Fits :
    (e : Event) (p : Phase) (settled timer listening : Bool)
    → Fits p settled timer listening
    → IsFitting (step e (at p settled timer listening))
      × IsKept p (step e (at p settled timer listening)).phase
unfolding step
step-Fits (zoom_comes near) asking settled timer listening h = ground (arith, h)
step-Fits (zoom_comes moving) asking settled timer listening h = ground (arith, h)
step-Fits (zoom_comes throwing) asking settled timer listening h = ground (arith, h)
step-Fits (zoom_comes z) waiting settled timer listening h = (h, tt)
step-Fits (zoom_comes z) (resolved r) settled timer listening h = (h, refl)
step-Fits zoom_fails asking settled timer listening h = ground (arith, h)
step-Fits zoom_fails waiting settled timer listening h = ground (arith, h)
step-Fits zoom_fails (resolved r) settled timer listening h = ground (arith, h)
step-Fits move_ends asking true timer true h = ground (arith, h)
step-Fits move_ends asking true timer false h = ground (arith, h)
step-Fits move_ends asking false timer true h = ground (arith, h)
step-Fits move_ends asking false timer false h = ground (arith, h)
step-Fits move_ends waiting true timer true h = ground (arith, h)
step-Fits move_ends waiting true timer false h = ground (arith, h)
step-Fits move_ends waiting false timer true h = ground (arith, h)
step-Fits move_ends waiting false timer false h = ground (arith, h)
step-Fits move_ends (resolved r) true timer true h = ground (arith, h)
step-Fits move_ends (resolved r) true timer false h = ground (arith, h)
step-Fits move_ends (resolved r) false timer true h = ground (arith, h)
step-Fits move_ends (resolved r) false timer false h = ground (arith, h)
step-Fits times_out asking true true listening h = ground (arith, h)
step-Fits times_out asking true false listening h = ground (arith, h)
step-Fits times_out asking false true listening h = ground (arith, h)
step-Fits times_out asking false false listening h = ground (arith, h)
step-Fits times_out waiting true true listening h = ground (arith, h)
step-Fits times_out waiting true false listening h = ground (arith, h)
step-Fits times_out waiting false true listening h = ground (arith, h)
step-Fits times_out waiting false false listening h = ground (arith, h)
step-Fits times_out (resolved r) true true listening h = ground (arith, h)
step-Fits times_out (resolved r) true false listening h = ground (arith, h)
step-Fits times_out (resolved r) false true listening h = ground (arith, h)
step-Fits times_out (resolved r) false false listening h = ground (arith, h)

step-IsFitting : (e : Event) (s : Expansion) → IsFitting s → IsFitting (step e s)
step-IsFitting e s h = (step-Fits e s.phase s.settled s.timer s.listening h).0

run-IsFitting : (es : List Event) (s : Expansion) → IsFitting s → IsFitting (run es s)
run-IsFitting [] s h = h
run-IsFitting (e ∷ es) s h = run-IsFitting es (step e s) (step-IsFitting e s h)

IsKept-refl : (p : Phase) → IsKept p p
IsKept-refl asking = tt
IsKept-refl waiting = tt
IsKept-refl (resolved r) = refl

IsKept-trans : (p q r : Phase) → IsKept p q → IsKept q r → IsKept p r
IsKept-trans asking q r h k = tt
IsKept-trans waiting q r h k = tt
IsKept-trans (resolved b) q r h k = subst (λ s. IsKept s r) h k

run-IsKept : (es : List Event) (s : Expansion) → IsFitting s → IsKept s.phase (run es s).phase
run-IsKept [] s h = IsKept-refl s.phase
run-IsKept (e ∷ es) s h =
    IsKept-trans s.phase (step e s).phase (run es (step e s)).phase
      (step-Fits e s.phase s.settled s.timer s.listening h).1
      (run-IsKept es (step e s) (step-IsFitting e s h))

-- The promise has its result, and neither the timeout nor the listener is left.
abbrev pub IsOver : Expansion → Type 0
IsOver s = ((r : Bool) × (s.phase ≡ resolved r)) × (s.timer ≡ false) × (s.listening ≡ false)

timed_out :
    (p : Phase) (settled timer listening : Bool)
    → Fits p settled timer listening
    → (z : Zoomed) → IsOver (run (zoom_comes z ∷ times_out ∷ []) (at p settled timer listening))
unfolding step
timed_out asking false false false h near = ((true, refl), refl, refl)
timed_out asking false false false h moving = ((false, refl), refl, refl)
timed_out asking false false false h throwing = ((false, refl), refl, refl)
timed_out asking false false true h z = absurd (ground (arith, h))
timed_out asking false true listening h z = absurd (ground (arith, h))
timed_out asking true timer listening h z = absurd (ground (arith, h))
timed_out waiting false true listening h z = ((false, refl), refl, refl)
timed_out waiting false false listening h z = absurd (ground (arith, h))
timed_out waiting true timer listening h z = absurd (ground (arith, h))
timed_out (resolved r) false true listening h z = ((r, refl), refl, refl)
timed_out (resolved r) settled false listening h z = ((r, refl), refl, sym h.0)
timed_out (resolved r) true true listening h z = absurd (ground (arith, h))

run-append :
    (before after : List Event) (s : Expansion) → run (before ++ after) s ≡ run after (run before s)
run-append [] after s = refl
run-append (e ∷ before) after s = run-append before after (step e s)

start-IsFitting :
    {N : Type 0} (number : Option Json → Option N) (feature : ClusterFeature)
    → IsFitting (expand_map_signal_cluster number feature)
unfolding expand_map_signal_cluster
start-IsFitting number feature =
    begin_fits (parse_cluster_id number feature) (parse_cluster_center number feature)
  where
    begin_fits : {A B : Type 0} (o : Option A) (q : Option B) → Fits (begin o q) false false false
    begin_fits (some id) (some center) = (refl, refl, refl)
    begin_fits (some id) none = (refl, λ e. refl)
    begin_fits none q = (refl, λ e. refl)

-- Whatever came before, once the zoom has come and then the timeout, the expansion of a cluster has a
-- result, neither the timeout nor the listener is left, and the result stays whatever comes after.
pub expansion_ends :
    {N : Type 0} (number : Option Json → Option N) (feature : ClusterFeature) (z : Zoomed)
    (before after : List Event)
    → let s =
        run (before ++ zoom_comes z ∷ times_out ∷ []) (expand_map_signal_cluster number feature) in
      IsOver s × ((r : Bool) → s.phase ≡ resolved r → (run after s).phase ≡ resolved r)
expansion_ends number feature z before after =
    let begun = expand_map_signal_cluster number feature in
    let s = run before begun in
    let t = run (before ++ zoom_comes z ∷ times_out ∷ []) begun in
    let fits = run-IsFitting before begun (start-IsFitting number feature) in
    let over : IsOver t =
      subst IsOver (sym (run-append before (zoom_comes z ∷ times_out ∷ []) begun))
        (timed_out s.phase s.settled s.timer s.listening fits z) in
    let kept = run-IsKept after t (
      run-IsFitting (before ++ zoom_comes z ∷ times_out ∷ []) begun
        (start-IsFitting number feature)) in
    (over, λ r e. subst (λ p. IsKept p (run after t).phase) e kept)
