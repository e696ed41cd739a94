-- ===== src/Triage/Laws.antt =====
-- The focus is on a match of the list, and a key moves that match and no other.
use mathlib.Core.Path.{subst}
use react_ai_healthycare.Base.{
  ◌or◌, ℕ, zero, suc, ◌<◌, String, List, [], ◌∷◌, ◌++◌, Option, none, some, Bool, true, false, not,
  ◌||◌, eqb, if◌then◌else◌, length, ◌≡◌, refl, ap, ◌∙◌, arith, inl, inr, Bool-cases,
}
use react_ai_healthycare.Triage.{
  AlertStatus, acknowledged, investigating, closed, on_transition, Triage, Key, j, k, a, i, c,
  escape, other, get_elem?, mount, render, press, next_index, previous_index, transition,
  transition_of, handle_key_down, Event, renders, keys, focuses, step, run,
}

abbrev IsBelow : Option ℕ → ℕ → Type 0
IsBelow none count = Unit
IsBelow (some n) count = n < count

pub record IsInRange (s : Triage) : Type 0 where
  pub counted : s.prev_match_count ≡ length s.matches
  pub focused : IsBelow s.focused_index (length s.matches)

-- A focus that is set from outside is on a match of the list.
abbrev pub IsSession : Triage → List Event → Type 0
IsSession s [] = Unit
IsSession s (focuses index ∷ es) =
    IsBelow index (length s.matches) × IsSession (step (focuses index) s) es
IsSession s (e ∷ es) = IsSession (step e s) es

transition-IsInRange :
    (o : Option ℕ) (status : AlertStatus) (s : Triage)
    → IsInRange s
    → IsInRange (transition o status s)
transition-IsInRange none status s h = h
transition-IsInRange (some n) status s h = record { counted = h.counted; focused = h.focused }

next_index-IsBelow : (count : ℕ) (o : Option ℕ) → 0 < count → next_index count o < count
next_index-IsBelow count none h = h
next_index-IsBelow count (some n) h = omega arith

previous_index-IsBelow :
    (count : ℕ) (o : Option ℕ) → 0 < count → IsBelow o count → previous_index o < count
previous_index-IsBelow count none h b = h
previous_index-IsBelow count (some n) h b = omega arith

press-IsInRange :
    (key : Key) (s : Triage) → 0 < length s.matches → IsInRange s → IsInRange (press key s)
press-IsInRange j s p h = record {
  counted = h.counted;
  focused = next_index-IsBelow (length s.matches) s.focused_index p;
}
press-IsInRange k s p h = record {
  counted = h.counted;
  focused = previous_index-IsBelow (length s.matches) s.focused_index p h.focused;
}
press-IsInRange a s p h = transition-IsInRange s.focused_index acknowledged s h
press-IsInRange i s p h = transition-IsInRange s.focused_index investigating s h
press-IsInRange c s p h = transition-IsInRange s.focused_index closed s h
press-IsInRange escape s p h = record { counted = h.counted; focused = tt }
press-IsInRange other s p h = h

key-IsInRange :
    (key : Key) (in_field : Bool) (s : Triage)
    → IsInRange s
    → IsInRange (handle_key_down key in_field s)
unfolding handle_key_down
key-IsInRange key in_field s h =
    elim (Bool-cases (not s.enabled || eqb (length s.matches) 0 || in_field)) [
      | inl q ↦ rw q h
      | inr q ↦ rw q (press-IsInRange key s (ground (arith, q)) h)
    ]

render-IsInRange :
    (matches : List String) (enabled : Bool) (s : Triage)
    → IsInRange s
    → IsInRange (render matches enabled s)
unfolding render
render-IsInRange matches enabled s h = elim (Bool-cases (eqb s.prev_match_count (length matches))) [
  | inl q ↦ rw q (record {
    counted = ground (arith, q);
    focused =
        let same : length s.matches ≡ length matches = ground (arith, q, h.counted) in
        rw (← same) h.focused;
  })
  | inr q ↦ rw q (record { counted = refl; focused = tt })
]

run-IsInRange : (es : List Event) (s : Triage) → IsSession s es → IsInRange s → IsInRange (run es s)
run-IsInRange [] s v h = h
run-IsInRange (renders matches enabled ∷ es) s v h =
    run-IsInRange es _ v (render-IsInRange matches enabled s h)
run-IsInRange (keys key in_field ∷ es) s v h = run-IsInRange es _ v (key-IsInRange key in_field s h)
run-IsInRange (focuses index ∷ es) s v h =
    run-IsInRange es _ v.1 (record { counted = h.counted; focused = v.0 })

-- After any session in which a focus set from outside is on a match, the focus is on a match.
pub run-mount-IsInRange :
    (matches : List String) (enabled : Bool) (es : List Event)
    → IsSession (mount matches enabled) es
    → IsInRange (run es (mount matches enabled))
unfolding mount
run-mount-IsInRange matches enabled es v =
    run-IsInRange es (mount matches enabled) v (record { counted = refl; focused = tt })

get_elem?_below :
    (xs : List String) (n : ℕ) → n < length xs → (x : String) × (get_elem? xs n ≡ some x)
get_elem?_below [] n h = absurd (omega arith)
get_elem?_below (x ∷ xs) zero h = (x, refl)
get_elem?_below (x ∷ xs) (suc n) h = get_elem?_below xs n (omega arith)

-- what the key asks for
abbrev pub status_of : Key → Option AlertStatus
status_of a = some acknowledged
status_of i = some investigating
status_of c = some closed
status_of _ = none

transition_focused :
    (o : Option ℕ) (n : ℕ) (status : AlertStatus) (s : Triage)
    → o ≡ some n
    → (transition o status s).calls ≡ s.calls ++ transition_of (get_elem? s.matches n) status
transition_focused o n status s e = ap (λ m. (transition m status s).calls) e

press_transition :
    (key : Key) (n : ℕ) (status : AlertStatus) (id : String) (s : Triage)
    → status_of key ≡ some status
    → s.focused_index ≡ some n
    → get_elem? s.matches n ≡ some id
    → (press key s).calls ≡ s.calls ++ on_transition id status ∷ []
press_transition a n status id s e f g =
    transition_focused s.focused_index n acknowledged s f
    ∙ (ap (λ m. s.calls ++ transition_of m acknowledged) g
        ∙ ap (λ t. s.calls ++ on_transition id (t or status) ∷ []) e)
press_transition i n status id s e f g =
    transition_focused s.focused_index n investigating s f
    ∙ (ap (λ m. s.calls ++ transition_of m investigating) g
        ∙ ap (λ t. s.calls ++ on_transition id (t or status) ∷ []) e)
press_transition c n status id s e f g =
    transition_focused s.focused_index n closed s f
    ∙ (ap (λ m. s.calls ++ transition_of m closed) g
        ∙ ap (λ t. s.calls ++ on_transition id (t or status) ∷ []) e)
press_transition j n status id s e f g = absurd (ground (arith, e))
press_transition k n status id s e f g = absurd (ground (arith, e))
press_transition escape n status id s e f g = absurd (ground (arith, e))
press_transition other n status id s e f g = absurd (ground (arith, e))

-- After such a session, if the keys are enabled, the focus is on the place `n` and a key that asks for
-- a status is pressed outside an input, then exactly one transition is asked for, of the match at that
-- place to that status.
pub key-transition :
    (matches : List String) (enabled : Bool) (es : List Event) (key : Key) (status : AlertStatus)
    (n : ℕ)
    → IsSession (mount matches enabled) es
    → let s = run es (mount matches enabled) in
      s.enabled ≡ true
      → s.focused_index ≡ some n
      → status_of key ≡ some status
      → (id : String) × (get_elem? s.matches n ≡ some id)
        × ((handle_key_down key false s).calls ≡ s.calls ++ on_transition id status ∷ [])
unfolding handle_key_down
key-transition matches enabled es key status n v on f e =
    let s = run es (mount matches enabled) in
    let h = run-mount-IsInRange matches enabled es v in
    let below : n < length s.matches = subst (λ o. IsBelow o (length s.matches)) f h.focused in
    let (id, g) = get_elem?_below s.matches n below in
    let open_key : (not s.enabled || eqb (length s.matches) 0 || false) ≡ false =
      ground (arith, on, below) in
    (
      id,
      g,
      ap (λ b. (if b then s else press key s).calls) open_key
          ∙ press_transition key n status id s e f g,
    )
