-- ===== src/Planning/DraftLaws.antt =====
-- The doctrine forms show the doctrine of the selected area.
use react_ai_healthycare.Base.{
  [], any, ◌||◌, ◌==◌, Option, find?, false, Option-cases, filter, ◌or_else◌, not, ◌&&◌, ◌∙◌,
  ==_refl, is_some, ◌∷◌, head?, some, truthy, String, List, none, Bool, true, ◌≡◌, refl, ap, arith,
  string_eq, ==_iff, Bool-cases, inl, inr,
}
use react_ai_healthycare.Planning.DraftState.{
  doctrine_chokepoints, chokepoint_draft_of, first_site_id, selected_commander_intent,
  selected_pace_plan, intent_draft_of, pace_draft_of, empty_salute, pending_match, is_listed,
  doctrine_sites, choose_ao, pending_effect, has_area, selection_effect, DraftState,
  selected_chokepoint, chokepoint_effect, salute_effect, Doctrine, pace_effect, intent_effect,
  ao_effect, Form, sync_form,
}
use react_ai_healthycare.Api.Json.{Json}
use react_ai_healthycare.Api.Records.{PlanningAoStub, Chokepoint}
use react_ai_healthycare.Api.Enums.{ChokepointStatus, ChokepointCategory}
use react_ai_healthycare.Planning.Drafts.{
  SaluteDraft, PaceDraft, ChokepointDraft, same_status, same_chokepoint_draft, same_pace_draft,
  same_salute_draft, IntentDraft, same_intent_draft, same_category,
}

same_category-eq : (a b : ChokepointCategory) → same_category a b ≡ true → a ≡ b
unfolding same_category
same_category-eq a b h = ground (arith, h)

same_intent_draft-eq : (a b : IntentDraft) → same_intent_draft a b ≡ true → a ≡ b
unfolding same_intent_draft
same_intent_draft-eq a b h = ground (
  arith,
  h,
  ==_iff a.title b.title,
  ==_iff a.objective b.objective,
  ==_iff a.end_state b.end_state,
  ==_iff a.constraints b.constraints,
)

same_status-eq : (a b : ChokepointStatus) → same_status a b ≡ true → a ≡ b
unfolding same_status
same_status-eq a b h = ground (arith, h)

same_pace_draft-eq : (a b : PaceDraft) → same_pace_draft a b ≡ true → a ≡ b
unfolding same_pace_draft
same_pace_draft-eq a b h = ground (
  arith,
  h,
  ==_iff a.primary_plan b.primary_plan,
  ==_iff a.alternate_plan b.alternate_plan,
  ==_iff a.contingency_plan b.contingency_plan,
  ==_iff a.emergency_plan b.emergency_plan,
  ==_iff a.notes b.notes,
)

same_salute_draft-eq : (a b : SaluteDraft) → same_salute_draft a b ≡ true → a ≡ b
unfolding same_salute_draft
same_salute_draft-eq a b h = ground (
  arith,
  h,
  ==_iff a.site_id b.site_id,
  ==_iff a.size b.size,
  ==_iff a.activity b.activity,
  ==_iff a.location b.location,
  ==_iff a.unit b.unit,
  ==_iff a.observed_at b.observed_at,
  ==_iff a.equipment b.equipment,
  ==_iff a.remarks b.remarks,
)

same_chokepoint_draft-eq : (a b : ChokepointDraft) → same_chokepoint_draft a b ≡ true → a ≡ b
unfolding same_chokepoint_draft
same_chokepoint_draft-eq a b h = ground (
  arith,
  h,
  ==_iff a.name b.name,
  same_category-eq a.category b.category,
  same_status-eq a.status b.status,
  ==_iff a.latitude b.latitude,
  ==_iff a.longitude b.longitude,
  ==_iff a.watch_radius_km b.watch_radius_km,
  ==_iff a.notes b.notes,
)

sync_form_lem :
    {D : Type 0} (same : D → D → Bool) (next : D) (f : Form D)
    → ((a b : D) → same a b ≡ true → a ≡ b)
    → sync_form same next f ≡ record f { draft = next; error = none }
sync_form_lem same next f sound = elim (Bool-cases (same f.draft next)) [
  | inl h ↦ rw h (ap (λ z. record f { draft = z; error = none }) (sound f.draft next h))
  | inr h ↦ rw h refl
]

abbrev pub shows : {D : Type 0} → D → Form D → Form D
shows next f = record f { draft = next; error = none }

-- Each form's effect shows the draft of the selected area, whatever the form held before, clears its
-- error and changes nothing else.
pub draft_effects_lem :
    (number_text site_text : Json → String) (observed_at : String) (d : Doctrine) (s : DraftState)
    → let site = head? (doctrine_sites d s.selected_ao_id) in
      (intent_effect d s ≡ record s {
        intent = shows (intent_draft_of (selected_commander_intent d s.selected_ao_id)) s.intent;
      })
      × (pace_effect d s ≡ record s {
        pace = shows (pace_draft_of (selected_pace_plan d s.selected_ao_id)) s.pace;
      })
      × (salute_effect observed_at d s
          ≡ record s { salute = shows (empty_salute (first_site_id site) observed_at) s.salute })
      × (chokepoint_effect number_text site_text d s ≡ record s {
        chokepoint =
            shows
              (chokepoint_draft_of number_text site_text (selected_chokepoint d s) site)
              s.chokepoint;
      })
unfolding intent_effect pace_effect salute_effect chokepoint_effect
draft_effects_lem number_text site_text observed_at d s = (
  ap (λ z. record s { intent = z })
      (sync_form_lem same_intent_draft _ s.intent same_intent_draft-eq),
  ap (λ z. record s { pace = z }) (sync_form_lem same_pace_draft _ s.pace same_pace_draft-eq),
  ap (λ z. record s { salute = z })
      (sync_form_lem same_salute_draft _ s.salute same_salute_draft-eq),
  ap (λ z. record s { chokepoint = z })
      (sync_form_lem same_chokepoint_draft _ s.chokepoint same_chokepoint_draft-eq),
)

has_area-head : (ao : PlanningAoStub) (aos : List PlanningAoStub) → has_area ao.id (ao ∷ aos) ≡ true
has_area-head ao aos = ground (arith, ==_refl ao.id)

choose_ao-has_area :
    (ao : PlanningAoStub) (aos : List PlanningAoStub) (current : String)
    → truthy ao.id ≡ true
    → has_area (choose_ao (ao ∷ aos) current) (ao ∷ aos) ≡ true
choose_ao-has_area ao aos current h = ground (arith, h, has_area-head ao aos)

choose_ao-keeps :
    (ao : PlanningAoStub) (aos : List PlanningAoStub) (current : String)
    → truthy ao.id ≡ true
    → truthy current ≡ true
    → has_area current (ao ∷ aos) ≡ true
    → choose_ao (ao ∷ aos) current ≡ current
choose_ao-keeps ao aos current h a b = rw h (rw a (rw b refl))

-- If the first area has an id, then the effect selects a listed area, and keeps the selected one if
-- it is listed.
pub ao_effect-IsListed :
    (d : Doctrine) (ao : PlanningAoStub) (aos : List PlanningAoStub) (s : DraftState)
    → d.areas_of_operation ≡ ao ∷ aos
    → truthy ao.id ≡ true
    → (has_area (ao_effect d s).selected_ao_id (ao ∷ aos) ≡ true)
      × (truthy s.selected_ao_id ≡ true
          → has_area s.selected_ao_id (ao ∷ aos) ≡ true
          → ao_effect d s ≡ s)
unfolding ao_effect
ao_effect-IsListed d ao aos s e h = (
  ap (λ z. has_area (choose_ao z s.selected_ao_id) (ao ∷ aos)) e
      ∙ choose_ao-has_area ao aos s.selected_ao_id h,
  λ a b.
      ap (λ z. record s { selected_ao_id = choose_ao z s.selected_ao_id }) e
      ∙ ap (λ z. record s { selected_ao_id = z }) (choose_ao-keeps ao aos s.selected_ao_id h a b),
)

find_sound :
    (p : Chokepoint) (id ao : String) (points : List Chokepoint)
    → find? (λ point. point.id == id) (filter (λ point. point.area_of_operation_id == ao) points)
      ≡ some p
    → (p.id ≡ id) × (p.area_of_operation_id ≡ ao)
find_sound p id ao [] h = ground (arith, h)
find_sound p id ao (q ∷ points) h =
    ground (arith, h, find_sound p id ao points, ==_iff q.id id, ==_iff q.area_of_operation_id ao)

is_some-find :
    (id : String) (points : List Chokepoint)
    → is_some (find? (λ point. point.id == id) points) ≡ any (λ point. point.id == id) points
is_some-find id [] = refl
is_some-find id (q ∷ points) = ground (arith, is_some-find id points)

pending_match_sound :
    (p : Chokepoint) (id : String) (s : DraftState)
    → pending_match id s ≡ some p
    → (p.id ≡ id) × (p.area_of_operation_id ≡ s.selected_ao_id)
pending_match_sound p id s h = elim (Option-cases s.pending_chokepoint) [
  | inl empty ↦ ground (arith, empty, h)
  | inr (q, there) ↦
      ground (arith, there, h, ==_iff q.id id, ==_iff q.area_of_operation_id s.selected_ao_id)
]

or_else_sound :
    {P : Type 0} {a b : Option Chokepoint} (p : Chokepoint)
    → (a ≡ some p → P)
    → (b ≡ some p → P)
    → a or_else b ≡ some p
    → P
or_else_sound {a = none} p f g h = g h
or_else_sound {a = some q} p f g h = f h

is_some-or_else : (a b : Option Chokepoint) → is_some (a or_else b) ≡ (is_some a || is_some b)
is_some-or_else none b = refl
is_some-or_else (some q) b = refl

is_some-selected :
    (d : Doctrine) (s : DraftState)
    → is_some (selected_chokepoint d s) ≡ (
        is_listed s.selected_chokepoint_id d s
        || is_some (pending_match s.selected_chokepoint_id s))
unfolding selected_chokepoint
is_some-selected d s =
    is_some-or_else _ (pending_match s.selected_chokepoint_id s)
    ∙ ap (λ z. z || is_some (pending_match s.selected_chokepoint_id s))
        (is_some-find s.selected_chokepoint_id (doctrine_chokepoints d s.selected_ao_id))

selection_effect-selected :
    (d : Doctrine) (s : DraftState)
    → (truthy (selection_effect d s).selected_chokepoint_id
        && not (is_some (selected_chokepoint d (selection_effect d s))))
      ≡ false
unfolding selection_effect
selection_effect-selected d s =
    let kept =
      truthy s.selected_chokepoint_id
      && (is_listed s.selected_chokepoint_id d s
          || is_some (pending_match s.selected_chokepoint_id s)) in
    elim (Bool-cases kept) [
      | inl h ↦ rw h ground (arith, h, is_some-selected d s)
      | inr h ↦ rw h ground arith
    ]

-- The chokepoint shown as selected is one of the selected area and has the selected id; after the
-- effect that checks the selection there is one, or no id is selected.
pub selected_chokepoint_lem :
    (d : Doctrine) (s : DraftState)
    → ((p : Chokepoint)
        → selected_chokepoint d s ≡ some p
        → (p.id ≡ s.selected_chokepoint_id) × (p.area_of_operation_id ≡ s.selected_ao_id))
      × ((truthy (selection_effect d s).selected_chokepoint_id
            && not (is_some (selected_chokepoint d (selection_effect d s))))
          ≡ false)
unfolding selected_chokepoint selection_effect
selected_chokepoint_lem d s = (
  λ p h.
      or_else_sound p (find_sound p s.selected_chokepoint_id s.selected_ao_id d.chokepoints)
        (pending_match_sound p s.selected_chokepoint_id s) h,
  selection_effect-selected d s,
)

-- Dropping the pending chokepoint leaves the selection as it is shown: it is dropped only where the
-- list has the same id, or where it is of another area.
pub pending_effect-selected :
    (d : Doctrine) (s : DraftState)
    → is_some (selected_chokepoint d (pending_effect d s)) ≡ is_some (selected_chokepoint d s)
unfolding selected_chokepoint pending_effect
pending_effect-selected d s = elim (Option-cases s.pending_chokepoint) [
  | inl empty ↦ rw empty refl
  | inr (p, there) ↦ ground (
    arith,
    there,
    is_some-selected d s,
    is_some-selected d (record s { pending_chokepoint = none }),
    ==_iff p.id s.selected_chokepoint_id,
    ==_iff p.area_of_operation_id s.selected_ao_id,
  )
]
