-- ===== src/Planning/FlagLaws.antt =====
-- Each detector raises one flag for exactly the assets and areas that call for it.
use mathlib.Core.List.{append-nil, append_assoc}
use react_ai_healthycare.Base.{
  ◌≢◌, Bool, truthy?, not, ◌&&◌, any, ◌or◌, ◌||◌, eqb, map_by, extend, String, List, [], ◌∷◌, ◌++◌,
  Option, none, some, ◌≡◌, refl, sym, ap, ◌∙◌, if◌then◌else◌, ◌==◌, ==_iff, string_eq, is_value,
  filter, length, ltb, Map, lookup, arith, HasDistinctKeys, group_from, push_all, with_key,
  lookup-group, group_from-HasDistinctKeys, Bool-cases, inl, inr,
}
use react_ai_healthycare.Planning.Flags.{
  is_resolved, is_weapons_free, new_entry, weapons_free_flag, is_covered, push_task,
  weapons_free_key, AoEntry, detect_weapons_free_no_assets, weapons_free_flags, OvercommitmentFlag,
  assignment_key, double_flag, double_flags, push_last, detect_double_assignments,
}
use react_ai_healthycare.Api.Records.{PlanningAoStub, Asset, Task}

abbrev pub flags_of_asset : String → List OvercommitmentFlag → List OvercommitmentFlag
flags_of_asset a = filter (λ f. is_value f.asset_id a)

abbrev pub flags_of_ao : String → List OvercommitmentFlag → List OvercommitmentFlag
flags_of_ao a = filter (λ f. is_value f.ao_id a)

abbrev double_of : String → Option (List Task) → List OvercommitmentFlag
double_of a none = []
double_of a (some ts) = if ltb 1 (length ts) then double_flag a ts ∷ [] else []

double_flags-of :
    (a : String) (m : Map String (List Task))
    → HasDistinctKeys m
    → flags_of_asset a (double_flags m) ≡ double_of a (lookup a m)
unfolding double_flags
double_flags-of a [] h = refl
double_flags-of a ((k, ts) ∷ m) (e, h) = elim (Bool-cases (k == a)) [
  | inl same ↦ ground (
    arith,
    double_flags-of a m h,
    ap (λ z. lookup z m) (sym ((==_iff k a).0 same)) ∙ e,
    (==_iff k a).0 same,
  )
  | inr other ↦ ground (arith, double_flags-of a m h, other)
]

filter-same :
    {A : Type 0} (p q : A → Bool) (xs : List A) → ((x : A) → p x ≡ q x) → filter p xs ≡ filter q xs
filter-same p q xs same = λ i. filter (λ x. same x i) xs

is_value-truthy? : (a : String) (o : Option String) → a ≢ "" → is_value (truthy? o) a ≡ is_value o a
is_value-truthy? a none h = refl
is_value-truthy? a (some s) h = elim (Bool-cases (s == "")) [
  | inl same ↦ ground (arith, h, same, ==_iff s "", ==_iff s a, (==_iff s "").0 same)
  | inr other ↦ ground (arith, other)
]

-- The open tasks of an asset, in their order.
abbrev pub open_tasks_of : String → List Task → List Task
open_tasks_of a = filter (λ t. not (is_resolved t.workflow_status) && is_value t.asset_id a)

-- The open tasks of an area under weapons-free posture, in their order.
abbrev pub open_fire_tasks_of : String → List Task → List Task
open_fire_tasks_of a =
    filter (λ t.
      not (is_resolved t.workflow_status) && is_weapons_free t.ao_posture && is_value t.ao_id a)

assignment_key_lem :
    (a : String)
    → a ≢ ""
    → (t : Task)
    → is_value (assignment_key t) a ≡ (not (is_resolved t.workflow_status) && is_value t.asset_id a)
assignment_key_lem a h t = ground (arith, is_value-truthy? a t.asset_id h)

weapons_free_key_lem :
    (a : String)
    → a ≢ ""
    → (t : Task)
    → is_value (weapons_free_key t) a
      ≡ (not (is_resolved t.workflow_status) && is_weapons_free t.ao_posture && is_value t.ao_id a)
weapons_free_key_lem a h t = ground (arith, is_value-truthy? a t.ao_id h)

push_all-last : (ts us : List Task) → push_all assignment_key (λ k. []) push_last ts us ≡ ts ++ us
push_all-last ts [] = sym (append-nil ts)
push_all-last ts (u ∷ us) = push_all-last (ts ++ u ∷ []) us ∙ append_assoc ts (u ∷ []) us

double_of-group :
    (a : String) (mine : List Task)
    → double_of a (extend assignment_key (λ k. []) push_last a none mine)
      ≡ (if ltb 1 (length mine) then double_flag a mine ∷ [] else [])
double_of-group a [] = refl
double_of-group a (t ∷ ts) = ap (λ z. double_of a (some z)) (push_all-last (t ∷ []) ts)

double_assignments_by_key :
    (a : String) (tasks : List Task)
    → let mine = filter (λ t. is_value (assignment_key t) a) tasks in
      flags_of_asset a (detect_double_assignments tasks)
      ≡ (if ltb 1 (length mine) then double_flag a mine ∷ [] else [])
unfolding detect_double_assignments
double_assignments_by_key a tasks =
    let groups = group_from assignment_key (λ k. []) push_last [] tasks in
    double_flags-of a groups
      (group_from-HasDistinctKeys assignment_key (λ k. []) push_last [] tasks tt)
    ∙ (ap (double_of a) (lookup-group assignment_key (λ k. []) push_last a tasks)
        ∙ double_of-group a (with_key assignment_key (λ k. []) push_last a tasks))

-- An asset, whose id is not the empty text, has one flag, which lists its open tasks in their order,
-- if there are two or more, and none otherwise.
pub detect_double_assignments_lem :
    (a : String) (tasks : List Task)
    → a ≢ ""
    → let mine = open_tasks_of a tasks in
      flags_of_asset a (detect_double_assignments tasks)
      ≡ (if ltb 1 (length mine) then double_flag a mine ∷ [] else [])
detect_double_assignments_lem a tasks h =
    double_assignments_by_key a tasks
    ∙ ap (λ mine. if ltb 1 (length mine) then double_flag a mine ∷ [] else [])
        (filter-same _ _ tasks (assignment_key_lem a h))

abbrev uncovered_of : Map String Asset → String → Option AoEntry → List OvercommitmentFlag
uncovered_of asset_by_id a none = []
uncovered_of asset_by_id a (some e) =
    if any (is_covered asset_by_id) e.tasks then [] else weapons_free_flag a e.ao_name ∷ []

weapons_free_flags-of :
    (asset_by_id : Map String Asset) (a : String) (m : Map String AoEntry)
    → HasDistinctKeys m
    → flags_of_ao a (weapons_free_flags asset_by_id m) ≡ uncovered_of asset_by_id a (lookup a m)
unfolding weapons_free_flags
weapons_free_flags-of asset_by_id a [] h = refl
weapons_free_flags-of asset_by_id a ((k, v) ∷ m) (e, h) = elim (Bool-cases (k == a)) [
  | inl same ↦ ground (
    arith,
    weapons_free_flags-of asset_by_id a m h,
    ap (λ z. lookup z m) (sym ((==_iff k a).0 same)) ∙ e,
    (==_iff k a).0 same,
  )
  | inr other ↦ ground (arith, weapons_free_flags-of asset_by_id a m h, other)
]

push_all-task :
    (e : AoEntry) (us : List Task) (make : String → AoEntry)
    → push_all weapons_free_key make push_task e us ≡ record e { tasks = e.tasks ++ us }
push_all-task e [] make = ap (λ ts. record e { tasks = ts }) (sym (append-nil e.tasks))
push_all-task e (u ∷ us) make =
    push_all-task (push_task u e) us make
    ∙ ap (λ ts. record e { tasks = ts }) (append_assoc e.tasks (u ∷ []) us)

uncovered_of-group :
    (asset_by_id : Map String Asset) (make : String → AoEntry) (a : String) (mine : List Task)
    → (make a).tasks ≡ []
    → uncovered_of asset_by_id a (extend weapons_free_key make push_task a none mine) ≡ (
        if eqb (length mine) 0 || any (is_covered asset_by_id) mine
        then []
        else weapons_free_flag a (make a).ao_name ∷ [])
uncovered_of-group asset_by_id make a [] h = refl
uncovered_of-group asset_by_id make a (t ∷ ts) h =
    ap (λ z. uncovered_of asset_by_id a (some z)) (push_all-task (push_task t (make a)) ts make)
    ∙ rw h (ground arith)

weapons_free_by_key :
    (a : String) (tasks : List Task) (assets : List Asset) (areas : List PlanningAoStub)
    → let asset_by_id = map_by (λ (x : Asset). x.id) (λ x. x) assets in
      let names = map_by (λ (ao : PlanningAoStub). ao.id) (λ ao. ao.name) areas in
      let mine = filter (λ t. is_value (weapons_free_key t) a) tasks in
      flags_of_ao a (detect_weapons_free_no_assets tasks assets areas) ≡ (
        if eqb (length mine) 0 || any (is_covered asset_by_id) mine
        then []
        else weapons_free_flag a (lookup a names or a) ∷ [])
unfolding detect_weapons_free_no_assets
weapons_free_by_key a tasks assets areas =
    let asset_by_id = map_by (λ (x : Asset). x.id) (λ x. x) assets in
    let make = new_entry (map_by (λ (ao : PlanningAoStub). ao.id) (λ ao. ao.name) areas) in
    weapons_free_flags-of asset_by_id a (group_from weapons_free_key make push_task [] tasks)
      (group_from-HasDistinctKeys weapons_free_key make push_task [] tasks tt)
    ∙ (ap (uncovered_of asset_by_id a) (lookup-group weapons_free_key make push_task a tasks)
        ∙ uncovered_of-group asset_by_id make a (with_key weapons_free_key make push_task a tasks)
            refl)

-- An area, whose id is not the empty text, has one flag, with its name (its id where it is not
-- listed), if it has an open task under weapons-free posture and no such task has an available or
-- assigned asset, and no flag otherwise.
pub detect_weapons_free_no_assets_lem :
    (a : String) (tasks : List Task) (assets : List Asset) (areas : List PlanningAoStub)
    → a ≢ ""
    → let asset_by_id = map_by (λ (x : Asset). x.id) (λ x. x) assets in
      let names = map_by (λ (ao : PlanningAoStub). ao.id) (λ ao. ao.name) areas in
      let mine = open_fire_tasks_of a tasks in
      flags_of_ao a (detect_weapons_free_no_assets tasks assets areas) ≡ (
        if eqb (length mine) 0 || any (is_covered asset_by_id) mine
        then []
        else weapons_free_flag a (lookup a names or a) ∷ [])
detect_weapons_free_no_assets_lem a tasks assets areas h =
    let asset_by_id = map_by (λ (x : Asset). x.id) (λ x. x) assets in
    let names = map_by (λ (ao : PlanningAoStub). ao.id) (λ ao. ao.name) areas in
    weapons_free_by_key a tasks assets areas
    ∙ ap
        (λ mine.
          if eqb (length mine) 0 || any (is_covered asset_by_id) mine
          then []
          else weapons_free_flag a (lookup a names or a) ∷ [])
        (filter-same _ _ tasks (weapons_free_key_lem a h))
