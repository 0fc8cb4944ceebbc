-- ===== src/Process/CpuSets.antt =====
-- src/process/cpu_sets.c: which logical CPUs the game may run on. A strategy other than 1 to 4 selects
-- nothing, so a negative one is 0 here.
pub mod Choice
pub mod Lowest
pub mod Writes
use yafsml.Prelude.{
  ℕ, zero, suc, ◌+◌, Bool, true, false, not, ◌&&◌, ◌||◌, Option, none, some, List, [], ◌∷◌, ◌++◌,
  ltb, leb, ◌==◌, if◌then◌else◌, length, set, Run, done, fault, ◌>>=◌,
}

-- process_cpu_set_info_t
pub record CpuSet : Type 0 where
  pub id : ℕ
  pub group : ℕ
  pub logical_processor_index : ℕ
  pub efficiency_class : ℕ
  pub allocated : Bool
  pub allocated_to_target_process : Bool

abbrev pub is_usable_cpu_set : CpuSet → Bool
is_usable_cpu_set s = not s.allocated || s.allocated_to_target_process

-- `found`, `*min_class` and `*max_class`
pub record Classes : Type 0 where
  pub found : Bool
  pub min_class : ℕ
  pub max_class : ℕ

abbrev pub widen : CpuSet → Classes → Classes
widen s k = record {
  found = true;
  min_class =
      if not k.found || ltb s.efficiency_class k.min_class then s.efficiency_class else k.min_class;
  max_class =
      if not k.found || ltb k.max_class s.efficiency_class then s.efficiency_class else k.max_class;
}

unfoldable pub classes_loop : Classes → List CpuSet → Classes
classes_loop k [] = k
classes_loop k (s ∷ ss) = classes_loop (if is_usable_cpu_set s then widen s k else k) ss

abbrev pub find_efficiency_classes : List CpuSet → Classes
find_efficiency_classes sets =
    classes_loop (record { found = false; min_class = 0; max_class = 0 }) sets

abbrev pub is_lower_logical_cpu : CpuSet → CpuSet → Bool
is_lower_logical_cpu l r =
    if not (l.group == r.group)
    then ltb l.group r.group
    else if not (l.logical_processor_index == r.logical_processor_index)
    then ltb l.logical_processor_index r.logical_processor_index
    else ltb l.id r.id

-- `!found || is_lower_logical_cpu(&sets[i], first)`, where `none` is not found.
abbrev pub is_better : CpuSet → Option CpuSet → Bool
is_better s none = true
is_better s (some first) = is_lower_logical_cpu s first

-- The two tests that skip an entry, turned round.
abbrev pub is_candidate : Bool → ℕ → CpuSet → Bool
is_candidate match_class selected_class s =
    is_usable_cpu_set s && not (match_class && not (s.efficiency_class == selected_class))

unfoldable pub first_loop : Bool → ℕ → Option CpuSet → List CpuSet → Option CpuSet
first_loop match_class selected_class first [] = first
first_loop match_class selected_class first (s ∷ ss) =
    first_loop match_class selected_class
      (if is_candidate match_class selected_class s && is_better s first then some s else first) ss

abbrev pub find_first_matching_cpu_set : List CpuSet → Bool → ℕ → Option CpuSet
find_first_matching_cpu_set sets match_class selected_class =
    first_loop match_class selected_class none sets

abbrev pub is_excluded : CpuSet → Option CpuSet → Bool
is_excluded s none = false
is_excluded s (some e) = s.id == e.id

abbrev pub should_select_cpu_set : ℕ → CpuSet → ℕ → Option CpuSet → Bool
should_select_cpu_set strategy s selected_class excluded =
    if not (is_usable_cpu_set s)
    then false
    else if is_excluded s excluded
    then false
    else if strategy == 1
    then true
    else if strategy == 2 || strategy == 3 || strategy == 4
    then s.efficiency_class == selected_class
    else false

-- The caller's array, a NULL pointer being `none`, and what the function returns.
pub record Selection : Type 0 where
  pub ids : Option (List ℕ)
  pub selected_count : ℕ

-- A write to a place of the array; one behind it is a fault.
abbrev pub write_id : List ℕ → ℕ → ℕ → Run (Option (List ℕ))
write_id ids i id = if ltb i (length ids) then done (some (set ids i id)) else fault

-- `if (ids != NULL && selected_count < ids_capacity) ids[selected_count] = sets[i].id;`
abbrev pub store_id : Selection → ℕ → ℕ → Run (Option (List ℕ))
store_id sel ids_capacity id = elim sel.ids [
  | none ↦ done none
  | some ids ↦
      if ltb sel.selected_count ids_capacity
      then write_id ids sel.selected_count id
      else done (some ids)
]

-- What a selected entry does.
abbrev pub select_id : ℕ → Selection → ℕ → Run Selection
select_id ids_capacity sel id = store_id sel ids_capacity id >>= λ ids.
    done (record { ids = ids; selected_count = sel.selected_count + 1 })

unfoldable pub select_loop : (CpuSet → Bool) → ℕ → Selection → List CpuSet → Run Selection
select_loop chosen ids_capacity sel [] = done sel
select_loop chosen ids_capacity sel (s ∷ ss) =
    (if chosen s then select_id ids_capacity sel s.id else done sel) >>= λ sel'.
    select_loop chosen ids_capacity sel' ss

abbrev pub selected_class_of : ℕ → Classes → ℕ
selected_class_of strategy k = if strategy == 2 then k.min_class else k.max_class

abbrev pub excluded_by : ℕ → List CpuSet → ℕ → Option CpuSet
excluded_by strategy sets selected_class =
    if strategy == 1 || strategy == 4
    then find_first_matching_cpu_set sets (strategy == 4) selected_class
    else none

unfoldable pub select_process_cpu_set_ids :
    ℕ → Option (List CpuSet) → Option (List ℕ) → ℕ → Run Selection
unfolding classes_loop first_loop select_loop
select_process_cpu_set_ids strategy none ids ids_capacity =
    done (record { ids = ids; selected_count = 0 })
select_process_cpu_set_ids strategy (some sets) ids ids_capacity =
    let nothing : Selection = record { ids = ids; selected_count = 0 } in
    let k = find_efficiency_classes sets in
    let selected_class = selected_class_of strategy k in
    let excluded = excluded_by strategy sets selected_class in
    if ltb strategy 1 || ltb 4 strategy
    then done nothing
    else if not k.found
    then done nothing
    else if leb 2 strategy && k.min_class == k.max_class
    then done nothing
    else select_loop (λ s. should_select_cpu_set strategy s selected_class excluded) ids_capacity
        nothing sets
