-- ===== src/Process/Tests.antt =====
-- Runs of the process helpers on concrete inputs, and the theorems at inputs that meet their
-- hypotheses.
use yafsml.Prelude.{
  take, ℕ, ◌≡◌, refl, Bool, true, false, All, get_elem?, length, none, some, List, [], ◌∷◌, map,
  Bytes, codes, arith, done,
}
use yafsml.Process.CpuSets.{
  CpuSet, find_efficiency_classes, is_candidate, find_first_matching_cpu_set,
  select_process_cpu_set_ids,
}
use yafsml.Process.CpuSets.Writes.{overwrite, selected_ids, select_process_cpu_set_ids-Writes}
use yafsml.Process.CpuSets.Choice.{Between, has_class, find_efficiency_classes-Between}
use yafsml.Process.CpuSets.Lowest.{AtMost, find_first_matching_cpu_set-AtMost}
use yafsml.Process.Undname.{undname_class}
use yafsml.Process.Undname.Names.{decorate, reverse_onto, join, undname_class-decorate}
use yafsml.Process.Scanner.{Cell, sig_scan_pattern}
use yafsml.Process.Scanner.Loop.{FirstFound}
use yafsml.Process.Scanner.First.{sig_scan_pattern-FirstFound}
use yafsml.Process.Pattern.{sig_build_pattern_with_mask, sig_scan, parsed}
use yafsml.Process.Pattern.Cells.{Cells, sig_build_pattern_with_mask-Cells}
use yafsml.Process.Pattern.Grow.{Answers, full_parse, sig_scan-Answers}
use yafsml.Process.Pattern.Spell.{
  exact, high, low, any, cell_of, spell, sig_build_pattern_with_mask-spell,
}

abbrev memory : ℕ → Bool
memory n = true

abbrev code_bytes : Bytes
code_bytes = 0x90 ∷ 0x48 ∷ 0x8b ∷ 0x48 ∷ 0x8b ∷ 0x05 ∷ 0x48 ∷ 0x8b ∷ 0x0d ∷ 0x90 ∷ []

abbrev cells : List Cell
cells = map cell_of (exact 4 8 ∷ exact 8 0xb ∷ low 0xd ∷ any ∷ [])

scan_runs : sig_scan_pattern (some code_bytes) cells ≡ done (some 6)
unfolding sig_scan_pattern
scan_runs = refl

sig_scan_runs : sig_scan memory (some code_bytes) (codes "48 8b ?D ??") ≡ done (some 6)
unfolding sig_scan
sig_scan_runs = refl

malformed_runs : sig_scan memory (some code_bytes) (codes "48 8x") ≡ done none
unfolding sig_scan
malformed_runs = refl

sig_scan_pattern-FirstFound_example :
    FirstFound code_bytes cells (sig_scan_pattern (some code_bytes) cells)
sig_scan_pattern-FirstFound_example =
    sig_scan_pattern-FirstFound code_bytes cells (omega arith) (omega arith) (omega arith)

sig_scan-Answers_example :
    Answers code_bytes
      (full_parse (codes "48 8b ?D ??"))
      (sig_scan memory (some code_bytes) (codes "48 8b ?D ??"))
sig_scan-Answers_example =
    sig_scan-Answers memory code_bytes (codes "48 8b ?D ??") (omega arith) (λ n. refl) (omega arith)

sig_build_pattern_with_mask-spell_example :
    sig_build_pattern_with_mask 4 (spell (exact 4 8 ∷ high 8 ∷ low 0xd ∷ any ∷ []))
    ≡ parsed (map cell_of (exact 4 8 ∷ high 8 ∷ low 0xd ∷ any ∷ []))
sig_build_pattern_with_mask-spell_example =
    sig_build_pattern_with_mask-spell 4 (exact 4 8 ∷ high 8 ∷ low 0xd ∷ any ∷ []) (omega arith)
      (omega arith)

sig_build_pattern_with_mask-Cells_example : Cells (sig_build_pattern_with_mask 8 (codes "4 8? ?c"))
sig_build_pattern_with_mask-Cells_example = sig_build_pattern_with_mask-Cells 8 (codes "4 8? ?c")

abbrev cpu : ℕ → ℕ → ℕ → CpuSet
cpu id index class = record {
  id = id;
  group = 0;
  logical_processor_index = index;
  efficiency_class = class;
  allocated = false;
  allocated_to_target_process = false;
}

abbrev cpus : List CpuSet
cpus = cpu 256 0 1 ∷ cpu 257 1 1 ∷ cpu 258 2 0 ∷ []

-- Strategy 4: the fast cores, but not the first one.
select_runs :
    select_process_cpu_set_ids 4 (some cpus) (some (0 ∷ 0 ∷ [])) 2
    ≡ done (record { ids = some (257 ∷ 0 ∷ []); selected_count = 1 })
unfolding select_process_cpu_set_ids
select_runs = refl

select_process_cpu_set_ids-Writes_example :
    (select_process_cpu_set_ids 1 (some cpus) (some (0 ∷ 0 ∷ [])) 1
      ≡ done (record {
        ids = some (overwrite (0 ∷ 0 ∷ []) (take 1 (selected_ids 1 cpus)));
        selected_count = length (selected_ids 1 cpus);
      }))
    × ((room : ℕ)
        → select_process_cpu_set_ids 1 (some cpus) none room
          ≡ done (record { ids = none; selected_count = length (selected_ids 1 cpus) }))
select_process_cpu_set_ids-Writes_example =
    select_process_cpu_set_ids-Writes 1 cpus (0 ∷ 0 ∷ []) 1 (omega arith)

find_efficiency_classes-Between_example :
    All (Between (find_efficiency_classes cpus)) cpus
    × ((find_efficiency_classes cpus).found ≡ true
        → (has_class (find_efficiency_classes cpus).min_class cpus ≡ true)
          × (has_class (find_efficiency_classes cpus).max_class cpus ≡ true))
find_efficiency_classes-Between_example = find_efficiency_classes-Between cpus

find_first_matching_cpu_set-AtMost_example :
    All (AtMost (is_candidate true 1) (find_first_matching_cpu_set cpus true 1)) cpus
    × ((e : CpuSet)
        → find_first_matching_cpu_set cpus true 1 ≡ some e
        → (is_candidate true 1 e ≡ true) × ((i : ℕ) × (get_elem? cpus i ≡ some e)))
find_first_matching_cpu_set-AtMost_example = find_first_matching_cpu_set-AtMost cpus true 1

-- The name of a class in two namespaces.
undname_class-decorate_example :
    undname_class (some (codes ".?AVCSTask@CS@FD4@@")) (some []) 32
    ≡ record { out = some (codes "FD4::CS::CSTask"); good = true }
unfolding decorate reverse_onto join
undname_class-decorate_example =
    undname_class-decorate (codes "CSTask") (codes "CS" ∷ codes "FD4" ∷ []) [] 32 (ground arith)
      (omega arith) (omega arith)
