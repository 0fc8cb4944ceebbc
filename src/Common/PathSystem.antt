-- ===== src/Common/PathSystem.antt =====
-- src/common/path.h: what asks the system for paths. `memory` is what the allocator answers for a number of
-- characters; the error code of the thread is not kept.
pub mod Ends
use yafsml.Prelude.{
  ℕ, zero, suc, ◌+◌, ◌*◌, Bool, true, false, not, ◌&&◌, ◌||◌, Option, none, some, [], ◌∷◌, ◌++◌,
  ltb, leb, ◌==◌, if◌then◌else◌, length, take, bit_and, Run, done, stuck,
}
use yafsml.Common.Path.{
  Wide, max_cch, cut_back, ml_path_normalize_input, ml_path_is_absolute, ml_path_root_length,
  ml_path_extend,
}

-- What a function of the system that fills a buffer returns and writes.
pub record Written : Type 0 where
  pub answer : ℕ
  pub text : Wide

-- ml_path_buffer gives room for so many characters.
abbrev pub has_buffer : (ℕ → Bool) → ℕ → Bool
has_buffer memory count = not (count == 0) && leb count max_cch && memory count

abbrev pub ml_path_copy_alloc : (ℕ → Bool) → Wide → Option Wide
ml_path_copy_alloc memory path = if has_buffer memory (length path + 1) then some path else none

-- A path that is there and not empty.
abbrev pub nonempty : Option Wide → Option Wide
nonempty none = none
nonempty (some []) = none
nonempty (some (c ∷ cs)) = some (c ∷ cs)

-- C:foo
abbrev pub is_drive_relative : Wide → Bool
is_drive_relative (a ∷ b ∷ []) = b == b':'
is_drive_relative (a ∷ b ∷ c ∷ rest) = b == b':' && not (c == 0x5c)
is_drive_relative _ = false

-- Whether a name starts at the root of its base, and the name without that.
abbrev pub is_rooted : Wide → Bool
is_rooted [] = false
is_rooted (c ∷ cs) = c == 0x5c

abbrev pub without_root : Wide → Wide
without_root [] = []
without_root (c ∷ cs) = if c == 0x5c then cs else c ∷ cs

-- A name behind a directory, which is empty where there is none.
unfoldable pub join : (ℕ → Bool) → Wide → Wide → Option Wide
join memory directory name = elim directory [
  | [] ↦ if has_buffer memory (length name + 1) then some name else none
  | c ∷ cs ↦
      if has_buffer memory (length (c ∷ cs) + length name + 2)
      then some ((c ∷ cs) ++ (0x5c ∷ name))
      else none
]

-- A name that is not absolute, below a base.
unfoldable pub join_base : (ℕ → Bool) → Wide → Wide → Option Wide
unfolding join ml_path_normalize_input ml_path_is_absolute ml_path_root_length cut_back
join_base memory base name = elim (ml_path_copy_alloc memory base) [
  | none ↦ none
  | some copy ↦
      let directory = ml_path_normalize_input copy in
      let base_length =
        if is_rooted name then ml_path_root_length directory else length directory in
      if not (ml_path_is_absolute directory) || base_length == 0
      then none
      else join memory (cut_back (λ c. c == 0x5c) (take base_length directory)) (without_root name)
]

-- What is given to GetFullPathNameW.
unfoldable pub join_requested : (ℕ → Bool) → Option Wide → Wide → Option Wide
unfolding join_base ml_path_normalize_input
join_requested memory base requested = elim (ml_path_copy_alloc memory requested) [
  | none ↦ none
  | some copy ↦
      let name = ml_path_normalize_input copy in
      let plain = join memory [] name in
      let joined : Option Wide = elim base [
        | none ↦ plain
        | some directory ↦
            let below = join_base memory directory name in
            if ml_path_is_absolute name then plain else below
      ] in
      if is_drive_relative name then none else joined
]

unfoldable pub joined_path : (ℕ → Bool) → Option Wide → Option Wide → Option Wide
unfolding join_requested
joined_path memory base requested = elim (nonempty requested) [
  | some name ↦ join_requested memory base name
  | none ↦ elim (nonempty base) [ none ↦ none | some name ↦ join_requested memory base name ]
]

-- The loop over GetFullPathNameW, whose answer is the length, or the room that it needs.
unfoldable pub full_path_loop : (ℕ → Bool) → (Wide → ℕ → Written) → Wide → ℕ → ℕ → Run (Option Wide)
unfolding ml_path_extend
full_path_loop memory get_full_path_name joined zero capacity = stuck
full_path_loop memory get_full_path_name joined (suc fuel) capacity =
    let written = get_full_path_name joined capacity in
    elim (has_buffer memory capacity) [
      | false ↦ done none
      | true ↦ elim (ltb written.answer capacity) [
        | false ↦ full_path_loop memory get_full_path_name joined fuel written.answer
        | true ↦ done (if written.answer == 0 then none else ml_path_extend memory written.text)
      ]
    ]

-- A buffer has max_cch characters at most, and a longer one is asked for in each round.
abbrev pub rounds : ℕ
rounds = max_cch + 2

unfoldable pub ml_path_resolve_alloc :
    (ℕ → Bool) → (Wide → ℕ → Written) → Option Wide → Option Wide → Run (Option Wide)
unfolding joined_path full_path_loop
ml_path_resolve_alloc memory get_full_path_name base requested =
    elim (joined_path memory base requested) [
      | none ↦ done none
      | some joined ↦
          full_path_loop memory get_full_path_name joined rounds
            (get_full_path_name joined 0).answer
    ]

-- The loop over GetModuleFileNameW, which doubles its buffer.
unfoldable pub module_filename_loop : (ℕ → Bool) → (ℕ → Written) → ℕ → ℕ → Run (Option Wide)
module_filename_loop memory get_module_file_name zero capacity = stuck
module_filename_loop memory get_module_file_name (suc fuel) capacity =
    let written = get_module_file_name capacity in
    elim (leb capacity max_cch && has_buffer memory capacity && not (written.answer == 0)) [
      | false ↦ done none
      | true ↦ elim (ltb written.answer capacity) [
        | true ↦ done (some written.text)
        | false ↦ module_filename_loop memory get_module_file_name fuel (capacity * 2)
      ]
    ]

-- From 256 on, the ninth buffer would be too long.
unfoldable pub ml_path_module_filename_alloc : (ℕ → Bool) → (ℕ → Written) → Run (Option Wide)
unfolding module_filename_loop
ml_path_module_filename_alloc memory get_module_file_name =
    module_filename_loop memory get_module_file_name 9 256

-- The loop over GetEnvironmentVariableW.
unfoldable pub environment_loop : (ℕ → Bool) → (ℕ → Written) → ℕ → ℕ → Run (Option Wide)
environment_loop memory get_environment_variable zero capacity = stuck
environment_loop memory get_environment_variable (suc fuel) capacity =
    let written = get_environment_variable capacity in
    elim (ltb 1 capacity && has_buffer memory capacity && not (written.answer == 0)) [
      | false ↦ done none
      | true ↦ elim (ltb written.answer capacity) [
        | true ↦ done (some written.text)
        | false ↦ environment_loop memory get_environment_variable fuel written.answer
      ]
    ]

unfoldable pub ml_path_environment_alloc : (ℕ → Bool) → (ℕ → Written) → Run (Option Wide)
unfolding environment_loop
ml_path_environment_alloc memory get_environment_variable =
    environment_loop memory get_environment_variable rounds (get_environment_variable 0).answer

-- INVALID_FILE_ATTRIBUTES and FILE_ATTRIBUTE_DIRECTORY
abbrev pub ml_path_is_directory : (Wide → ℕ) → Wide → Bool
ml_path_is_directory get_file_attributes path =
    let attributes = get_file_attributes path in
    not (attributes == 0xffffffff) && not (bit_and attributes 0x10 == 0)
