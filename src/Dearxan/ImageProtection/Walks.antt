-- ===== src/Dearxan/ImageProtection/Walks.antt =====
-- src/dearxan/image.c: dearxan_image_make_sections_rwe is the walk of dearxan_image_for_each_section with a
-- callback that makes the sections writable.
use yafsml.Prelude.{
  ℕ, zero, suc, ◌+◌, ◌-◌, ◌/◌, ◌%◌, ◌^◌, ◌≤◌, ◌<◌, ◌≡◌, refl, sym, subst, Bool, true, false, ◌||◌,
  Option, none, some, List, [], All, ltb, leb, ◌==◌, if◌then◌else◌, arith, if_lem, Run, done,
  bind_alike, read16, read32, Returns,
}
use yafsml.Dearxan.Image.{Image, image_nt_headers, section_size}
use yafsml.Dearxan.Image.Safety.{IsLoaded}
use yafsml.Dearxan.Image.Bounds.{IsInside, dearxan_image_for_each_section-Kept}
use yafsml.Dearxan.ImageTables.{
  Section, Called, report_section, visit_section, sections_loop, visit_sections,
  dearxan_image_for_each_section,
}
use yafsml.Dearxan.ImageProtection.{
  Part, protect_part, part_at, protect_loop, protect_sections, dearxan_image_make_sections_rwe,
}

-- Two runs are the same that take the same turn.
then_alike :
    {A : Type 0} (b : Bool) (x x' y : A) → x ≡ x' → (if b then x else y) ≡ (if b then x' else y)
then_alike true x x' y h = h
then_alike false x x' y h = refl

else_alike :
    {A : Type 0} (b : Bool) (x y y' : A) → y ≡ y' → (if b then x else y) ≡ (if b then x else y')
else_alike true x y y' h = refl
else_alike false x y y' h = h

-- The tests of a round: whether the section has a size, stands behind the image, and has bytes in it.
tests_alike :
    {S : Type 0} (empty behind cut : Bool) (called : Called S) (p s : S → Run (Called S))
    (parts : S)
    → ((t : S) → p t ≡ s t)
    → (behind ≡ false → cut ≡ empty)
    → (if empty || behind then p parts else (if called.result then p called.state else done called))
      ≡ (if behind
          then s parts
          else (let reported = (if cut then record { result = true; state = parts } else called) in
              if reported.result then s reported.state else done reported))
tests_alike true true cut called p s parts same agree = same parts
tests_alike true false true called p s parts same agree = same parts
tests_alike true false false called p s parts same agree = absurd (ground (arith, agree refl))
tests_alike false true cut called p s parts same agree = same parts
tests_alike false false true called p s parts same agree = absurd (ground (arith, agree refl))
tests_alike false false false called p s parts same agree =
    then_alike called.result _ _ _ (same called.state)

module _ (virtual_protect : Part → Bool) where
  -- The callback: a section without bytes is left alone.
  abbrev pub protect_section : List Part → Section → Called (List Part)
  protect_section parts section =
      if section.size == 0
      then record { result = true; state = parts }
      else protect_part virtual_protect (record { va = section.va; size = section.size }) parts

  module _ (image : Image) where
    cut_empty :
        (rva size : ℕ)
        → leb image.size rva ≡ false
        → (part_at image rva size).size == 0 ≡ (size == 0)
    cut_empty rva size inside = ground arith

    round_alike :
        (p s : List Part → Run (Called (List Part)))
        → ((parts : List Part) → p parts ≡ s parts)
        → (rva size : ℕ) (parts : List Part)
        → (if size == 0 || leb image.size rva
            then p parts
            else (let called = protect_part virtual_protect (part_at image rva size) parts in
                if called.result then p called.state else done called))
          ≡ report_section image protect_section s parts rva size
    unfolding report_section
    round_alike p s same rva size parts =
        tests_alike (size == 0) (leb image.size rva) ((part_at image rva size).size == 0)
          (protect_part virtual_protect (part_at image rva size) parts) p s parts same
          (cut_empty rva size)

    loop_alike :
        (left place : ℕ) (parts : List Part)
        → protect_loop virtual_protect image left place parts
          ≡ sections_loop image protect_section left place parts
    unfolding protect_loop sections_loop visit_section
    loop_alike zero place parts = refl
    loop_alike (suc left) place parts = bind_alike {m = read32 image.base (place + 12)} refl λ rva.
        bind_alike {m = read32 image.base (place + 8)} refl λ virtual_size.
          bind_alike {m = read32 image.base (place + 16)} refl λ raw_size.
            round_alike (protect_loop virtual_protect image left (place + section_size))
              (sections_loop image protect_section left (place + section_size))
              (loop_alike left (place + section_size)) rva
              (if virtual_size == 0 then raw_size else virtual_size) parts

    sections_alike :
        (nt : ℕ)
        → protect_sections virtual_protect image nt ≡ visit_sections image protect_section [] nt
    unfolding protect_sections visit_sections
    sections_alike nt = bind_alike {m = read16 image.base (nt + 20)} refl λ optional_size.
        bind_alike {m = read16 image.base (nt + 6)} refl λ count.
          let table = nt + 24 + optional_size in
          else_alike (ltb image.size table || ltb ((image.size - table) / section_size) count)
            (done (record { result = false; state = [] })) _ _ (loop_alike count table [])

    after_alike :
        (headers : Option ℕ)
        → elim headers as (λ x. Run (Called (List Part))) [
          | none ↦ done (record { result = false; state = [] })
          | some nt ↦ protect_sections virtual_protect image nt
        ]
          ≡ elim headers as (λ x. Run (Called (List Part))) [
            | none ↦ done (record { result = false; state = [] })
            | some nt ↦ visit_sections image protect_section [] nt
          ]
    after_alike none = refl
    after_alike (some nt) = sections_alike nt

  -- Making the sections of an image writable is the same as the walk over its sections with a
  -- callback that makes those with bytes in them writable and stops where VirtualProtect fails,
  -- with the same outcome and the same calls.
  pub dearxan_image_make_sections_rwe-for_each_section :
      (image : Option Image)
      → dearxan_image_make_sections_rwe virtual_protect image
        ≡ dearxan_image_for_each_section image protect_section []
  unfolding dearxan_image_make_sections_rwe dearxan_image_for_each_section
  dearxan_image_make_sections_rwe-for_each_section none = refl
  dearxan_image_make_sections_rwe-for_each_section (some image) =
      bind_alike {m = image_nt_headers image} refl λ headers. after_alike image headers

-- A part of the image that is not empty.
pub record IsPart (image : Image) (part : Part) : Type 0 where
  pub rva : ℕ
  pub within : rva + part.size ≤ image.size
  pub nonempty : 0 < part.size
  pub place : part.va ≡ (image.base_va + rva) % 2 ^ 64

protect_section-IsPart :
    (virtual_protect : Part → Bool) (image : Image) (parts : List Part) (section : Section)
    → IsInside image section
    → All (IsPart image) parts
    → All (IsPart image) (protect_section virtual_protect parts section).state
protect_section-IsPart virtual_protect image parts section inside old =
    let part : Part = record { va = section.va; size = section.size } in
    if_lem (λ (c : Called (List Part)). All (IsPart image) c.state) (section.size == 0) _ _
      (λ e. old)
      (λ e.
        if_lem (λ (c : Called (List Part)). All (IsPart image) c.state) (virtual_protect part) _ _
          (λ f. (
            record {
              rva = inside.rva;
              within = inside.within;
              nonempty = ground arith;
              place = inside.place;
            },
            old,
          ))
          (λ f. old))

-- Whatever bytes an image that is loaded and not empty holds, and whatever VirtualProtect answers, what is
-- made writable are parts of the image that are not empty, at their addresses.
dearxan_image_make_sections_rwe-IsPart :
    (virtual_protect : Part → Bool) (image : Image)
    → IsLoaded image
    → Returns
        (λ (c : Called (List Part)). All (IsPart image) c.state)
        (dearxan_image_make_sections_rwe virtual_protect (some image))
dearxan_image_make_sections_rwe-IsPart virtual_protect image loaded =
    subst (Returns _)
      (sym (dearxan_image_make_sections_rwe-for_each_section virtual_protect (some image)))
      (dearxan_image_for_each_section-Kept (All (IsPart image)) image loaded
        (protect_section virtual_protect) (protect_section-IsPart virtual_protect image) [] tt)
