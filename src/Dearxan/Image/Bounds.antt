-- ===== src/Dearxan/Image/Bounds.antt =====
-- src/dearxan/image.c: the sections that are reported, and the bytes that are read.
use yafsml.Prelude.{
  ℕ, zero, suc, ◌+◌, ◌-◌, ◌*◌, ◌/◌, ◌%◌, ◌^◌, ◌≤◌, ◌≡◌, some, arith, length, ltb, leb, ◌||◌, Run,
  Returns, returned, Returns-bind, Returns-if, read16_inside, read32_inside, drop, refl,
  length-drop,
}
use yafsml.Dearxan.Image.{Image, Available, section_size, dearxan_image_read}
use yafsml.Dearxan.ImageTables.{
  Section, section_at, Called, visit_section, report_section, sections_loop, visit_sections,
  dearxan_image_for_each_section,
}
use yafsml.Dearxan.Image.Safety.{IsLoaded, after_headers}

-- A section that is reported is a part of the image's memory, at its address.
pub record IsInside (image : Image) (section : Section) : Type 0 where
  pub rva : ℕ
  pub within : rva + section.size ≤ image.size
  pub place : section.va ≡ (image.base_va + rva) % 2 ^ 64
  pub content : section.bytes ≡ drop rva image.base

module _ {ℓ κ} {S : Type ℓ} (P : S → Type κ) (image : Image) (loaded : IsLoaded image)
    (callback : S → Section → Called S)
    (keeps : (s : S) (section : Section)
      → IsInside image section
      → P s
      → P (callback s section).state) where
  abbrev Kept : Called S → Type κ
  Kept called = P called.state

  report_section-Kept :
      (next : S → Run (Called S))
      → ((s : S) → P s → Returns Kept (next s))
      → (state : S) (rva size : ℕ) → P state
      → Returns Kept (report_section image callback next state rva size)
  unfolding report_section
  report_section-Kept next more state rva size p =
      Returns-if (leb image.size rva) (λ _. more state p)
        λ inside.
          let kept =
            keeps state (section_at image rva size)
              (record { rva = rva; within = ground arith; place = refl; content = refl }) p in
          Returns-if (callback state (section_at image rva size)).result (λ _. more _ kept)
            (λ _. returned _ kept)

  sections_loop-Kept :
      (left place : ℕ) (state : S)
      → place + section_size * left ≤ image.size
      → P state
      → Returns Kept (sections_loop image callback left place state)
  unfolding sections_loop visit_section
  sections_loop-Kept zero place state h p = returned _ p
  sections_loop-Kept (suc left) place state h p =
      Returns-bind (read32_inside image.base (place + 12) (omega (arith, loaded.room))) λ rva _.
        Returns-bind (read32_inside image.base (place + 8) (omega (arith, loaded.room)))
          λ virtual_size _.
            Returns-bind (read32_inside image.base (place + 16) (omega (arith, loaded.room)))
              λ raw_size _.
                report_section-Kept (sections_loop image callback left (place + section_size))
                  (λ s q. sections_loop-Kept left (place + section_size) s (omega arith) q) state
                  rva _ p

  visit_sections-Kept :
      (nt : ℕ) (state : S)
      → nt + 264 ≤ image.size
      → P state
      → Returns Kept (visit_sections image callback state nt)
  unfolding visit_sections
  visit_sections-Kept nt state h p =
      Returns-bind (read16_inside image.base (nt + 20) (omega (arith, loaded.room)))
        λ optional_size _.
          Returns-bind (read16_inside image.base (nt + 6) (omega (arith, loaded.room))) λ count _.
            let table = nt + 24 + optional_size in
            Returns-if (ltb image.size table || ltb ((image.size - table) / section_size) count)
              (λ _. returned _ p) (λ fits. sections_loop-Kept count table state (ground arith) p)

  -- Whatever bytes an image that is loaded and not empty holds, the walk over its sections ends,
  -- reads no byte outside of it, and gives the callback only parts of the image at their
  -- addresses: what the callback keeps of such sections holds at the end.
  pub dearxan_image_for_each_section-Kept :
      (state : S)
      → P state
      → Returns
          (λ (called : Called S). P called.state)
          (dearxan_image_for_each_section (some image) callback state)
  unfolding dearxan_image_for_each_section
  dearxan_image_for_each_section-Kept state p =
      after_headers image loaded _ _ (returned _ p) λ nt h. visit_sections-Kept nt state h p

pub dearxan_image_read-bounds :
    (image : Image) (va min_size : ℕ) (r : Available)
    → image.size ≡ length image.base
    → dearxan_image_read (some image) va min_size ≡ some r
    → (min_size ≤ r.available)
      × (length r.bytes ≡ r.available)
      × (va + r.available ≡ image.base_va + image.size)
unfolding dearxan_image_read
dearxan_image_read-bounds image va min_size r whole e =
    ground (arith, length-drop (va - image.base_va) image.base)
