-- ===== src/Dearxan/Vm/ImageView.antt =====
-- src/dearxan/vm.c: the bytes that are read from the image, and those that fill a new block.
use yafsml.Prelude.{
  ℕ, ◌+◌, ◌-◌, ◌*◌, ◌%◌, ◌≤◌, ◌<◌, ◌≡◌, ◌≢◌, sym, ap, ◌∙◌, Bool, true, false, ◌&&◌, inl, inr,
  Option, none, some, leb, arith, length, get_elem?, take, drop, Bool-cases, get_elem?-take,
  get_elem?-drop, length-take, length-drop,
}
use yafsml.Prelude.Bits.{testbit, testbit-ones, testbit-zero}
use native.Mathlib.Nat.{mod-eq_of_lt}
use yafsml.Dearxan.Image.{Image, dearxan_image_read}
use yafsml.Dearxan.Vm.Blocks.{Block, uint64, fill_block}
use yafsml.Dearxan.Vm.Memory.{read_image}
use yafsml.Dearxan.Vm.View.{ReadsChunk, Under, block_view, image_view}

-- Whether `n` bytes at an address lie in the image.
abbrev contains : Image → ℕ → ℕ → Bool
contains image address n =
    leb image.base_va address && leb (address + n) (image.base_va + image.size)

image_read_inside :
    (image : Image) (address n : ℕ)
    → contains image address n ≡ true
    → dearxan_image_read (some image) address n
      ≡ some (record {
        bytes = drop (address - image.base_va) image.base;
        available = image.size - (address - image.base_va);
      })
unfolding dearxan_image_read
image_read_inside image address n h = ground arith

image_read_outside :
    (image : Image) (address n : ℕ)
    → contains image address n ≡ false
    → dearxan_image_read (some image) address n ≡ none
unfolding dearxan_image_read
image_read_outside image address n h = ground arith

image_view_inside :
    (image : Image) (address : ℕ)
    → contains image address 1 ≡ true
    → image_view (some image) address ≡ get_elem? image.base (address - image.base_va)
unfolding image_view
image_view_inside image address h =
    let shift : address - image.base_va + 0 ≡ address - image.base_va = omega arith in
    rw (image_read_inside image address 1 h, image_view)
      (get_elem?-drop (address - image.base_va) 0 image.base ∙ ap (get_elem? image.base) shift)

image_view_outside :
    (image : Image) (address : ℕ)
    → contains image address 1 ≡ false
    → image_view (some image) address ≡ none
unfolding image_view
image_view_outside image address h = rw (image_read_outside image address 1 h, image_view)

image_view-some :
    (image : Image) (address : ℕ)
    → image_view (some image) address ≢ none
    → contains image address 1 ≡ true
image_view-some image address h = elim (Bool-cases (contains image address 1)) [
  | inl inside ↦ inside
  | inr outside ↦ absurd (h (image_view_outside image address outside))
]

-- The bytes of an image that are read at once are those that are read one by one.
image_bytes :
    (image : Image) (address chunk i : ℕ)
    → contains image address chunk ≡ true
    → i < chunk
    → get_elem? (take chunk (drop (address - image.base_va) image.base)) i
      ≡ image_view (some image) (address + i)
image_bytes image address chunk i inside h =
    let shift : address - image.base_va + i ≡ address + i - image.base_va = ground arith in
    get_elem?-take chunk i (drop (address - image.base_va) image.base) h
    ∙ get_elem?-drop (address - image.base_va) i image.base
    ∙ ap (get_elem? image.base) shift
    ∙ sym (image_view_inside image (address + i) (ground arith))

pub read_image-ReadsChunk :
    (image : Image) (address chunk : ℕ)
    → image.size ≤ length image.base
    → 0 < chunk
    → ReadsChunk
        (λ i. image_view (some image) (address + i))
        chunk
        (read_image (some image) address chunk)
unfolding read_image
read_image-ReadsChunk image address chunk fits some_bytes =
    elim (Bool-cases (contains image address chunk)) [
      | inl inside ↦
          rw (image_read_inside image address chunk inside, read_image)
            (record {
              bytes = λ bs e.
                  let content : take chunk (drop (address - image.base_va) image.base) ≡ bs = cc in
                  (
                    ap length (sym content)
                        ∙ ground (
                          arith,
                          length-take chunk (drop (address - image.base_va) image.base),
                          length-drop (address - image.base_va) image.base,
                        ),
                    λ i h.
                        ap (λ l. get_elem? l i) (sym content)
                        ∙ image_bytes image address chunk i inside h,
                  );
              known = λ all e. cc;
            })
      | inr outside ↦
          rw (image_read_outside image address chunk outside, read_image)
            (record {
              bytes = λ bs e. absurd (cc);
              known = λ all e.
                  let first = image_view-some image (address + 0) (all 0 some_bytes) in
                  let last =
                    image_view-some image (address + (chunk - 1)) (all (chunk - 1) (omega arith)) in
                  ground arith;
            })
    ]

-- A new block shows the image, or nothing where the image does not fill it.
pub fill_block-view :
    (image : Option Image) (index i : ℕ) (free : Block)
    → free.known ≡ 0
    → i < 64
    → index * 64 + 64 ≤ uint64
    → Under (block_view (fill_block image index free) i) (image_view image (index * 64 + i))
unfolding fill_block block_view
fill_block-view none index i free blank h low = inr (let e = testbit-zero i in rw blank (rw e))
fill_block-view (some image) index i free blank h low =
    let address : index * 64 % uint64 ≡ index * 64 = mod-eq_of_lt (omega arith) in
    elim (Bool-cases (contains image (index * 64) 64)) [
      | inl inside ↦
          let e : dearxan_image_read (some image) (index * 64 % uint64) 64
              ≡ some (record {
                bytes = drop (index * 64 - image.base_va) image.base;
                available = image.size - (index * 64 - image.base_va);
              }) =
            rw address (image_read_inside image (index * 64) 64 inside) in
          let bit : testbit i (uint64 - 1) ≡ 1 = testbit-ones i 64 ∙ ground arith in
          inl (rw (e, fill_block) (rw bit (image_bytes image (index * 64) 64 i inside h)))
      | inr outside ↦
          let e : dearxan_image_read (some image) (index * 64 % uint64) 64 ≡ none =
            rw address (image_read_outside image (index * 64) 64 outside) in
          inr (
            rw (e, fill_block)
              (let z : testbit i free.known ≡ 0 = rw blank (testbit-zero i) in rw z))
    ]
