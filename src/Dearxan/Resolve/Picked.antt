-- ===== src/Dearxan/Resolve/Picked.antt =====
-- src/dearxan/encryption.c: what is relocated and returned are still copies of some of the lists.
use yafsml.Prelude.{ℕ, zero, suc, ap, sym, ◌∙◌, Bool, Option, some, List, [], ◌∷◌, take, if_lem}
use yafsml.Dearxan.RegionLists.{EncryptedRegionList, RegionCopy}
use yafsml.Dearxan.Resolve.{keep_lists}
use yafsml.Dearxan.Resolve.Moved.{SameLists}
use yafsml.Dearxan.Resolve.Cloned.{Picks, all, left_out, picked}

pub SameLists-Picks :
    {lists : List (Option EncryptedRegionList)} {copies : List RegionCopy}
    → Picks lists copies
    → (new : List RegionCopy) → SameLists copies new
    → Picks lists new
SameLists-Picks all [] same = all
SameLists-Picks all (d ∷ new) same = absurd same
SameLists-Picks (left_out more) new same = left_out (SameLists-Picks more new same)
SameLists-Picks (picked copy more) [] same = absurd same
SameLists-Picks (picked copy more) (d ∷ new) same =
    picked
      (record {
        kind = sym same.0.kind ∙ copy.kind;
        regions = copy.regions ∙ ap some same.0.regions;
      })
      (SameLists-Picks more new same.1)

pub keep_lists-Picks :
    {lists : List (Option EncryptedRegionList)} {copies : List RegionCopy} (eliminated : ℕ → Bool)
    (i : ℕ)
    → Picks lists copies
    → Picks lists (keep_lists i eliminated copies)
unfolding keep_lists
keep_lists-Picks eliminated i all = all
keep_lists-Picks eliminated i (left_out more) = left_out (keep_lists-Picks eliminated i more)
keep_lists-Picks eliminated i (picked copy more) =
    if_lem (Picks _) (eliminated i) _ _
      (λ gone. left_out (keep_lists-Picks eliminated (suc i) more))
      (λ kept. picked copy (keep_lists-Picks eliminated (suc i) more))

pub no-Picks : (lists : List (Option EncryptedRegionList)) → Picks lists []
no-Picks [] = all
no-Picks (x ∷ lists) = left_out (no-Picks lists)

pub take-Picks :
    (n : ℕ) (lists : List (Option EncryptedRegionList)) {copies : List RegionCopy}
    → Picks (take n lists) copies
    → Picks lists copies
take-Picks zero lists all = no-Picks lists
take-Picks (suc n) [] all = all
take-Picks (suc n) (x ∷ lists) (left_out more) = left_out (take-Picks n lists more)
take-Picks (suc n) (some l ∷ lists) (picked copy more) = picked copy (take-Picks n lists more)
