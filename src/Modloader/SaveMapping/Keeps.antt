-- ===== src/Modloader/SaveMapping/Keeps.antt =====
-- src/modloader/patches/save_mapping.c: a route keeps the tables in order.
use yafsml.Prelude.{
  ℕ, ◌≡◌, refl, Bool, true, false, not, ◌||◌, ◌&&◌, Option, none, some, ◌++◌, codes, if◌then◌else◌,
  if_lem, arith,
}
use yafsml.Common.Path.{Wide}
use yafsml.Modloader.Vfs.Table.{HashTable}
use yafsml.Modloader.Vfs.Writable.{Writable, vfs_register_writable_path}
use yafsml.Modloader.SaveMapping.{SaveMappings, canonicalize_path}
use yafsml.Modloader.SaveExtensions.{extension_in}
use yafsml.Modloader.SaveMapping.Steps.{Kept, remember-Kept, remember-others}
use yafsml.Modloader.SaveMapping.Route
use yafsml.Modloader.SaveMapping.Links.{
  target_of, System, Memory, extension_of, logical_of, path_is_under_root, is_interesting,
  path_contains_link,
}
use yafsml.Modloader.SaveMapping.Route.{Routed}

-- A predicate of both cases holds of an option.
pub option_lem {ℓ κ ι} :
    {A : Type ℓ} {B : Type κ} (P : B → Type ι) (o : Option A) (n : B) (f : A → B)
    → (o ≡ none → P n)
    → ((a : A) → P (f a))
    → P (elim o as (λ x. B) [ none ↦ n | some a ↦ f a ])
option_lem P none n f x g = x refl
option_lem P (some a) n f x g = g a

module _ (towlower : ℕ → ℕ) (ordinal_equal : Wide → Wide → Bool) (C : HashTable (Option Wide))
    (s : SaveMappings) where
  -- The mappings and the root stay, and the answer `false` leaves the save mapping as it is.
  pub record Keeps (r : Routed towlower ordinal_equal C) : Type 0 where
    pub kept : Kept r.state
    pub mappings : r.state.mappings ≡ s.mappings
    pub save_root : r.state.save_root ≡ s.save_root
    pub unmapped : r.result ≡ false → (r.mapped_path ≡ none) × (r.state ≡ s)

  module _ (system : System) (memory : Memory) (depth : ℕ) (k : Kept s) where
    same-Keeps :
        (result : Bool) (mapped : Option Wide) (w : Writable towlower ordinal_equal C)
        → (result ≡ false → mapped ≡ none)
        → Keeps (record { result = result; mapped_path = mapped; state = s; writable = w })
    same-Keeps result mapped w h = record {
      kept = k;
      mappings = refl;
      save_root = refl;
      unmapped = λ e. (h e, refl);
    }

    remembered-Keeps :
        (extension : Wide) (w : Writable towlower ordinal_equal C)
        → Keeps (Route.deny_and_remember towlower ordinal_equal C system memory depth extension s w)
    unfolding Route.deny_and_remember
    remembered-Keeps extension w =
        let others = remember-others system.same_text system.wcsicmp extension s in
        record {
          kept = remember-Kept system.same_text system.wcsicmp (some extension) s k;
          mappings = others.0;
          save_root = others.1;
          unmapped = λ e. absurd (ground arith);
        }

    opened-Keeps :
        (answer : Option Wide) (extension : Wide) (w : Writable towlower ordinal_equal C)
        → Keeps (Route.opened towlower ordinal_equal C system memory depth answer extension s w)
    opened-Keeps none extension w = remembered-Keeps extension w
    opened-Keeps (some mapped) extension w =
        same-Keeps true (some mapped) w (λ e. absurd (ground arith))

    register_target-Keeps :
        (path target extension : Wide) (w : Writable towlower ordinal_equal C)
        → Keeps (
            Route.register_target towlower ordinal_equal C system memory depth path target extension
              s w)
    unfolding Route.register_target
    register_target-Keeps path target extension w =
        let registered =
          vfs_register_writable_path towlower ordinal_equal C memory.registered w path target in
        if_lem Keeps registered.answer _ _ (λ e. opened-Keeps _ extension _)
          (λ e. remembered-Keeps extension _)

    seed_target-Keeps :
        (path source target extension : Wide) (w : Writable towlower ordinal_equal C)
        → Keeps (
            Route.seed_target towlower ordinal_equal C system memory depth path source target
              extension s w)
    unfolding Route.seed_target
    seed_target-Keeps path source target extension w =
        if_lem Keeps
          (not (system.file_exists target)
            && system.file_exists source
            && not (system.copy_file source target))
          _ _ (λ e. remembered-Keeps extension w)
          (λ e. register_target-Keeps path target extension w)

    -- An answer of the virtual file system is taken, or the route goes on.
    answered-Keeps :
        (path : Wide) (w : Writable towlower ordinal_equal C) (go : Routed towlower ordinal_equal C)
        → Keeps go
        → Keeps
            (elim (Route.written towlower ordinal_equal C system memory depth w path).answer
              as (λ x. Routed towlower ordinal_equal C) [
                | some mapped ↦ record {
                  result = true;
                  mapped_path = some mapped;
                  state = s;
                  writable =
                      (Route.written towlower ordinal_equal C system memory depth w path).state;
                }
                | none ↦ go
              ])
    answered-Keeps path w go h =
        option_lem Keeps (Route.written towlower ordinal_equal C system memory depth w path).answer
          _ _ (λ missing. h)
          (λ mapped. same-Keeps true (some mapped) _ (λ e. absurd (ground arith)))

    route_target-Keeps :
        (path source target extension : Wide) (w : Writable towlower ordinal_equal C)
        → Keeps (
            Route.route_target towlower ordinal_equal C system memory depth path source target
              extension s w)
    unfolding Route.route_target
    route_target-Keeps path source target extension w =
        answered-Keeps path w _ (seed_target-Keeps path source target extension _)

    denied-Keeps :
        (w : Writable towlower ordinal_equal C)
        → Keeps (Route.denied towlower ordinal_equal C system memory depth s w)
    denied-Keeps w = same-Keeps true none w (λ e. refl)

    untouched-Keeps :
        (w : Writable towlower ordinal_equal C)
        → Keeps (Route.untouched towlower ordinal_equal C system memory depth s w)
    untouched-Keeps w = same-Keeps false none w (λ e. refl)

    map_name-Keeps :
        (path source : Wide) (backup : Bool) (logical name : Wide)
        (w : Writable towlower ordinal_equal C)
        → Keeps (
            Route.map_name towlower ordinal_equal C system memory depth path source backup logical
              name s w)
    unfolding Route.map_name
    map_name-Keeps path source backup logical name w =
        if_lem Keeps (not memory.target) _ _ (λ e. remembered-Keeps (extension_of system logical) w)
          (λ e.
            if_lem Keeps (backup && not memory.backup) _ _ (λ e. denied-Keeps w)
              (λ e.
                route_target-Keeps path source
                  (if backup
                    then target_of system logical name ++ codes ".bak"
                    else target_of system logical name)
                  (extension_of system logical) w))

    route_logical-Keeps :
        (root : Option Wide) (path source : Wide) (w : Writable towlower ordinal_equal C)
        → Keeps
            (Route.route_logical towlower ordinal_equal C system memory depth root path source s w)
    unfolding Route.route_logical
    route_logical-Keeps root path source w =
        if_lem Keeps (not memory.logical) _ _ (λ e. denied-Keeps w)
          (λ e.
            if_lem Keeps
              (extension_in system.same_text (extension_of system (logical_of system source))
                s.failed_extensions)
              _ _ (λ e. denied-Keeps w)
              (λ e.
                option_lem Keeps _ _ _ (λ missing. untouched-Keeps w)
                  (λ name.
                    map_name-Keeps path source
                      (system.same_text (extension_of system source) (codes ".bak"))
                      (logical_of system source) name w)))

    route_rooted-Keeps :
        (root : Option Wide) (path source : Wide) (w : Writable towlower ordinal_equal C)
        → Keeps
            (Route.route_rooted towlower ordinal_equal C system memory depth root path source s w)
    unfolding Route.route_rooted
    route_rooted-Keeps none path source w = route_logical-Keeps none path source w
    route_rooted-Keeps (some root) path source w =
        if_lem Keeps (not (path_is_under_root system source root)) _ _ (λ e. untouched-Keeps w)
          (λ e.
            if_lem Keeps (path_contains_link system memory.checked source root) _ _
              (λ e. denied-Keeps w)
              (λ e. answered-Keeps path w _ (route_logical-Keeps (some root) path source _)))

    -- A route changes no mapping and no root and leaves the tables in order. Where it answers
    -- false there is no mapped path, and the failed extensions and the flag of the save mapping
    -- are as before too; the cache of written paths may change. The tables are in order before.
    pub ml_save_mapping_route-Keeps :
        (path : Option Wide) (output : Bool) (w : Writable towlower ordinal_equal C)
        → Keeps (
            Route.ml_save_mapping_route towlower ordinal_equal C system memory depth path output s
              w)
    unfolding Route.ml_save_mapping_route
    ml_save_mapping_route-Keeps none output w = untouched-Keeps w
    ml_save_mapping_route-Keeps (some path) output w =
        if_lem Keeps (not output || not s.mapping_active) _ _ (λ e. untouched-Keeps w)
          (λ e.
            if_lem Keeps (is_interesting system (extension_of system path) s) _ _
              (λ e.
                option_lem Keeps (canonicalize_path system.full_path path) _ _
                  (λ missing. untouched-Keeps w)
                  (λ source.
                    route_rooted-Keeps (if memory.root then s.save_root else none) path source w))
              (λ e. untouched-Keeps w))
