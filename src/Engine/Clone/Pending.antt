-- ===== src/Engine/Clone/Pending.antt =====
-- src/engine.rs, `clone_range`: the references that are counted before the placements are in the table.
use vramdisk.Lookup.Key.{Bytes}
use vramdisk.Lookup.NodeMap.Distinct.{Distinct}
use vramdisk.Lookup.Table.{LookupTable}
use vramdisk.Placement.{Placement, Codec, raw, compressed}
use vramdisk.Engine.State.{StorageEngine, ref_inc, ref_inc_placement}
use vramdisk.Engine.Accounts.{Refs, more, Accounts, SameFiles, SameFiles-refl, SameFiles-trans}
use vramdisk.Engine.Accounts.Alloc.{ref_inc-Accounts, ref_inc-SameFiles}
use vramdisk.Engine.Refs.{refs, refers, placement_at, le-refs}
use vramdisk.Engine.Contents.Storing.{Accounts-cong}
use vramdisk.Engine.Clone.{ref_inc_all}
use vramdisk.Common.{
  ℕ, ◌+◌, ◌≤◌, ◌<◌, ◌≡◌, ◌≢◌, ◌⊎◌, inl, inr, refl, ◌∙◌, arith, List, [], ◌∷◌, Option, none, some,
  true, All, weigh, length, ◌^◌,
}

-- The references of the table and of placements that are to come.
abbrev pub with_pending : LookupTable → List (Option Placement) → Refs
with_pending t ps d = refs t d + weigh (refers d) ps

-- No blob, and books that count the placements that are to come.
pub record Awaits (e : StorageEngine) (ps : List (Option Placement)) : Type 0 where
  pub accounts : Accounts e (with_pending e.table ps)
  pub keyed : Distinct e.table.nodes
  pub raw_only :
      (k : Bytes) (lc offset len : ℕ) (codec : Codec)
      → placement_at e.table k lc ≢ some (compressed offset len codec)

-- Nothing, or a chunk of the disk that is counted.
abbrev pub IsLive : ℕ → Refs → Option Placement → Type 0
IsLive total r p = (p ≡ none) ⊎ ((c : ℕ) × (p ≡ some (raw c)) × (c < total) × (0 < r c))

-- The coordinates of the table are such.
pub Awaits-IsLive :
    (e : StorageEngine) (ps : List (Option Placement))
    → Awaits e ps
    → (k : Bytes) (lc : ℕ)
    → IsLive e.alloc.total (with_pending e.table ps) (placement_at e.table k lc)
Awaits-IsLive e ps w k lc = go (placement_at e.table k lc) refl
  where
    go :
        (p : Option Placement)
        → placement_at e.table k lc ≡ p
        → IsLive e.alloc.total (with_pending e.table ps) (placement_at e.table k lc)
    go none q = inl q
    go (some (raw c)) q =
        let one = le-refs e.table c k lc q in
        inr (c, q, ground (arith, one, w.accounts.beyond c), omega (arith, one))
    go (some (compressed offset len codec)) q = absurd (w.raw_only k lc offset len codec q)

module _ (total : ℕ) (base : Refs) where
  -- Each chunk of the list gets a reference more for each place that it has there, where no count
  -- wraps.
  pub ref_inc_all_lem :
      (ps : List (Option Placement))
      → All (IsLive total base) ps
      → (e : StorageEngine) (r : Refs) → e.alloc.total ≡ total
      → e.dedup ≡ true
      → ((d : ℕ) → base d ≤ r d)
      → ((d : ℕ) → r d + length ps < 2 ^ 32)
      → Accounts e r
      → Accounts (ref_inc_all ps e) (λ d. r d + weigh (refers d) ps)
        × SameFiles e (ref_inc_all ps e)
  unfolding ref_inc_all
  ref_inc_all_lem [] live e r same shared low few acc =
      (Accounts-cong e r _ (λ d. omega arith) acc, SameFiles-refl e)
  ref_inc_all_lem (p ∷ ps) (inl hole, live) e r same shared low few acc =
      let (a, s) = ref_inc_all_lem ps live e r same shared low (λ d. omega (arith, few d)) acc in
      rw hole (Accounts-cong _ _ _ (λ d. omega arith) a, s)
  ref_inc_all_lem (p ∷ ps) (inr (c, q, below, one), live) e r same shared low few acc =
      let s = ref_inc-SameFiles e c in
      let one_more =
        ref_inc-Accounts e r acc c (omega (arith, same)) (omega (arith, low c)) shared
          (omega (arith, few c)) in
      let (a, t) =
        ref_inc_all_lem ps live (ref_inc e c) (more r c) (s.total ∙ same) (s.dedup ∙ shared)
          (λ d. ground (arith, low d)) (λ d. ground (arith, few d)) one_more in
      rw q (
        unfold ref_inc_placement in
        (Accounts-cong _ _ _ (λ d. ground arith) a, SameFiles-trans e (ref_inc e c) _ s t))
