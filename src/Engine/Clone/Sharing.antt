-- ===== src/Engine/Clone/Sharing.antt =====
-- src/engine.rs, `clone_range`: the placements of whole chunks go to another place, against the view of
-- `Engine.Contents`.
use vramdisk.Lookup.Key.{Bytes, normalize_key}
use vramdisk.Lookup.NodeMap.{bytes_eq}
use vramdisk.Lookup.NodeMap.Distinct.{Distinct}
use vramdisk.Lookup.Table.{Node, LookupTable, node_at, update_node}
use vramdisk.Placement.{Placement, Codec, compressed}
use vramdisk.Engine.State.{StorageEngine, coord, set_coord, coord_of}
use vramdisk.Engine.Chunks.{free_old}
use vramdisk.Engine.Accounts.{Accounts, SameFiles}
use vramdisk.Engine.Refs.{
  Distinct-update_node, refers, placement_at, with_coord, coords_of, refs-update_node,
  placement_at-update_node,
}
use vramdisk.Engine.Nodes.{bare_at, bare_at-update_node, bare_at-found, length-bare}
use vramdisk.Engine.Contents.{IsPlain, coord_lem}
use vramdisk.Engine.Contents.Commit.{less_one, free_old-Accounts}
use vramdisk.Engine.Contents.Storing.{Accounts-cong, Accounts-files, SameMode}
use vramdisk.Engine.Resize.{then_mode}
use vramdisk.Engine.Clone.{replace_all}
use vramdisk.Engine.Clone.Pending.{with_pending, Awaits, IsLive, Awaits-IsLive}
use vramdisk.Common.{
  ℕ, suc, ◌+◌, ◌-◌, ◌≤◌, ◌<◌, ◌≡◌, ◌≢◌, inl, inr, refl, sym, ap, ◌∙◌, subst, arith, List, [], ◌∷◌,
  Option, none, some, Bool, true, false, ◌==◌, ltb, leb, ◌&&◌, if◌then◌else◌, All, length, get_or,
  Bool-cases,
}

-- The list is in the file, from `lc` on.
abbrev pub replaced : List (Option Placement) → Bool → ℕ → ℕ → Option Placement → Option Placement
replaced ps here lc l old =
    if here && (leb lc l && ltb l (lc + length ps)) then get_or ps (l - lc) none else old

-- The engine is plain and has the same buffer, and only those coordinates are new.
pub record Replaces (e : StorageEngine) (k : Bytes) (lc : ℕ) (ps : List (Option Placement))
    (e' : StorageEngine) : Type 0 where
  pub plain : IsPlain e'
  pub mode : SameMode e e'
  pub vram : e'.vram ≡ e.vram
  pub nodes : (j : Bytes) → bare_at e'.table j ≡ bare_at e.table j
  pub where_to :
      (j : Bytes) (l : ℕ)
      → placement_at e'.table j l ≡ replaced ps (bytes_eq k j) lc l (placement_at e.table j l)

-- Not a blob.
abbrev pub NoBlob : Option Placement → Type 0
NoBlob p = (offset len : ℕ) (codec : Codec) → p ≢ some (compressed offset len codec)

one_more :
    (p : Option Placement) (ps : List (Option Placement)) (b : Bool) (lc l : ℕ)
    (old new : Option Placement)
    → new ≡ (if b && lc == l then p else old)
    → replaced ps b (lc + 1) l new ≡ replaced (p ∷ ps) b lc l old
one_more p ps false lc l old new at = at
one_more p ps true lc l old new at = elim (Bool-cases (lc == l)) [
  | inl here ↦ ground (arith, at, here)
  | inr other ↦ elim (Bool-cases (leb (lc + 1) l)) [
    | inl later ↦
        let next : l - lc ≡ suc (l - (lc + 1)) = ground (arith, later) in
        rw next (ground (arith, at, other, later))
    | inr before ↦ ground (arith, at, other, before)
  ]
]

module _ (path : Bytes) where
  abbrev k : Bytes
  k = normalize_key path

  module _ (p : Option Placement) (ps : List (Option Placement)) (e : StorageEngine) (lc : ℕ)
      (w : Awaits e (p ∷ ps)) (m : Node) (found : node_at e.table k ≡ some m)
      (lt : lc < length m.coords) (no_blob : NoBlob p) where
    abbrev freed : StorageEngine
    freed = free_old e (coord e path lc)

    abbrev moved : StorageEngine
    unfolding set_coord
    moved = set_coord freed path lc p

    abbrev listed : LookupTable
    listed = update_node e.table k (with_coord lc p)

    freed-Accounts :
        Accounts freed (less_one (with_pending e.table (p ∷ ps)) (coord e path lc))
        × SameFiles e freed
    freed-Accounts =
        free_old-Accounts e (with_pending e.table (p ∷ ps)) w.accounts (coord e path lc) (
          subst (IsLive e.alloc.total (with_pending e.table (p ∷ ps))) (sym (coord_lem e path lc))
            (Awaits-IsLive e (p ∷ ps) w k lc))

    old_coord : coord_of m.coords lc ≡ coord e path lc
    unfolding placement_at
    old_coord =
        sym (coord_lem e path lc ∙ ap (λ (o : Option Node). coord_of (coords_of o) lc) found)

    new_table : moved.table ≡ listed
    unfolding set_coord
    new_table = ap (λ (t : LookupTable). update_node t k (with_coord lc p)) freed-Accounts.1.table

    recount :
        (d : ℕ)
        → less_one (with_pending e.table (p ∷ ps)) (coord e path lc) d ≡ with_pending listed ps d
    recount d = omega (arith, refs-update_node e.table k m found lc p d lt, ap (refers d) old_coord)

    moved_at :
        (j : Bytes) (l : ℕ)
        → placement_at moved.table j l
          ≡ (if bytes_eq k j && lc == l then p else placement_at e.table j l)
    moved_at j l =
        ap (λ (t : LookupTable). placement_at t j l) new_table
        ∙ placement_at-update_node e.table k m found lc p j l lt

    moved-Awaits : Awaits moved ps
    unfolding set_coord
    moved-Awaits =
        let (a, s) = freed-Accounts in
        record {
          accounts = Accounts-files freed _ moved.table freed.vram refl (
              Accounts-cong freed _ _
                (λ d. recount d ∙ ap (λ (t : LookupTable). with_pending t ps d) (sym new_table)) a);
          keyed =
              subst (λ (t : LookupTable). Distinct t.nodes) (sym new_table)
                (Distinct-update_node e.table k (with_coord lc p) w.keyed);
          raw_only = stays_raw;
        }
      where
        stays_raw :
            (j : Bytes) (l offset len : ℕ) (codec : Codec)
            → placement_at moved.table j l ≢ some (compressed offset len codec)
        stays_raw j l offset len codec q = elim (Bool-cases (bytes_eq k j && lc == l)) [
          | inl here ↦ no_blob offset len codec (sym (rw here at (moved_at j l)) ∙ q)
          | inr off ↦ w.raw_only j l offset len codec (sym (rw off at (moved_at j l)) ∙ q)
        ]

    moved_mode : SameMode e moved
    unfolding set_coord
    moved_mode =
        let s = freed-Accounts.1 in
        record { total = s.total; dedup = s.dedup; compress = s.compress; verify = s.verify }

    moved_vram : moved.vram ≡ e.vram
    unfolding set_coord
    moved_vram = freed-Accounts.1.vram

    moved_nodes : (j : Bytes) → bare_at moved.table j ≡ bare_at e.table j
    moved_nodes j =
        ap (λ (t : LookupTable). bare_at t j) new_table
        ∙ bare_at-update_node e.table k m found lc p j

  -- The placements go to the file one by one, and what was there is freed; a chunk that is among them
  -- stays in use meanwhile.
  pub replace_all-Replaces :
      (ps : List (Option Placement))
      → All NoBlob ps
      → (e : StorageEngine) (lc : ℕ) → Awaits e ps
      → (m : Node) → node_at e.table k ≡ some m
      → lc + length ps ≤ length m.coords
      → Replaces e (normalize_key path) lc ps (replace_all ps e path lc)
  unfolding replace_all
  replace_all-Replaces [] blobs e lc w m found room = record {
    plain = record {
      accounts = Accounts-cong e _ _ (λ d. omega arith) w.accounts;
      keyed = w.keyed;
      raw_only = w.raw_only;
    };
    mode = record { total = refl; dedup = refl; compress = refl; verify = refl };
    vram = refl;
    nodes = λ j. refl;
    where_to = λ j l. ground arith;
  }
  replace_all-Replaces (p ∷ ps) (no_blob, blobs) e lc w m found room =
      let lt : lc < length m.coords = omega arith in
      let s = moved p ps e lc w m found lt no_blob in
      let kept = moved_nodes p ps e lc w m found lt no_blob in
      let (m', there, alike) = bare_at-found e.table s.table k m (kept k) found in
      let ih =
        replace_all-Replaces ps blobs s (lc + 1) (moved-Awaits p ps e lc w m found lt no_blob) m'
          there (omega (arith, length-bare m' m alike)) in
      record {
        plain = ih.plain;
        mode = then_mode e s _ (moved_mode p ps e lc w m found lt no_blob) ih.mode;
        vram = ih.vram ∙ moved_vram p ps e lc w m found lt no_blob;
        nodes = λ j. ih.nodes j ∙ kept j;
        where_to = λ j l.
            ih.where_to j l
            ∙ one_more p ps (bytes_eq k j) lc l (placement_at e.table j l)
                (placement_at s.table j l) (moved_at p ps e lc w m found lt no_blob j l);
      }
