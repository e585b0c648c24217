-- ===== src/Engine/Placing.antt =====
-- src/engine.rs, `write_raw_unshared`: the chunks of a run that was just given out are set to the holes
-- of a file, against the view of `Engine.Contents`.
use vramdisk.Lookup.Key.{Bytes, normalize_key}
use vramdisk.Lookup.NodeMap.{bytes_eq}
use vramdisk.Lookup.NodeMap.Distinct.{Distinct}
use vramdisk.Lookup.Table.{Node, node_at, update_node}
use vramdisk.Placement.{Placement, Codec, raw, compressed}
use vramdisk.Engine.State.{StorageEngine, set_coord, coord_of}
use vramdisk.Engine.Accounts.{Accounts}
use vramdisk.Engine.Refs.{
  refs, refers, placement_at, with_coord, coords_of, refs-update_node, placement_at-update_node,
  Distinct-update_node,
}
use vramdisk.Engine.Nodes.{bare_at, bare_at-update_node, bare_at-found, length-bare}
use vramdisk.Engine.Contents.{IsPlain}
use vramdisk.Engine.Contents.Storing.{Accounts-cong, Accounts-files, SameMode}
use vramdisk.Engine.Resize.{then_mode}
use vramdisk.Engine.RawRuns.{many}
use vramdisk.Engine.RawWrite.{set_coords}
use vramdisk.Common.{
  ℕ, zero, suc, ◌+◌, ◌-◌, ◌≤◌, ◌<◌, ◌≡◌, ◌≢◌, inl, inr, refl, sym, ap, ◌∙◌, arith, Option, none,
  some, ◌==◌, ltb, leb, ◌&&◌, Bool, true, false, if◌then◌else◌, length, Bool-cases,
}

-- No blob, and books that have one reference more for each chunk of the run than the table.
pub record Waits (e : StorageEngine) (start n : ℕ) : Type 0 where
  pub accounts : Accounts e (many (refs e.table) start n)
  pub keyed : Distinct e.table.nodes
  pub raw_only :
      (k : Bytes) (lc offset len : ℕ) (codec : Codec)
      → placement_at e.table k lc ≢ some (compressed offset len codec)

-- The run is in the file, from `lc` on.
abbrev pub placed : StorageEngine → Bytes → ℕ → ℕ → ℕ → Bytes → ℕ → Option Placement
placed e k lc start n j l =
    if bytes_eq k j && (leb lc l && ltb l (lc + n))
    then some (raw (start + (l - lc)))
    else placement_at e.table j l

pub record Places (e : StorageEngine) (k : Bytes) (lc start n : ℕ) (e' : StorageEngine)
    : Type 0 where
  pub plain : IsPlain e'
  pub mode : SameMode e e'
  pub vram : e'.vram ≡ e.vram
  pub nodes : (j : Bytes) → bare_at e'.table j ≡ bare_at e.table j
  pub where_to : (j : Bytes) (l : ℕ) → placement_at e'.table j l ≡ placed e k lc start n j l

one_more :
    (b : Bool) (start lc n l : ℕ) (old new : Option Placement)
    → new ≡ (if b && lc == l then some (raw start) else old)
    → (if b && (leb (lc + 1) l && ltb l (lc + 1 + n))
        then some (raw (start + 1 + (l - (lc + 1))))
        else new)
      ≡ (if b && (leb lc l && ltb l (lc + suc n)) then some (raw (start + (l - lc))) else old)
one_more false start lc n l old new at = at
one_more true start lc n l old new at = ground (arith, at)

Waits-none : (e : StorageEngine) (start : ℕ) → Waits e start 0 → IsPlain e
Waits-none e start w = record {
  accounts =
      Accounts-cong e (many (refs e.table) start 0) (refs e.table) (λ d. ground arith) w.accounts;
  keyed = w.keyed;
  raw_only = w.raw_only;
}

module _ (path : Bytes) where
  abbrev k : Bytes
  k = normalize_key path

  module _ (e : StorageEngine) (start n lc : ℕ) (w : Waits e start (suc n)) (m : Node)
      (found : node_at e.table k ≡ some m) (lt : lc < length m.coords)
      (hole : placement_at e.table k lc ≡ none) where
    abbrev set : StorageEngine
    unfolding set_coord
    set = set_coord e path lc (some (raw start))

    old_hole : coord_of m.coords lc ≡ none
    unfolding placement_at
    old_hole = ap (λ (o : Option Node). coord_of (coords_of o) lc) (sym found) ∙ hole

    set_at :
        (j : Bytes) (l : ℕ)
        → placement_at set.table j l
          ≡ (if bytes_eq k j && lc == l then some (raw start) else placement_at e.table j l)
    unfolding set_coord
    set_at j l = placement_at-update_node e.table k m found lc (some (raw start)) j l lt

    recount : (d : ℕ) → many (refs e.table) start (suc n) d ≡ many (refs set.table) (start + 1) n d
    unfolding set_coord
    recount d = ground (
      arith,
      refs-update_node e.table k m found lc (some (raw start)) d lt,
      ap (refers d) old_hole,
    )

    set-Waits : Waits set (start + 1) n
    unfolding set_coord
    set-Waits = record {
      accounts =
          Accounts-files e _ (update_node e.table k (with_coord lc (some (raw start)))) e.vram refl
            (Accounts-cong e _ _ recount w.accounts);
      keyed = Distinct-update_node e.table k (with_coord lc (some (raw start))) w.keyed;
      raw_only = stays_raw;
    }
      where
        stays_raw :
            (j : Bytes) (l offset len : ℕ) (codec : Codec)
            → placement_at set.table j l ≢ some (compressed offset len codec)
        stays_raw j l offset len codec q = elim (Bool-cases (bytes_eq k j && lc == l)) [
          | inl here ↦ cc (q, rw here at (set_at j l))
          | inr off ↦ w.raw_only j l offset len codec (sym (rw off at (set_at j l)) ∙ q)
        ]

  pub set_coords-Places :
      (n : ℕ) (e : StorageEngine) (start lc : ℕ)
      → Waits e start n
      → (m : Node) → node_at e.table k ≡ some m
      → lc + n ≤ length m.coords
      → ((l : ℕ) → lc ≤ l → l < lc + n → placement_at e.table k l ≡ none)
      → Places e (normalize_key path) lc start n (set_coords n e path lc start)
  unfolding set_coords
  set_coords-Places zero e start lc w m found room holes = record {
    plain = Waits-none e start w;
    mode = record { total = refl; dedup = refl; compress = refl; verify = refl };
    vram = refl;
    nodes = λ j. refl;
    where_to = λ j l. ground arith;
  }
  set_coords-Places (suc n) e start lc w m found room holes =
      let lt : lc < length m.coords = omega arith in
      let hole = holes lc (omega arith) (omega arith) in
      let s = set e start n lc w m found lt hole in
      let kept = bare_at-update_node e.table k m found lc (some (raw start)) in
      let (m', there, alike) = bare_at-found e.table s.table k m (kept k) found in
      let at = set_at e start n lc w m found lt hole in
      let ih =
        set_coords-Places n s (start + 1) (lc + 1) (set-Waits e start n lc w m found lt hole) m'
          there (omega (arith, length-bare m' m alike))
          (λ l from below.
            at k l ∙ later e start lc l (omega arith) ∙ holes l (omega arith) (omega arith)) in
      record {
        plain = ih.plain;
        mode =
            then_mode e s _ (record { total = refl; dedup = refl; compress = refl; verify = refl })
              ih.mode;
        vram = ih.vram;
        nodes = λ j. ih.nodes j ∙ kept j;
        where_to = λ j l. ih.where_to j l ∙ after e start lc n s j l (at j l);
      }
    where
      later :
          (e : StorageEngine) (start lc l : ℕ)
          → lc + 1 ≤ l
          → (if bytes_eq k k && lc == l then some (raw start) else placement_at e.table k l)
            ≡ placement_at e.table k l
      later e start lc l lt = ground arith

      after :
          (e : StorageEngine) (start lc n : ℕ) (s : StorageEngine) (j : Bytes) (l : ℕ)
          → placement_at s.table j l
            ≡ (if bytes_eq k j && lc == l then some (raw start) else placement_at e.table j l)
          → placed s k (lc + 1) (start + 1) n j l ≡ placed e k lc start (suc n) j l
      after e start lc n s j l at =
          one_more (bytes_eq k j) start lc n l (placement_at e.table j l) (placement_at s.table j l)
            at
