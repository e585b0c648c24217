-- ===== src/Engine/Clone/Chunks.antt =====
-- src/engine.rs, `clone_range`: the whole chunks that both files share then, against the view of
-- `Engine.Contents`.
use vramdisk.Lookup.Key.{Bytes, normalize_key}
use vramdisk.Lookup.NodeMap.{bytes_eq}
use vramdisk.Lookup.Table.{Node, LookupTable, node_at}
use vramdisk.Placement.{Placement}
use vramdisk.Units.{chunk_size}
use vramdisk.Engine.Vram.{Vram}
use vramdisk.Engine.State.{StorageEngine}
use vramdisk.Engine.Accounts.{Accounts, SameFiles}
use vramdisk.Engine.Refs.{refs, refers, placement_at}
use vramdisk.Engine.Contents.{content, byte_of, IsPlain, CountsFit, coord_lem, placement_cases}
use vramdisk.Lookup.NodeMap.Distinct.{Distinct}
use vramdisk.Engine.Nodes.{bare_at}
use vramdisk.Engine.Laying.{laid, Lays}
use vramdisk.Engine.Read.Runs.{file_byte}
use vramdisk.Engine.Clone.{placements_of, ref_inc_all, replace_all}
use vramdisk.Engine.Clone.Pending.{Awaits, IsLive, ref_inc_all_lem}
use vramdisk.Engine.Clone.Sharing.{replaced, NoBlob, replace_all-Replaces}
use vramdisk.Common.{
  ℕ, zero, suc, ◌+◌, ◌-◌, ◌*◌, ◌/◌, ◌%◌, ◌≤◌, ◌<◌, ◌≡◌, inl, inr, refl, sym, ap, ◌∙◌, subst, arith,
  List, Option, none, some, Bool, true, ltb, leb, ◌&&◌, All, length, get_or, Bool-cases, weigh,
}

module _ (e : StorageEngine) (path : Bytes) where
  length-placements_of : (n lc : ℕ) → length (placements_of n e path lc) ≡ n
  unfolding placements_of
  length-placements_of zero lc = refl
  length-placements_of (suc n) lc = ap suc (length-placements_of n (lc + 1))

  get_or-placements_of :
      (n lc i : ℕ)
      → i < n
      → get_or (placements_of n e path lc) i none
        ≡ placement_at e.table (normalize_key path) (lc + i)
  unfolding placements_of
  get_or-placements_of zero lc i lt = absurd (omega arith)
  get_or-placements_of (suc n) lc zero lt =
      coord_lem e path lc ∙ ap (placement_at e.table (normalize_key path)) (omega arith)
  get_or-placements_of (suc n) lc (suc i) lt =
      get_or-placements_of n (lc + 1) i (omega arith)
      ∙ ap (placement_at e.table (normalize_key path)) (omega arith)

  module _ (v : IsPlain e) where
    placements_of-NoBlob : (n lc : ℕ) → All NoBlob (placements_of n e path lc)
    unfolding placements_of
    placements_of-NoBlob zero lc = tt
    placements_of-NoBlob (suc n) lc = (
      λ offset len codec q.
          v.raw_only (normalize_key path) lc offset len codec (sym (coord_lem e path lc) ∙ q),
      placements_of-NoBlob n (lc + 1),
    )

    placements_of-IsLive :
        (n lc : ℕ) → All (IsLive e.alloc.total (refs e.table)) (placements_of n e path lc)
    unfolding placements_of
    placements_of-IsLive zero lc = tt
    placements_of-IsLive (suc n) lc = (
      subst (IsLive e.alloc.total (refs e.table)) (sym (coord_lem e path lc))
          (placement_cases e v (normalize_key path) lc),
      placements_of-IsLive n (lc + 1),
    )

module _ (src_path dst_path : Bytes) (src_offset dst_offset : ℕ) where
  -- What the byte of the target at a place is to be.
  abbrev pub source_byte : StorageEngine → ℕ → ℕ
  source_byte e q = file_byte e (normalize_key src_path) (src_offset + (q - dst_offset))

module _ (e : StorageEngine) (v : IsPlain e) (shared : e.dedup ≡ true) (src_path dst_path : Bytes)
    (src_offset dst_offset done full : ℕ) (src_at : (src_offset + done) % chunk_size ≡ 0)
    (dst_at : (dst_offset + done) % chunk_size ≡ 0) (few : CountsFit full e) where
  abbrev ks : Bytes
  ks = normalize_key src_path

  abbrev kd : Bytes
  kd = normalize_key dst_path

  abbrev slc : ℕ
  slc = (src_offset + done) / chunk_size

  abbrev dlc : ℕ
  dlc = (dst_offset + done) / chunk_size

  abbrev ps : List (Option Placement)
  ps = placements_of full e src_path slc

  -- The references are counted first.
  counted : Awaits (ref_inc_all ps e) ps × SameFiles e (ref_inc_all ps e)
  counted =
      let (a, s) =
        ref_inc_all_lem e.alloc.total (refs e.table) ps (placements_of-IsLive e src_path v full slc)
          e (refs e.table) refl shared (λ d. omega arith)
          (λ d. omega (arith, few d, length-placements_of e src_path full slc)) v.accounts in
      (
        record {
          accounts =
              subst
                (λ (t : LookupTable).
                  Accounts (ref_inc_all ps e) (λ d. refs t d + weigh (refers d) ps))
                (sym s.table) a;
          keyed = subst (λ (t : LookupTable). Distinct t.nodes) (sym s.table) v.keyed;
          raw_only = λ j l offset len codec q.
              v.raw_only j l offset len codec
                (ap (λ (t : LookupTable). placement_at t j l) (sym s.table) ∙ q);
        },
        s,
      )

  abbrev cloned : StorageEngine
  cloned = replace_all ps (ref_inc_all ps e) dst_path dlc

  abbrev source : ℕ → ℕ
  source = source_byte src_path dst_path src_offset dst_offset e

  abbrev is_shared : ℕ → Bool
  is_shared l = leb dlc l && ltb l (dlc + length ps)

  within :
      (l i : ℕ)
      → i < chunk_size
      → (leb (dst_offset + done) (l * chunk_size + i)
          && ltb (l * chunk_size + i) (dst_offset + done + full * chunk_size))
        ≡ is_shared l
  within l i low = ground (arith, length-placements_of e src_path full slc, dst_at)

  from_source :
      (l i : ℕ)
      → i < chunk_size
      → is_shared l ≡ true
      → byte_of e.vram (get_or ps (l - dlc) none) i ≡ source (l * chunk_size + i)
  unfolding file_byte content
  from_source l i low here =
      let size = length-placements_of e src_path full slc in
      let q : ℕ = src_offset + (l * chunk_size + i - dst_offset) in
      let ge : dlc ≤ l = ground (arith, here) in
      let chunk : slc + (l - dlc) ≡ q / chunk_size = omega (arith, src_at, dst_at) in
      let byte : i ≡ q % chunk_size = omega (arith, src_at, dst_at) in
      ap (λ p. byte_of e.vram p i)
        (get_or-placements_of e src_path full slc (l - dlc) (ground (arith, size, here)))
      ∙ ap (λ (c : ℕ). content e ks c i) chunk
      ∙ ap (content e ks (q / chunk_size)) byte

  in_place :
      (l i : ℕ)
      → i < chunk_size
      → (old : Option Placement)
      → byte_of e.vram (replaced ps true dlc l old) i
        ≡ laid
            (dst_offset + done)
            (full * chunk_size)
            source
            (l * chunk_size + i)
            (byte_of e.vram old i)
  in_place l i low old = rw (within l i low) (elim (Bool-cases (is_shared l)) [
    | inl here ↦ rw here (from_source l i low here)
    | inr off ↦ rw off refl
  ])

  -- The whole chunks of the target read as those of the source, all else reads as before, and the
  -- engine is plain.
  pub cloned-Lays :
      (m : Node)
      → node_at e.table kd ≡ some m
      → dlc + full ≤ length m.coords
      → Lays e
          (normalize_key dst_path)
          (dst_offset + done)
          (full * chunk_size)
          (source_byte src_path dst_path src_offset dst_offset e)
          (replace_all
            (placements_of full e src_path ((src_offset + done) / chunk_size))
            (ref_inc_all (placements_of full e src_path ((src_offset + done) / chunk_size)) e)
            dst_path
            ((dst_offset + done) / chunk_size))
  unfolding content
  cloned-Lays m found room =
      let (w, s) = counted in
      let r =
        replace_all-Replaces dst_path ps (placements_of-NoBlob e src_path v full slc)
          (ref_inc_all ps e) dlc w m (ap (λ (t : LookupTable). node_at t kd) s.table ∙ found)
          (omega (arith, room, length-placements_of e src_path full slc)) in
      record {
        plain = r.plain;
        mode = record {
          total = r.mode.total ∙ s.total;
          dedup = r.mode.dedup ∙ s.dedup;
          compress = r.mode.compress ∙ s.compress;
          verify = r.mode.verify ∙ s.verify;
        };
        nodes = λ j. r.nodes j ∙ ap (λ (t : LookupTable). bare_at t j) s.table;
        contents = λ j l i low.
            ap (λ (u : Vram). byte_of u (placement_at cloned.table j l) i) (r.vram ∙ s.vram)
            ∙ ap (λ p. byte_of e.vram p i) (r.where_to j l)
            ∙ ap
                (λ (t : LookupTable).
                  byte_of e.vram (replaced ps (bytes_eq kd j) dlc l (placement_at t j l)) i)
                s.table
            ∙ elim (Bool-cases (bytes_eq kd j)) [
              | inl same ↦ rw same (in_place l i low (placement_at e.table j l))
              | inr other ↦ rw other refl
            ];
      }
