-- ===== src/Engine/Writes/Share.antt =====
-- src/engine.rs, `try_share_hashed` and the rest of `write_chunk` for a whole chunk under dedup:
-- chunks with the same bytes are shared, and others are stored and indexed.
use vramdisk.Lookup.Key.{Bytes, normalize_key}
use vramdisk.Lookup.NodeMap.{bytes_eq}
use vramdisk.Lookup.NodeMap.Laws.{bytes_eq_iff}
use vramdisk.Lookup.Table.{Node, LookupTable, node_at}
use vramdisk.Placement.{Placement, raw}
use vramdisk.Units.{chunk_size}
use vramdisk.Engine.Result.{EResult, ok}
use vramdisk.Engine.Dict
use vramdisk.Engine.Vram.{Vram, bytes_at, write_at, written, write_at_inside, get_or-bytes_at}
use vramdisk.Engine.State.{
  External, StorageEngine, and_then, on_vram, coord, set_coord, ref_inc, ref_inc_placement,
  alloc_chunk, index_insert, index_remove,
}
use vramdisk.Engine.Chunks.{
  then_ok, confirm_candidate, candidate_matches_bytes, share_placement, try_share_hashed, free_old,
}
use vramdisk.Engine.Store.{store_unique}
use vramdisk.Engine.Accounts.{more, Accounts, SameFiles, SameFiles-trans, Allots}
use vramdisk.Engine.Accounts.Alloc.{alloc_chunk_lem, ref_inc-Accounts, ref_inc-SameFiles}
use vramdisk.Engine.Accounts.Enter.{index_insert-Accounts}
use vramdisk.Engine.Accounts.Index.{unreferenced-NotIndexed, index_remove_lem}
use vramdisk.Engine.Refs.{refs, placement_at}
use vramdisk.Engine.Contents.{content, IsPlain, CountsFit, coord_lem, placement_cases, read_chunk}
use vramdisk.Engine.Contents.Storing.{Stores, Stores-cong, Written, IsReady, fresh-IsReady}
use vramdisk.Engine.Contents.Commit.{known-Stores}
use vramdisk.Engine.Contents.Overlay.{overlay_whole, whole_elsewhere, whole_here}
use vramdisk.Engine.Writes.InPlace.{poked-Stores, chunk_in_file}
use vramdisk.Common.{
  ℕ, ◌+◌, ◌*◌, ◌^◌, ◌≤◌, ◌<◌, ◌≡◌, ◌⊎◌, inl, inr, refl, sym, ap, ◌∙◌, subst, arith, Option, some,
  Bool, true, false, ◌==◌, length, Bool-cases, Option-cases, get_or, by_true,
}

-- The books may change on the way.
IsReady-after :
    (e : StorageEngine) (c : ℕ) (b f : StorageEngine)
    → IsReady e c b
    → SameFiles b f
    → Accounts f (more (refs e.table) c)
    → IsReady e c f
IsReady-after e c b f ready s acc = record {
  accounts = acc;
  table = s.table ∙ ready.table;
  mode = record {
    total = s.total ∙ ready.mode.total;
    dedup = s.dedup ∙ ready.mode.dedup;
    compress = s.compress ∙ ready.mode.compress;
    verify = s.verify ∙ ready.mode.verify;
  };
  below = ready.below;
  kept = λ d i lt live low.
      ap (λ (u : Vram). u.byte (d * chunk_size + i)) s.vram ∙ ready.kept d i lt live low;
}

module _ (e : StorageEngine) (v : IsPlain e) (path : Bytes) (lc : ℕ) (n : Node)
    (found : node_at e.table (normalize_key path) ≡ some n) (lt : lc < length n.coords)
    (shared : e.dedup ≡ true) (sub : Bytes) (whole : length sub ≡ chunk_size) where
  abbrev k : Bytes
  k = normalize_key path

  abbrev new : ℕ → ℕ
  new i = get_or sub i 0

  -- Pointing the file at a chunk with the same bytes.
  share_placement-Stores :
      (c : ℕ)
      → c < e.alloc.total
      → 0 < refs e.table c
      → refs e.table c + 1 < 2 ^ 32
      → bytes_at e.vram.byte chunk_size (c * chunk_size) ≡ sub
      → Stores e (normalize_key path) lc (λ i. get_or sub i 0) (share_placement e path lc (raw c))
  unfolding share_placement ref_inc_placement
  share_placement-Stores c below live few equal =
      let s = ref_inc-SameFiles e c in
      let ready : IsReady e c (ref_inc e c) = record {
        accounts = ref_inc-Accounts e (refs e.table) v.accounts c below live shared few;
        table = s.table;
        mode = record {
          total = s.total;
          dedup = s.dedup;
          compress = s.compress;
          verify = s.verify;
        };
        below = below;
        kept = λ d i lt live low. ap (λ (u : Vram). u.byte (d * chunk_size + i)) s.vram;
      } in
      Stores-cong e k lc _ _ _
        (λ i low.
          ap (λ (u : Vram). u.byte (c * chunk_size + i)) s.vram
          ∙ sym (get_or-bytes_at e.vram.byte chunk_size (c * chunk_size) i low)
          ∙ ap (λ (b : Bytes). get_or b i 0) equal)
        (known-Stores e v path lc n found lt c (ref_inc e c) ready (coord (ref_inc e c) path lc) (
          coord_lem e path lc
          ∙ sym (ap (λ (t : LookupTable). placement_at t k lc) s.table)
          ∙ sym (coord_lem (ref_inc e c) path lc)))

  module _ (x : External) (verify : e.dedup_verify_bytes ≡ true) where
    confirm_lem :
        (c h : ℕ)
        → c < e.alloc.total
        → confirm_candidate x e (raw c) h sub
          ≡ ok (bytes_eq (bytes_at e.vram.byte chunk_size (c * chunk_size)) sub)
    unfolding confirm_candidate candidate_matches_bytes
    confirm_lem c h below =
        by_true
          (λ (o : EResult Bool).
            o ≡ ok (bytes_eq (bytes_at e.vram.byte chunk_size (c * chunk_size)) sub))
          _ _ _ verify
          (ap (λ (o : EResult Bytes). then_ok o (λ stored. ok (bytes_eq stored sub)))
            (read_chunk e v c below))

    -- Sharing is refused without a change, or stores the bytes.
    pub try_share_hashed_lem :
        CountsFit 1 e
        → (h : ℕ)
        → (try_share_hashed x e path lc h sub ≡ (e, ok false))
          ⊎ ((e' : StorageEngine) × (try_share_hashed x e path lc h sub ≡ (e', ok true))
              × Stores e (normalize_key path) lc (λ i. get_or sub i 0) e')
    unfolding try_share_hashed
    try_share_hashed_lem few h = elim (Option-cases (Dict.get h e.hash_index)) [
      | inl unknown ↦ inl (rw (unknown, try_share_hashed) refl)
      | inr (p, g) ↦
          let i = v.accounts.indexed h p g in
          let entry : Dict.get h e.hash_index ≡ some (raw i.chunk) = g ∙ ap some i.is in
          elim (Bool-cases
            (bytes_eq (bytes_at e.vram.byte chunk_size (i.chunk * chunk_size)) sub)) [
              | inl equal ↦ inr (
                share_placement e path lc (raw i.chunk),
                rw (entry, try_share_hashed) (rw (confirm_lem i.chunk h i.below, equal) refl),
                share_placement-Stores i.chunk i.below i.live (few i.chunk) (
                    (bytes_eq_iff (bytes_at e.vram.byte chunk_size (i.chunk * chunk_size)) sub).0
                      equal),
              )
              | inr differs ↦
                  inl (
                    rw (entry, try_share_hashed) (rw (confirm_lem i.chunk h i.below, differs) refl))
            ]
    ]

  -- A chunk that was just given out and filled enters the index.
  indexed-IsReady :
      (a : StorageEngine) (c h : ℕ)
      → Allots e (refs e.table) a c
      → IsReady e c (
          index_insert
            (record a {
              vram = record { size = a.vram.size; byte = written a.vram.byte (c * chunk_size) sub };
            })
            c
            h)
  indexed-IsReady a c h al =
      let b : StorageEngine = record a {
        vram = record { size = a.vram.size; byte = written a.vram.byte (c * chunk_size) sub };
      } in
      let ready : IsReady e c b =
        fresh-IsReady e c a b.vram al (ap (λ (u : Vram). u.size) al.same.vram) (λ d i low ne.
          whole_elsewhere a.vram.byte c i sub whole low d ne
          ∙ ap (λ (u : Vram). u.byte (d * chunk_size + i)) al.same.vram) in
      let (acc, s) =
        index_insert-Accounts b (more (refs e.table) c) ready.accounts c h (al.same.dedup ∙ shared)
          (omega (arith, al.below, al.same.total)) (ground arith)
          (λ h2 g.
            unreferenced-NotIndexed e (refs e.table) v.accounts c al.was_free h2
              (sym (ap (Dict.get h2) al.index) ∙ g)) in
      IsReady-after e c b (index_insert b c h) ready s acc

  -- The fresh chunk of `store_unique`, once the old placement is known.
  store_fresh :
      (h : ℕ) (old : Option Placement)
      → coord e path lc ≡ old
      → Written e
          (normalize_key path)
          lc
          (λ i. get_or sub i 0)
          (and_then (alloc_chunk e) (λ a c.
            and_then (on_vram a (write_at a.vram (c * chunk_size) sub)) (λ b w.
              (set_coord (free_old (index_insert b c h) old) path lc (some (raw c)), ok tt))))
  unfolding index_insert
  store_fresh h old known = elim (alloc_chunk_lem e (refs e.table) v.accounts) [
    | inl (q, full) ↦ rw q (inl (refl, full))
    | inr (a, c, q, al) ↦
        rw (q, write_at_inside a.vram (c * chunk_size) sub (omega (arith, whole)) (room a c al))
          (inr (
            _,
            refl,
            Stores-cong e k lc _ _ _ (λ i low. whole_here a.vram.byte c i sub whole low)
                (known-Stores e v path lc n found lt c _ (indexed-IsReady a c h al) old known),
          ))
  ]
    where
      room :
          (a : StorageEngine) (c : ℕ)
          → Allots e (refs e.table) a c
          → c * chunk_size + length sub ≤ a.vram.size
      room a c al =
          omega (arith, whole, al.below, v.accounts.fits, ap (λ (u : Vram). u.size) al.same.vram)

  -- The chunk of `store_unique` that is overwritten.
  store_over :
      (c h : ℕ)
      → coord e path lc ≡ some (raw c)
      → refs e.table c ≡ 1
      → Written e
          (normalize_key path)
          lc
          (λ i. get_or sub i 0)
          (and_then
            (on_vram (index_remove e c) (write_at (index_remove e c).vram (c * chunk_size) sub))
            (λ b w. (index_insert b c h, ok tt)))
  unfolding index_insert
  store_over c h here own =
      let (acc, out, s, _, _) = index_remove_lem e (refs e.table) v.accounts c in
      let (below, live) = chunk_in_file e v path lc c here in
      let (acc2, s2) =
        index_insert-Accounts (index_remove e c) (refs e.table) acc c h (s.dedup ∙ shared)
          (omega (arith, below, s.total)) live out in
      rw
        (write_at_inside (index_remove e c).vram (c * chunk_size) sub (omega (arith, whole))
          (omega (arith, whole, below, v.accounts.fits, ap (λ (u : Vram). u.size) s.vram)))
        (inr (
          _,
          refl,
          subst
              (λ (m : ℕ).
                Stores e (normalize_key path) lc (λ i. get_or sub i 0)
                  (record (index_insert (index_remove e c) c h) {
                    vram = record {
                      size = (index_remove e c).vram.size;
                      byte = written (index_remove e c).vram.byte m sub;
                    };
                  }))
              at_start
              (Stores-cong e k lc _ _ _
                (λ i low. overlay_whole sub (content e k lc) i (omega (arith, whole)))
                (poked-Stores e v path lc c here own (index_insert (index_remove e c) c h)
                  (SameFiles-trans e (index_remove e c) _ s s2) acc2 0 sub (omega (arith, whole)))),
        ))
    where
      at_start : c * chunk_size + 0 ≡ c * chunk_size
      at_start = omega arith

  -- Storing a whole chunk that is not shared.
  pub store_unique_lem :
      (h : ℕ)
      → Written e (normalize_key path) lc (λ i. get_or sub i 0) (store_unique e path lc sub h)
  unfolding store_unique
  store_unique_lem h = elim (placement_cases e v k lc) [
    | inl hole ↦
        rw (coord_lem e path lc ∙ hole, store_unique) (store_fresh h (coord e path lc) refl)
    | inr (c, q, below, live) ↦
        rw (coord_lem e path lc ∙ q, store_unique)
          (elim (Bool-cases (get_or e.refcount c 0 == 1)) [
            | inl own ↦ rw own (
                store_over c h (coord_lem e path lc ∙ q)
                  (ground (arith, own, v.accounts.counted shared c below)))
            | inr others ↦ rw others (store_fresh h (coord e path lc) refl)
          ])
  ]
