-- ===== src/Engine/RunWrites.antt =====
-- src/engine.rs, `write_raw_unshared`: one round of its loop, on engines without dedup, against the view
-- of `Engine.Contents`. A round gives a run of chunks to holes, or writes over a run of chunks.
use vramdisk.Lookup.Key.{Bytes, normalize_key}
use vramdisk.Lookup.NodeMap.{bytes_eq}
use vramdisk.Lookup.Table.{Node, LookupTable, node_at}
use vramdisk.Lookup.NodeMap.Distinct.{Distinct}
use vramdisk.Units.{chunk_size}
use vramdisk.Chunk.{free}
use vramdisk.Engine.Result.{EResult, ok, err, no_space}
use vramdisk.Engine.Vram.{Vram, written, write_at_inside}
use vramdisk.Engine.State.{StorageEngine, Outcome, and_then, on_vram}
use vramdisk.Engine.Accounts.{Accounts}
use vramdisk.Engine.Refs.{refs, placement_at}
use vramdisk.Engine.Nodes.{bare_at}
use vramdisk.Engine.Contents.{content, byte_of, IsPlain, placement_cases}
use vramdisk.Engine.Contents.Storing.{Accounts-files}
use vramdisk.Engine.Laying.{laid, Lays}
use vramdisk.Engine.RawRuns.{many, AllotsRun, alloc_contiguous_run_lem}
use vramdisk.Engine.Placing.{Waits, Places, placed, set_coords-Places}
use vramdisk.Engine.RawWrite.{set_coords, put_run, fill_holes}
use vramdisk.Common.{
  ℕ, ◌+◌, ◌-◌, ◌*◌, ◌≤◌, ◌<◌, ◌≡◌, ◌⊎◌, inl, inr, refl, sym, ap, ◌∙◌, subst, arith, none, some,
  true, false, ltb, leb, ◌&&◌, if◌then◌else◌, length, get_or, take, Bool-cases, by_true,
  length-take, get_or-take,
}

-- A run of chunks is written: each chunk of it has its part of the bytes.
pub run_written :
    (mem : ℕ → ℕ) (start n d i : ℕ) (bytes : Bytes)
    → length bytes ≡ n * chunk_size
    → i < chunk_size
    → written mem (start * chunk_size) bytes (d * chunk_size + i) ≡ (
        if leb start d && ltb d (start + n)
        then get_or bytes ((d - start) * chunk_size + i) 0
        else mem (d * chunk_size + i))
run_written mem start n d i bytes long low = ground (arith, long)

module _ (e : StorageEngine) (v : IsPlain e) (plain : e.dedup ≡ false) (path : Bytes) (lc count : ℕ)
    (rest : Bytes) (new : ℕ → ℕ) (enough : count * chunk_size ≤ length rest)
    (same : (i : ℕ) → i < count * chunk_size → get_or rest i 0 ≡ new (lc * chunk_size + i)) where
  abbrev k : Bytes
  k = normalize_key path

  -- The bytes of the first `n` chunks, and what each byte of them is.
  abbrev pub part : ℕ → Bytes
  part n = take (n * chunk_size) rest

  pub length-part : (n : ℕ) → n ≤ count → length (part n) ≡ n * chunk_size
  length-part n le = ground (arith, length-take (n * chunk_size) rest, enough)

  pub part_byte :
      (n l i : ℕ)
      → n ≤ count
      → lc ≤ l
      → l < lc + n
      → i < chunk_size
      → get_or (part n) ((l - lc) * chunk_size + i) 0 ≡ new (l * chunk_size + i)
  part_byte n l i le from below low =
      get_or-take (n * chunk_size) rest ((l - lc) * chunk_size + i) 0 (omega arith)
      ∙ same ((l - lc) * chunk_size + i) (omega arith)
      ∙ ap new (omega arith)

  pub laid_in :
      (n l i : ℕ) (f : ℕ → ℕ) (old : ℕ)
      → (leb lc l && ltb l (lc + n)) ≡ true
      → i < chunk_size
      → laid (lc * chunk_size) (n * chunk_size) f (l * chunk_size + i) old ≡ f (l * chunk_size + i)
  laid_in n l i f old here low = ground (arith, here)

  pub laid_out :
      (n l i : ℕ) (f : ℕ → ℕ) (old : ℕ)
      → (leb lc l && ltb l (lc + n)) ≡ false
      → i < chunk_size
      → laid (lc * chunk_size) (n * chunk_size) f (l * chunk_size + i) old ≡ old
  laid_out n l i f old other low = ground (arith, other)

  module _ (a : StorageEngine) (start got : ℕ) (short : got ≤ count)
      (al : AllotsRun e (refs e.table) a start got) where
    abbrev filled : StorageEngine
    filled = record a {
      vram = record {
        size = a.vram.size;
        byte = written a.vram.byte (start * chunk_size) (part got);
      };
    }

    filled-Waits : Waits filled start got
    filled-Waits = record {
      accounts = Accounts-files a (many (refs a.table) start got) a.table filled.vram refl (
          subst (λ (t : LookupTable). Accounts a (many (refs t) start got)) (sym al.same.table)
            al.accounts);
      keyed = subst (λ (t : LookupTable). Distinct t.nodes) (sym al.same.table) v.keyed;
      raw_only = λ j l offset len codec q.
          v.raw_only j l offset len codec
            (ap (λ (t : LookupTable). placement_at t j l) (sym al.same.table) ∙ q);
    }

    -- Chunks that the table refers to keep their bytes.
    kept :
        (j : Bytes) (l i : ℕ)
        → i < chunk_size
        → byte_of filled.vram (placement_at e.table j l) i ≡ content e j l i
    unfolding content
    kept j l i low = elim (placement_cases e v j l) [
      | inl hole ↦ ap (λ p. byte_of filled.vram p i) hole ∙ sym (ap (λ p. byte_of e.vram p i) hole)
      | inr (d, q, below, live) ↦
          ap (λ p. byte_of filled.vram p i) q
          ∙ run_written a.vram.byte start got d i (part got) (length-part got short) low
          ∙ apart d i live
          ∙ ap (λ (u : Vram). u.byte (d * chunk_size + i)) al.same.vram
          ∙ sym (ap (λ p. byte_of e.vram p i) q)
    ]
      where
        apart :
            (d i : ℕ)
            → 0 < refs e.table d
            → (if leb start d && ltb d (start + got)
                then get_or (part got) ((d - start) * chunk_size + i) 0
                else a.vram.byte (d * chunk_size + i))
              ≡ a.vram.byte (d * chunk_size + i)
        apart d i live = ground (arith, al.was_free d, live)

    module _ (e' : StorageEngine) (pl : Places filled k lc start got e') where
      run_content :
          (j : Bytes) (l i : ℕ)
          → i < chunk_size
          → byte_of filled.vram (placed filled k lc start got j l) i ≡ (
              if bytes_eq k j
              then laid
                  (lc * chunk_size)
                  (got * chunk_size)
                  new
                  (l * chunk_size + i)
                  (content e j l i)
              else content e j l i)
      run_content j l i low = elim (Bool-cases (bytes_eq k j)) [
        | inl file ↦ elim (Bool-cases (leb lc l && ltb l (lc + got))) [
          | inl here ↦
              rw (file, here)
                (run_written a.vram.byte start got (start + (l - lc)) i (part got)
                    (length-part got short) low
                  ∙ by_true (λ (x : ℕ). x ≡ new (l * chunk_size + i))
                      (leb start (start + (l - lc)) && ltb (start + (l - lc)) (start + got)) _ _
                      (ground (arith, here))
                      (ap (λ (t : ℕ). get_or (part got) (t * chunk_size + i) 0) (omega arith)
                        ∙ part_byte got l i short (ground (arith, here)) (ground (arith, here)) low)
                  ∙ sym (laid_in got l i new (content e j l i) here low))
          | inr other ↦
              rw (file, other)
                (old_place j l i
                  ∙ kept j l i low
                  ∙ sym (laid_out got l i new (content e j l i) other low))
        ]
        | inr off ↦ rw off (old_place j l i ∙ kept j l i low)
      ]
        where
          old_place :
              (j : Bytes) (l i : ℕ)
              → byte_of filled.vram (placement_at filled.table j l) i
                ≡ byte_of filled.vram (placement_at e.table j l) i
          old_place j l i =
              ap (λ (t : LookupTable). byte_of filled.vram (placement_at t j l) i) al.same.table

      run-Lays : Lays e (normalize_key path) (lc * chunk_size) (got * chunk_size) new e'
      unfolding content
      run-Lays = record {
        plain = pl.plain;
        mode = record {
          total = pl.mode.total ∙ al.same.total;
          dedup = pl.mode.dedup ∙ al.same.dedup;
          compress = pl.mode.compress ∙ al.same.compress;
          verify = pl.mode.verify ∙ al.same.verify;
        };
        nodes = λ j. pl.nodes j ∙ ap (λ (t : LookupTable). bare_at t j) al.same.table;
        contents = λ j l i low.
            ap (λ (u : Vram). byte_of u (placement_at e'.table j l) i) pl.vram
            ∙ ap (λ p. byte_of filled.vram p i) (pl.where_to j l)
            ∙ run_content j l i low;
      }

  -- What one round can come to: the chunks it stored.
  abbrev pub Round : Outcome ℕ → Type 0
  Round o =
      ((o ≡ (e, err no_space)) × (free e.alloc ≡ 0))
      ⊎ ((e' : StorageEngine) × (n : ℕ) × (o ≡ (e', ok n))
          × (0 < n)
          × (n ≤ count)
          × Lays e (normalize_key path) (lc * chunk_size) (n * chunk_size) new e')

  -- A run for holes of the file.
  pub fill_holes_lem :
      0 < count
      → (m : Node) → node_at e.table (normalize_key path) ≡ some m
      → lc + count ≤ length m.coords
      → ((l : ℕ) → lc ≤ l → l < lc + count → placement_at e.table (normalize_key path) l ≡ none)
      → Round (fill_holes e path lc count rest)
  unfolding fill_holes
  fill_holes_lem pos m found room holes =
      elim (alloc_contiguous_run_lem e (refs e.table) v.accounts plain count pos) [
        | inl (q, full) ↦ inl (ap next q, full)
        | inr (a, start, got, q, some_chunks, short, al) ↦ inr (
          set_coords got (filled a start got short al) path lc start,
          got,
          ap next q
              ∙ ap (stored a start got) (
                  write_at_inside a.vram (start * chunk_size) (part got)
                    (omega (arith, length-part got short)) (room_for a start got short al)),
          some_chunks,
          short,
          run-Lays a start got short al _ (
              set_coords-Places path got (filled a start got short al) start lc
                (filled-Waits a start got short al) m
                (ap (λ (t : LookupTable). node_at t k) al.same.table ∙ found) (omega arith)
                (λ l from below.
                  ap (λ (t : LookupTable). placement_at t k l) al.same.table
                  ∙ holes l from (omega arith))),
        )
      ]
    where
      next : Outcome (ℕ × ℕ) → Outcome ℕ
      next o = and_then o (put_run path lc rest)

      stored : StorageEngine → ℕ → ℕ → EResult Vram → Outcome ℕ
      stored a start got w =
          and_then (on_vram a w) (λ b u. (set_coords got b path lc start, ok got))

      room_for :
          (a : StorageEngine) (start got : ℕ)
          → got ≤ count
          → AllotsRun e (refs e.table) a start got
          → start * chunk_size + length (part got) ≤ a.vram.size
      room_for a start got short al = omega (
        arith,
        length-part got short,
        al.within,
        v.accounts.fits,
        ap (λ (u : Vram). u.size) al.same.vram,
      )
