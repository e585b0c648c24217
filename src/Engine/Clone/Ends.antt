-- ===== src/Engine/Clone/Ends.antt =====
-- src/engine.rs, `clone_range` under dedup: from the whole chunks to the end, against the view of
-- `Engine.Contents`.
use mathlib.Core.Option.{some-injective}
use vramdisk.Lookup.Key.{Bytes, normalize_key}
use vramdisk.Lookup.Table.{Node}
use vramdisk.Units.{chunk_size}
use vramdisk.Engine.Result.{ok}
use vramdisk.Engine.State.{External, StorageEngine, Outcome, and_then}
use vramdisk.Engine.Files.{change_node, logical_chunks}
use vramdisk.Engine.Nodes.{Keeps-trans, bare_at-found}
use vramdisk.Engine.Resize.{then_mode}
use vramdisk.Engine.Read.Runs.{file_byte}
use vramdisk.Engine.Write.{touched}
use vramdisk.Engine.WriteTo.{HasSize, touch_lem}
use vramdisk.Engine.Clone.{placements_of, ref_inc_all, replace_all, share_chunks, copy_tail}
use vramdisk.Engine.Clone.Chunks.{source_byte, cloned-Lays}
use vramdisk.Engine.Clone.Copies.{Copies, Copies-trans, Lays-Copies}
use vramdisk.Engine.Contents.{CountsFit}
use vramdisk.Engine.Clone.Copying.{CanClone, At, Fails, Meets, copy_bytes_lem}
use vramdisk.Common.{
  ℕ, zero, suc, ◌+◌, ◌-◌, ◌*◌, ◌/◌, ◌%◌, ◌≤◌, ◌<◌, ◌≡◌, ◌⊎◌, max, inl, inr, refl, sym, ap, ◌∙◌,
  subst, arith, ltb, length, Bool-cases, by_true, by_false,
}

module _ (x : External) (src_path dst_path : Bytes) (from to n : ℕ) (e : StorageEngine)
    (c : CanClone e (normalize_key src_path) (normalize_key dst_path) from to n)
    (roomy : logical_chunks (to + n) ≤ length c.target.coords) where
  abbrev ks : Bytes
  ks = normalize_key src_path

  abbrev kd : Bytes
  kd = normalize_key dst_path

  abbrev Here : ℕ → StorageEngine → Type 0
  Here = At x src_path dst_path from to n e c

  -- All bytes are copied.
  abbrev pub Cloned : StorageEngine → Type 0
  Cloned b =
      Copies e (normalize_key src_path) (normalize_key dst_path) from to n b
      × HasSize b (normalize_key dst_path) (max c.target.size (to + n))

  abbrev pub Finishes : Outcome ℕ → Type 0
  Finishes o =
      Fails x src_path dst_path from to n e c o ⊎ ((b : StorageEngine) × (o ≡ (b, ok n)) × Cloned b)

  finish_lem :
      (a : StorageEngine) → Here n a → Cloned (change_node a dst_path (touched x.now (to + n)))
  finish_lem a s =
      let dst = s.copied.files kd c.target c.target_there in
      let t =
        touch_lem a s.copied.plain dst_path dst.node dst.there (dst.kind ∙ c.target_file) x.now
          (to + n) in
      let size : max dst.node.size (to + n) ≡ max c.target.size (to + n) =
        omega (arith, dst.size, s.no_larger dst.node dst.there) in
      (
        record {
          plain = t.plain;
          mode = then_mode e a _ s.copied.mode t.mode;
          files = Keeps-trans e.table a.table _ s.copied.files t.files;
          bytes_of = λ j p. t.bytes_of j p ∙ s.copied.bytes_of j p;
        },
        subst (HasSize (change_node a dst_path (touched x.now (to + n))) (normalize_key dst_path))
            size t.sized,
      )

  abbrev close : StorageEngine → Outcome ℕ
  close a = (change_node a dst_path (touched x.now (to + n)), ok n)

  -- What is left after the whole chunks lies in one logical chunk.
  copy_tail_lem :
      (done : ℕ) (a : StorageEngine)
      → Here done a
      → done ≤ n
      → (done ≡ n) ⊎ ((n - done < chunk_size) × ((to + done) % chunk_size ≡ 0))
      → Finishes (copy_tail x src_path dst_path from to a n done)
  unfolding copy_tail
  copy_tail_lem done a s within (inl over) =
      by_false Finishes (ltb done n) _ _ (ground (arith, over))
        (inr (_, refl, finish_lem a (subst (λ d. Here d a) over s)))
  copy_tail_lem done a s within (inr (short, at)) = elim (Bool-cases (ltb done n)) [
    | inr over ↦
        by_false Finishes (ltb done n) _ _ over
          (inr (_, refl, finish_lem a (subst (λ d. Here d a) (ground (arith, over)) s)))
    | inl more ↦
        by_true Finishes (ltb done n) _ _ more
          (elim (copy_bytes_lem x src_path dst_path from to n e c done (n - done) a s
            (ground (arith, more)) (omega arith) short (omega arith)) [
              | inl (b, got, q, lt, full, t) ↦
                  inl (b, got, ap (λ o. and_then o (λ u written. close u)) q, lt, full, t)
              | inr (b, r, q, t) ↦ inr (
                _,
                ap (λ o. and_then o (λ u written. close u)) q,
                finish_lem b (subst (λ d. Here d b) (omega arith) t),
              )
            ])
  ]

  abbrev shared_by : ℕ → ℕ → StorageEngine → StorageEngine
  shared_by full done a =
      replace_all (placements_of full a src_path ((from + done) / chunk_size))
        (ref_inc_all (placements_of full a src_path ((from + done) / chunk_size)) a) dst_path
        ((to + done) / chunk_size)

  nothing_shared :
      (full done : ℕ) (a : StorageEngine)
      → full ≡ 0
      → Here done a
      → Here (done + full * chunk_size) (shared_by full done a)
  unfolding placements_of ref_inc_all replace_all
  nothing_shared zero done a z s = subst (λ d. Here d a) (omega arith) s
  nothing_shared (suc full) done a z s = absurd (omega (arith, z))

  -- The whole chunks.
  chunks_lem :
      (full done : ℕ) (a : StorageEngine)
      → Here done a
      → done + full * chunk_size ≤ n
      → (from + done) % chunk_size ≡ 0
      → (to + done) % chunk_size ≡ 0
      → CountsFit full a
      → Here (done + full * chunk_size) (shared_by full done a)
  chunks_lem full done a s within src_at dst_at few =
      let dst = s.copied.files kd c.target c.target_there in
      let y =
        cloned-Lays a s.copied.plain (s.copied.mode.dedup ∙ c.sharing.shared) src_path dst_path from
          to done full src_at dst_at few dst.node dst.there
          (omega (arith, roomy, dst.room, within, dst_at)) in
      let t =
        Lays-Copies a ks kd (from + done) (to + done) (full * chunk_size)
          (source_byte src_path dst_path from to a) _ (λ p ge. ap (file_byte a ks) (omega arith))
          y in
      record {
        copied =
            Copies-trans e a _ ks kd from to n done (full * chunk_size) c.apart within s.copied t;
        no_larger = λ u there.
            let (m, is, alike) = bare_at-found a.table _ kd dst.node (y.nodes kd) dst.there in
            omega (
              arith,
              ap (λ (w : Node). w.size) (some-injective u m (sym there ∙ is)),
              ap (λ (w : Node). w.size) alike,
              s.no_larger dst.node dst.there,
            );
      }

  pub shared_lem :
      (done : ℕ) (a : StorageEngine)
      → Here done a
      → done ≤ n
      → Meets x src_path dst_path from to n e c done
      → CountsFit ((n - done) / chunk_size) a
      → Finishes (
          let (b, shared) = share_chunks x src_path dst_path from to a n done in
          copy_tail x src_path dst_path from to b n shared)
  unfolding share_chunks
  shared_lem done a s within (inl over) few =
      copy_tail_lem _ _ (nothing_shared ((n - done) / chunk_size) done a (omega (arith, over)) s)
        (omega (arith, over)) (inl (omega (arith, over)))
  shared_lem done a s within (inr (src_at, dst_at)) few =
      copy_tail_lem _ _
        (chunks_lem ((n - done) / chunk_size) done a s (omega arith) src_at dst_at few)
        (omega arith) (inr (omega arith, omega (arith, dst_at)))
