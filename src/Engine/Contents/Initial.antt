-- ===== src/Engine/Contents/Initial.antt =====
-- src/engine.rs, `StorageEngine::new`: the engine that a mount starts with.
use vramdisk.Lookup.Key.{Bytes, root}
use vramdisk.Lookup.NodeMap.{bytes_eq}
use vramdisk.Lookup.NodeMap
use vramdisk.Lookup.Table.{Node, new_node, node_at}
use vramdisk.Lookup.Table
use vramdisk.Placement.{Placement}
use vramdisk.Units.{chunk_size}
use vramdisk.Chunk
use vramdisk.Chunk.View.{digit}
use vramdisk.Engine.Dict
use vramdisk.Chunk.Invariant.{new-IsValid, digit-new}
use vramdisk.Engine.Vram.{Vram}
use vramdisk.Engine.State.{new}
use vramdisk.Engine.Accounts.{IsIndexed}
use vramdisk.Engine.Refs.{refs, placement_at}
use vramdisk.Engine.Contents.{IsPlain}
use vramdisk.Common.{
  ltb, ℕ, ◌*◌, ◌/◌, ◌%◌, ◌^◌, ◌≤◌, ◌<◌, ◌≡◌, inl, inr, refl, sym, ◌∙◌, arith, [], none, some, Bool,
  true, false, if◌then◌else◌, length, get_or, replicate, length-replicate, get_or-replicate,
  Bool-cases,
}

no_refs : (now c : ℕ) → refs (Table.new now) c ≡ 0
unfolding refs Table.new new_node
no_refs now c = omega arith

no_placement : (now : ℕ) (k : Bytes) (lc : ℕ) → placement_at (Table.new now) k lc ≡ none
unfolding placement_at Table.new new_node NodeMap.get
no_placement now k lc = elim (Bool-cases (bytes_eq root k)) [
  | inl same ↦ rw same refl
  | inr ne ↦ rw ne refl
]

marked_new : (t c r : ℕ) → c < t → r ≡ 0 → digit (Chunk.new t).words c ≡ (if ltb 0 r then 1 else 0)
marked_new t c r lt z = ground (arith, z, digit-new t c (omega arith))

-- The counts of a new engine, and the hashes.
module _ {ℓ} {A : Type ℓ} (dedup : Bool) (t : ℕ) (a : A) where
  shared_length : dedup ≡ true → t ≤ length (if dedup then replicate t a else [])
  shared_length shared = rw shared (omega (arith, length-replicate t a))

  shared_entry :
      dedup ≡ true → (c : ℕ) (d : A) → c < t → get_or (if dedup then replicate t a else []) c d ≡ a
  shared_entry shared c d lt = rw shared (get_or-replicate t c a d lt)

  plain_entry :
      dedup ≡ false → (c : ℕ) (d : A) → get_or (if dedup then replicate t a else []) c d ≡ d
  plain_entry plain c d = rw plain refl

module _ (now : ℕ) (vram : Vram) (lz4_ready compress dedup : Bool) where
  abbrev total : ℕ
  total = vram.size / chunk_size % 2 ^ 32

  total-lt : total < 2 ^ 32
  total-lt = omega arith

  total_fits : total * chunk_size ≤ vram.size
  total_fits = omega arith

  -- The engine that a mount starts with is plain, whatever the modes are: all chunks of the buffer
  -- are free and nothing refers to any.
  pub new-IsPlain : IsPlain (new now vram lz4_ready compress dedup)
  unfolding new Dict.get NodeMap.get
  new-IsPlain = record {
    accounts = record {
      bitmap = new-IsValid total total-lt;
      fits = total_fits;
      marked = λ c lt. marked_new total c (refs (Table.new now) c) lt (no_refs now c);
      beyond = λ c ge. no_refs now c;
      single = λ s c. omega (arith, no_refs now c);
      counted = λ s c lt. shared_entry dedup total 0 s c 0 lt ∙ sym (no_refs now c);
      long = shared_length dedup total 0;
      hashes = shared_length dedup total none;
      unindexed = λ s c. plain_entry dedup total none s c none;
      indexed = λ h p g. nothing h p g;
    };
    keyed = (refl, tt);
    raw_only = λ k lc offset len codec q. cc (q, no_placement now k lc);
  }
    where
      nothing :
          (h : ℕ) (p : Placement)
          → Dict.get h [] ≡ some p
          → IsIndexed (new now vram lz4_ready compress dedup) (refs (Table.new now)) h p
      nothing h p g = cc g
