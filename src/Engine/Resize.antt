-- ===== src/Engine/Resize.antt =====
-- src/engine.rs, `set_size`: whatever becomes of it, the engine stays plain.
use vramdisk.Lookup.Key.{Bytes, normalize_key}
use vramdisk.Lookup.Table.{Node, LookupTable, node_at, put}
use vramdisk.Lookup.Table
use vramdisk.Engine.State.{External, StorageEngine, Outcome}
use vramdisk.Engine.Store.{Done}
use vramdisk.Engine.Files.{logical_chunks, sized, resize, set_size}
use vramdisk.Engine.Contents.{IsPlain}
use vramdisk.Engine.Contents.Storing.{SameMode}
use vramdisk.Engine.Growth.{SameRefs-IsPlain, update_node-SameRefs, found-Grows}
use vramdisk.Engine.Truncate.{shrink_lem}
use vramdisk.Common.{
  ℕ, ◌≡◌, inl, inr, refl, sym, ◌∙◌, subst, Option, none, some, ltb, length, Bool-cases,
  Option-cases, by_true, by_false,
}

-- A plain engine of the same modes.
pub record IsSound (e a : StorageEngine) : Type 0 where
  pub plain : IsPlain a
  pub mode : SameMode e a

pub then_mode : (e a b : StorageEngine) → SameMode e a → SameMode a b → SameMode e b
then_mode e a b s t = record {
  total = t.total ∙ s.total;
  dedup = t.dedup ∙ s.dedup;
  compress = t.compress ∙ s.compress;
  verify = t.verify ∙ s.verify;
}

-- Setting the size and the times moves no reference.
sized-IsSound :
    (e a : StorageEngine)
    → IsSound e a
    → (now : ℕ) (path : Bytes) (size : ℕ) → IsSound e (sized now a path size)
sized-IsSound e a s now path size = elim (Option-cases (node_at a.table (normalize_key path))) [
  | inl gone ↦
      subst
        (λ (o : Option Node). IsSound e (record a {
          table = elim o as (λ u. LookupTable) [
            | none ↦ a.table
            | some m ↦
                put a.table (normalize_key path)
                  (record m { size = size; modified = now; changed = now })
          ];
        }))
        (sym gone) s
  | inr (n, found) ↦ record {
    plain = SameRefs-IsPlain a s.plain _ (
        update_node-SameRefs a.table (normalize_key path) n found s.plain.keyed _ (λ l. refl)
          (λ c. refl));
    mode = record {
      total = s.mode.total;
      dedup = s.mode.dedup;
      compress = s.mode.compress;
      verify = s.mode.verify;
    };
  }
]

module _ (x : External) (e : StorageEngine) (v : IsPlain e) (path : Bytes) (size : ℕ) where
  abbrev Sound : Outcome Done → Type 0
  Sound o = IsSound e o.0

  itself : IsSound e e
  itself = record {
    plain = v;
    mode = record { total = refl; dedup = refl; compress = refl; verify = refl };
  }

  resize-IsSound :
      (n : Node)
      → node_at e.table (normalize_key path) ≡ some n
      → IsSound e (resize x e path size n).0
  unfolding resize
  resize-IsSound n found = elim (Bool-cases n.is_dir) [
    | inl dir ↦ by_true Sound _ _ _ dir itself
    | inr file ↦
        by_false Sound _ _ _ file (elim (Bool-cases (ltb e.alloc.total (logical_chunks size))) [
          | inl large ↦ by_true Sound _ _ _ large itself
          | inr fits ↦ by_false Sound _ _ _ fits (elim (Bool-cases (ltb size n.size)) [
            | inl less ↦ by_true Sound _ _ _ less (elim (shrink_lem x e v path n size found) [
              | inl (few, q) ↦ rw q itself
              | inr (enough, inl (b, q, c)) ↦ rw q (record { plain = c.plain; mode = c.mode })
              | inr (enough, inr (b, q, c)) ↦
                  rw q
                    (sized-IsSound e b (record { plain = c.plain; mode = c.mode }) x.now path size)
            ])
            | inr more ↦
                by_false Sound _ _ _ more
                  (elim (Bool-cases (ltb (length n.coords) (logical_chunks size))) [
                    | inl longer ↦
                        let g = found-Grows e v path size n found in
                        by_true Sound _ _ _ longer (
                          sized-IsSound e _ (record { plain = g.plain; mode = g.mode }) x.now path
                            size)
                    | inr enough ↦
                        by_false Sound _ _ _ enough (sized-IsSound e e itself x.now path size)
                  ])
          ])
        ])
  ]

  pub set_size-IsSound : IsSound e (set_size x e path size).0
  unfolding set_size Table.get
  set_size-IsSound = elim (Option-cases (node_at e.table (normalize_key path))) [
    | inl gone ↦ rw (gone, set_size) itself
    | inr (n, found) ↦ rw (found, set_size) (resize-IsSound n found)
  ]
