-- ===== src/Engine/WriteTo.antt =====
-- src/engine.rs: what `write` and `write_raw_internal` do around the storing of the bytes, against the
-- view of `Engine.Contents`: room for them before, the size and the times of the file after.
use vramdisk.Lookup.Key.{Bytes, normalize_key}
use vramdisk.Lookup.NodeMap.{bytes_eq}
use vramdisk.Lookup.NodeMap.Laws.{bytes_eq_refl}
use vramdisk.Lookup.NodeMap.Laws
use vramdisk.Lookup.Table.{Node, LookupTable, node_at, update_node}
use vramdisk.Units.{chunk_size}
use vramdisk.Chunk.{free}
use vramdisk.Engine.Result.{ok, err, no_space}
use vramdisk.Engine.State.{StorageEngine, Outcome, and_then}
use vramdisk.Engine.Store.{Done}
use vramdisk.Engine.Files.{change_node, logical_chunks}
use vramdisk.Engine.Refs.{update_node-found}
use vramdisk.Engine.Nodes.{bare_at-found, Keeps, bare-Keeps, Keeps-trans, update_node-Keeps}
use vramdisk.Engine.Contents.{content, IsPlain}
use vramdisk.Engine.Contents.Storing.{SameMode}
use vramdisk.Engine.Growth.{
  SameRefs-IsPlain, SameRefs-content, update_node-SameRefs, Grows, ensure_logical_len-Grows,
}
use vramdisk.Engine.Resize.{then_mode}
use vramdisk.Engine.Laying.{laid, Lays}
use vramdisk.Engine.Read.Runs.{file_byte}
use vramdisk.Engine.Write.{touched, write_to}
use vramdisk.Common.{
  ℕ, ◌+◌, ◌-◌, ◌/◌, ◌%◌, ◌^◌, ◌≤◌, ◌<◌, ◌≡◌, ◌⊎◌, max, inl, inr, refl, sym, ap, ◌∙◌, subst, arith,
  false, some, ltb, leb, ◌&&◌, Bool-cases, by_true, by_false, if◌then◌else◌, length, get_or,
}

-- The first `count` of the bytes are in the file from the offset on; all else reads as before, and
-- no file is gone or smaller.
pub record Overwrites (e : StorageEngine) (k : Bytes) (offset count : ℕ) (bytes : Bytes)
    (e' : StorageEngine) : Type 0 where
  pub plain : IsPlain e'
  pub mode : SameMode e e'
  pub files : Keeps e.table e'.table
  pub bytes_of :
      (j : Bytes) (p : ℕ)
      → file_byte e' j p ≡ (
          if bytes_eq k j && (leb offset p && ltb p (offset + count))
          then get_or bytes (p - offset) 0
          else file_byte e j p)

-- The file, and its size.
pub record HasSize (e : StorageEngine) (k : Bytes) (size : ℕ) : Type 0 where
  pub node : Node
  pub there : node_at e.table k ≡ some node
  pub is_file : node.is_dir ≡ false
  pub sized : node.size ≡ size

-- The size and the times of a file are set: what changes.
pub record Touches (b : StorageEngine) (k : Bytes) (size : ℕ) (b' : StorageEngine) : Type 0 where
  pub plain : IsPlain b'
  pub mode : SameMode b b'
  pub files : Keeps b.table b'.table
  pub bytes_of : (j : Bytes) (p : ℕ) → file_byte b' j p ≡ file_byte b j p
  pub sized : HasSize b' k size

pub touch_lem :
    (b : StorageEngine)
    → IsPlain b
    → (path : Bytes) (m : Node) → node_at b.table (normalize_key path) ≡ some m
    → m.is_dir ≡ false
    → (now end : ℕ)
    → Touches b (normalize_key path) (max m.size end) (change_node b path (touched now end))
unfolding file_byte
touch_lem b v path m there kind now end =
    let f = touched now end in
    let k = normalize_key path in
    let t = update_node b.table k f in
    let s = update_node-SameRefs b.table k m there v.keyed f (λ l. refl) (λ c. refl) in
    record {
      plain = SameRefs-IsPlain b v t s;
      mode = record { total = refl; dedup = refl; compress = refl; verify = refl };
      files = update_node-Keeps b.table k m there f refl (omega arith) (omega arith);
      bytes_of = λ j p. SameRefs-content b v t s j (p / chunk_size) (p % chunk_size);
      sized = record {
        node = f m;
        there =
            ap (λ (u : LookupTable). node_at u k) (update_node-found b.table k m there f)
            ∙ Laws.get-insert k k (f m) b.table.nodes
            ∙ itself (f m);
        is_file = kind;
        sized = refl;
      };
    }
  where
    itself :
        (u : Node)
        → (if bytes_eq (normalize_key path) (normalize_key path)
            then some u
            else node_at b.table (normalize_key path))
          ≡ some u
    itself u = rw (bytes_eq_refl (normalize_key path)) refl

-- By the place in the file.
abbrev pub byte_from : ℕ → Bytes → ℕ → ℕ
byte_from offset bytes q = get_or bytes (q - offset) 0

module _ (e : StorageEngine) (v : IsPlain e) (path : Bytes) (n : Node)
    (found : node_at e.table (normalize_key path) ≡ some n) (file : n.is_dir ≡ false) (offset : ℕ)
    (bytes : Bytes) where
  abbrev k : Bytes
  k = normalize_key path

  abbrev shape : ℕ → Bytes → ℕ → ℕ → ℕ
  shape count j q old =
      if bytes_eq k j then laid offset count (byte_from offset bytes) q old else old

  merged :
      (count : ℕ) (j : Bytes) (p old : ℕ)
      → shape count j p old ≡ (
          if bytes_eq k j && (leb offset p && ltb p (offset + count))
          then get_or bytes (p - offset) 0
          else old)
  merged count j p old = ground arith

  -- Bytes laid in an engine with more room.
  Lays-Overwrites :
      (a b : StorageEngine) (count : ℕ)
      → Grows e (normalize_key path) (offset + length bytes) a
      → Lays a (normalize_key path) offset count (byte_from offset bytes) b
      → Overwrites e (normalize_key path) offset count bytes b
  unfolding file_byte
  Lays-Overwrites a b count g y = record {
    plain = y.plain;
    mode = then_mode e a b g.mode y.mode;
    files = Keeps-trans e.table a.table b.table g.files (bare-Keeps a.table b.table y.nodes);
    bytes_of = λ j p.
        y.contents j (p / chunk_size) (p % chunk_size) (omega arith)
        ∙ ap (λ q. shape count j q (content a j (p / chunk_size) (p % chunk_size))) (omega arith)
        ∙ ap (shape count j p) (g.contents j (p / chunk_size) (p % chunk_size))
        ∙ merged count j p (file_byte e j p);
  }

  -- So are those of a file with new bytes.
  touched-Overwrites :
      (b b' : StorageEngine) (count size : ℕ)
      → Overwrites e (normalize_key path) offset count bytes b
      → Touches b (normalize_key path) size b'
      → Overwrites e (normalize_key path) offset count bytes b'
  touched-Overwrites b b' count size o t = record {
    plain = t.plain;
    mode = then_mode e b b' o.mode t.mode;
    files = Keeps-trans e.table b.table b'.table o.files t.files;
    bytes_of = λ j p. t.bytes_of j p ∙ o.bytes_of j p;
  }

  -- What comes of it: nothing is done; or the disk becomes full, with the first bytes stored; or all
  -- are stored.
  abbrev pub WroteTo : Outcome ℕ → Type 0
  WroteTo o =
      ((o ≡ (e, err no_space))
        × ((2 ^ 64 ≤ offset + length bytes)
            ⊎ (e.alloc.total < logical_chunks (offset + length bytes))))
      ⊎ ((b : StorageEngine) × (m : ℕ) × (o ≡ (b, err no_space))
          × (m < length bytes)
          × (free b.alloc ≡ 0)
          × Overwrites e (normalize_key path) offset m bytes b)
      ⊎ ((b : StorageEngine) × (o ≡ (b, ok (length bytes)))
          × Overwrites e (normalize_key path) offset (length bytes) bytes b
          × HasSize b (normalize_key path) (max n.size (offset + length bytes)))

  abbrev after_store : ℕ → Outcome Done → Outcome ℕ
  after_store now o =
      and_then o
        (λ b done. (change_node b path (touched now (offset + length bytes)), ok (length bytes)))

  module _ (now : ℕ) (store : StorageEngine → Outcome Done)
      (store_lem : (a : StorageEngine)
        → Grows e (normalize_key path) (offset + length bytes) a
        → ((b : StorageEngine) × (m : ℕ) × (store a ≡ (b, err no_space))
            × (m < length bytes)
            × (free b.alloc ≡ 0)
            × Lays a (normalize_key path) offset m (byte_from offset bytes) b)
          ⊎ ((b : StorageEngine) × (store a ≡ (b, ok tt))
              × Lays a (normalize_key path) offset (length bytes) (byte_from offset bytes) b)) where
    grown_lem :
        (a : StorageEngine)
        → Grows e (normalize_key path) (offset + length bytes) a
        → WroteTo (after_store now (store a))
    grown_lem a g = elim (store_lem a g) [
      | inl (b, m, q, short, full, y) ↦
          inr (inl (b, m, ap (after_store now) q, short, full, Lays-Overwrites a b m g y))
      | inr (b, q, y) ↦
          let (m, there, alike) = bare_at-found a.table b.table k g.node (y.nodes k) g.there in
          let t =
            touch_lem b y.plain path m there
              (ap (λ (u : Node). u.is_dir) alike ∙ g.same_kind n found ∙ file) now
              (offset + length bytes) in
          let o =
            touched-Overwrites b _ (length bytes) _ (Lays-Overwrites a b (length bytes) g y) t in
          let size : m.size ≡ n.size = ap (λ (u : Node). u.size) alike ∙ g.same_size n found in
          let h =
            subst
              (λ z.
                HasSize (change_node b path (touched now (offset + length bytes)))
                  (normalize_key path) (max z (offset + length bytes)))
              size t.sized in
          inr (inr (_, ap (after_store now) q, o, h))
    ]

    pub write_to_lem : WroteTo (write_to now e path offset bytes store (some n))
    write_to_lem =
        by_false WroteTo _ _ _ file (elim (Bool-cases (leb (2 ^ 64) (offset + length bytes))) [
          | inl far ↦ by_true WroteTo _ _ _ far (inl (refl, inl (ground (arith, far))))
          | inr near ↦
              by_false WroteTo _ _ _ near
                (elim (ensure_logical_len-Grows e v path (offset + length bytes)) [
                  | inl (q, small) ↦ inl (ap after_room q, inr small)
                  | inr (inl (q, gone)) ↦ cc (gone, found)
                  | inr (inr (a, q, g)) ↦ subst WroteTo (sym (ap after_room q)) (grown_lem a g)
                ])
        ])
      where
        after_room : Outcome Done → Outcome ℕ
        after_room o = and_then o (λ a done. after_store now (store a))
