-- ===== src/Lookup/Table/Frame.antt =====
-- What `create` and `remove` change: the node itself, and the list of names of its parent.
use vramdisk.Lookup.Key.{
  Bytes, is_root, is_blank, normalize, normalize_key, display_name, split_parent, is_normalized,
}
use vramdisk.Lookup.Key.Render.{Ascii}
use vramdisk.Lookup.Key.Canonical.{normalize_key-normalize, high, length-normalize}
use vramdisk.Lookup.NodeMap.{bytes_eq}
use vramdisk.Lookup.NodeMap.Laws.{get-insert, bytes_eq_iff, bytes_eq_refl}
use vramdisk.Lookup.Table.{
  Node, LookupTable, LookupError, ok, err, not_found, already_exists, not_a_directory, invalid_name,
  new_node, node_at, get, put, with_child, create, create_in,
}
use vramdisk.Common.{
  ℕ, ◌+◌, ◌≡◌, ◌≢◌, ◌⊎◌, inl, inr, refl, sym, ap, ◌∙◌, arith, Bool, true, false, Option, none, some,
  if◌then◌else◌, Bool-cases, Option-cases, ◌<◌, length,
}

-- A creation that succeeded: the key was free, its parent is a directory, the new node stands at
-- the key, the parent lists its display name, and no other node is different.
pub record Creates (now : ℕ) (t : LookupTable) (path : Bytes) (is_dir : Bool) (attributes : ℕ)
    (t' : LookupTable) (node : Node) : Type 0 where
  pub parent : Bytes
  pub name : Bytes
  pub parent_node : Node
  pub was_free : node_at t (normalize path) ≡ none
  pub not_root : is_root (normalize path) ≡ false
  pub split : split_parent (normalize path) ≡ some (parent, name)
  pub named : is_blank name ≡ false
  pub parent_at : node_at t parent ≡ some parent_node
  pub parent_dir : parent_node.is_dir ≡ true
  pub made : node ≡ new_node now (display_name path) is_dir attributes t.next_index
  pub counted : t'.next_index ≡ t.next_index + 1
  pub table_made :
      t'
      ≡ record (put
          (put t parent (with_child parent_node (display_name path)))
          (normalize path)
          node) { next_index = t.next_index + 1 }
  pub nodes_after :
      (k : Bytes)
      → node_at t' k ≡ (
          if bytes_eq (normalize path) k
          then some node
          else if bytes_eq parent k
          then some (with_child parent_node (display_name path))
          else node_at t k)

module _ (now : ℕ) (t : LookupTable) (path : Bytes) (is_dir : Bool) (attributes : ℕ) where
  abbrev made_node : Node
  made_node = new_node now (display_name path) is_dir attributes t.next_index

  abbrev made_table : Bytes → Bytes → Node → LookupTable
  made_table key parent p =
      record (put (put t parent (with_child p (display_name path))) key made_node) {
        next_index = t.next_index + 1;
      }

  create_in_file :
      (key parent : Bytes) (p : Node)
      → p.is_dir ≡ false
      → create_in now t path key parent p is_dir attributes ≡ (t, err not_a_directory)
  unfolding create_in
  create_in_file key parent p file = rw file refl

  create_in_dir :
      (key parent : Bytes) (p : Node)
      → p.is_dir ≡ true
      → create_in now t path key parent p is_dir attributes
        ≡ (made_table key parent p, ok made_node)
  unfolding create_in
  create_in_dir key parent p dir = simp dir refl

  nodes_made :
      (key parent : Bytes) (p : Node) (k : Bytes)
      → node_at (made_table key parent p) k ≡ (
          if bytes_eq key k
          then some made_node
          else if bytes_eq parent k
          then some (with_child p (display_name path))
          else node_at t k)
  nodes_made key parent p k =
      get-insert key k made_node (put t parent (with_child p (display_name path))).nodes
      ∙ ap (λ (o : Option Node). if bytes_eq key k then some made_node else o)
          (get-insert parent k (with_child p (display_name path)) t.nodes)

  -- `create` either fails and leaves the table as it was, or does exactly that.
  pub create_lem :
      ((e : LookupError) × (create now t path is_dir attributes ≡ (t, err e)))
      ⊎ ((t' : LookupTable) × (node : Node) × (create now t path is_dir attributes ≡ (t', ok node))
          × Creates now t path is_dir attributes t' node)
  unfolding create
  create_lem = elim (Bool-cases (is_root (normalize path))) [
    | inl at_root ↦ inl (already_exists, ground arith)
    | inr not_root ↦ elim (Option-cases (node_at t (normalize path))) [
      | inr (old, taken) ↦ inl (already_exists, ground arith)
      | inl free ↦ elim (Option-cases (split_parent (normalize path))) [
        | inl no_parent ↦ inl (invalid_name, ground arith)
        | inr ((parent, name), s) ↦ elim (Bool-cases (is_blank name)) [
          | inl blank ↦ inl (invalid_name, ground arith)
          | inr named ↦ elim (Option-cases (node_at t parent)) [
            | inl missing ↦ inl (not_found, ground arith)
            | inr (p, at) ↦ elim (Bool-cases p.is_dir) [
              | inr file ↦
                  inl
                    (not_a_directory, ground (arith, create_in_file (normalize path) parent p file))
              | inl dir ↦ inr (
                made_table (normalize path) parent p,
                made_node,
                ground (arith, create_in_dir (normalize path) parent p dir),
                record {
                  parent = parent;
                  name = name;
                  parent_node = p;
                  was_free = free;
                  not_root = not_root;
                  split = s;
                  named = named;
                  parent_at = at;
                  parent_dir = dir;
                  made = refl;
                  counted = refl;
                  table_made = refl;
                  nodes_after = λ k. nodes_made (normalize path) parent p k;
                },
              )
            ]
          ]
        ]
      ]
    ]
  ]

-- A file or directory that was created at an ASCII path is found again at that path.
pub get-create :
    (now : ℕ) (t t' : LookupTable) (path : Bytes) (is_dir : Bool) (attributes : ℕ) (node : Node)
    → Ascii path
    → create now t path is_dir attributes ≡ (t', ok node)
    → get t' path ≡ some node
unfolding get
get-create now t t' path is_dir attributes node a e =
    elim (create_lem now t path is_dir attributes) [
      | inl (err_code, q) ↦ cc (sym q ∙ e)
      | inr (u, n, q, c) ↦
          let same : (u ≡ t') × (n ≡ node) = (cc (sym q ∙ e), cc (sym q ∙ e)) in
          ap (node_at t') (normalize_key-normalize path a)
          ∙ ap (λ (v : LookupTable). node_at v (normalize path)) (sym same.0)
          ∙ c.nodes_after (normalize path)
          ∙ found _ n
          ∙ ap some same.1
    ]
  where
    found :
        (o : Option Node) (n : Node)
        → (if bytes_eq (normalize path) (normalize path) then some n else o) ≡ some n
    found o n = rw (bytes_eq_refl (normalize path)) refl

-- A file that was created at a lower-case path with a byte that is not ASCII is not found there.
pub get-create-high :
    (now : ℕ) (t t' : LookupTable) (path : Bytes) (is_dir : Bool) (attributes : ℕ) (node : Node)
    → is_normalized path ≡ true
    → 0 < high path
    → get t path ≡ none
    → create now t path is_dir attributes ≡ (t', ok node)
    → get t' path ≡ none
unfolding get normalize_key
get-create-high now t t' path is_dir attributes node accepted h before e =
    elim (create_lem now t path is_dir attributes) [
      | inl (err_code, q) ↦ cc (sym q ∙ e)
      | inr (u, n, q, c) ↦
          let same : u ≡ t' = cc (sym q ∙ e) in
          let before' : node_at t path ≡ none = rw accepted at before in
          rw accepted (
            ap (λ (v : LookupTable). node_at v path) (sym same)
            ∙ c.nodes_after path
            ∙ missed c.parent c.parent_node n (λ w. cc (ap (node_at t) w, c.parent_at, before'))
                before')
    ]
  where
    missed :
        (parent : Bytes) (p n : Node)
        → parent ≢ path
        → node_at t path ≡ none
        → (if bytes_eq (normalize path) path
            then some n
            else if bytes_eq parent path
            then some (with_child p (display_name path))
            else node_at t path)
          ≡ none
    missed parent p n ne gone =
        ground (arith, bytes_eq_iff (normalize path) path, bytes_eq_iff parent path, longer, gone)
      where
        longer : normalize path ≢ path
        longer w = absurd (omega (arith, length-normalize path accepted, ap length w))
