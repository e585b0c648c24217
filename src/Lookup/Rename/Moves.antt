-- ===== src/Lookup/Rename/Moves.antt =====
-- src/lookup.rs, `rename`: the loop that moves a node and all below it to other keys.
use mathlib.Core.Option.{some-injective}
use vramdisk.Lookup.Key.{Bytes}
use vramdisk.Lookup.NodeMap
use vramdisk.Lookup.NodeMap.{bytes_eq, is_some}
use vramdisk.Lookup.NodeMap.Distinct.{Distinct}
use vramdisk.Lookup.NodeMap.Laws.{bytes_eq_refl, bytes_eq_iff, get-insert, get-remove}
use vramdisk.Lookup.Table.{Node, LookupTable, node_at, drop_key}
use vramdisk.Lookup.Rename.{rekey, move_node, move_nodes, subtree}
use vramdisk.Lookup.Rename.Keys.{
  covers, is_tail, append_cancel, covers-split, covers-append, rekey-append,
}
use vramdisk.Common.{
  ◌≡◌, inl, inr, refl, sym, ap, ◌∙◌, subst, arith, Bool, true, false, ◌&&◌, ◌||◌, none, some, List,
  [], ◌∷◌, ◌++◌, if◌then◌else◌, All, Bool-cases,
}

abbrev pub mem : Bytes → List Bytes → Bool
mem k [] = false
mem k (old ∷ olds) = bytes_eq old k || mem k olds

-- No key stands twice in the list.
abbrev pub Once : List Bytes → Type 0
Once [] = Unit
Once (old ∷ olds) = (mem old olds ≡ false) × Once olds

-- The node at the key itself gets the new name.
abbrev pub named_at : Bytes → Bytes → Bytes → Node → Node
named_at from new_name old n = if bytes_eq old from then record n { name = new_name } else n

module _ (from : Bytes) where
  pub mem-subtree :
      (k : Bytes) (nodes : List (Bytes × Node))
      → mem k (subtree from nodes) ≡ (covers from k && is_some (NodeMap.get k nodes))
  unfolding subtree NodeMap.get
  mem-subtree k [] = ground arith
  mem-subtree k ((j, n) ∷ nodes) = elim (Bool-cases (bytes_eq j k)) [
    | inl here ↦
        let cover : covers from j ≡ covers from k = ap (covers from) ((bytes_eq_iff j k).0 here) in
        elim (Bool-cases (covers from k)) [
          | inl mine ↦ rw (here, cover ∙ mine, mine) (rw here refl)
          | inr other ↦ rw (here, cover ∙ other, other) (mem-subtree k nodes ∙ rw other refl)
        ]
    | inr off ↦ elim (Bool-cases (covers from j)) [
      | inl mine ↦ rw (off, mine) (rw off (mem-subtree k nodes))
      | inr other ↦ rw (off, other) (mem-subtree k nodes)
    ]
  ]

  pub Once-subtree : (nodes : List (Bytes × Node)) → Distinct nodes → Once (subtree from nodes)
  unfolding subtree
  Once-subtree [] d = tt
  Once-subtree ((k, n) ∷ nodes) (new, d) = elim (Bool-cases (covers from k)) [
    | inl mine ↦ rw mine (mem-subtree k nodes ∙ rw (mine, new) refl, Once-subtree nodes d)
    | inr other ↦ rw other (Once-subtree nodes d)
  ]

module _ (from to new_name : Bytes)
    (apart : (s : Bytes) → is_tail s ≡ true → covers from (to ++ s) ≡ false) where
  abbrev named : Bytes → Node → Node
  named = named_at from new_name

  move : Bytes → LookupTable → LookupTable
  unfolding move_node
  move old t = move_node from to new_name old t

  -- One round.
  move_at :
      (t : LookupTable) (s : Bytes) (n : Node)
      → node_at t (from ++ s) ≡ some n
      → (k : Bytes)
      → node_at (move (from ++ s) t) k ≡ (
          if bytes_eq (to ++ s) k
          then some (named (from ++ s) n)
          else if bytes_eq (from ++ s) k
          then none
          else node_at t k)
  unfolding move
  move_at t s n found k =
      rw (found, move_node)
        (get-insert (rekey from to (from ++ s)) k (named (from ++ s) n)
            (drop_key t (from ++ s)).nodes
          ∙ rw (rekey-append from to s, get-remove (from ++ s) k t.nodes) refl)

  -- Every key of the list is at or below the source, and in the table.
  abbrev pub Present : LookupTable → Bytes → Type 0
  Present t old = (covers from old ≡ true) × ((n : Node) × (node_at t old ≡ some n))

  -- The nodes of the list have moved, all else is as it was.
  pub record Moves (t : LookupTable) (olds : List Bytes) (r : LookupTable) : Type 0 where
    pub gone :
        (k : Bytes)
        → covers from k ≡ true
        → node_at r k ≡ (if mem k olds then none else node_at t k)
    pub there :
        (s : Bytes) (n : Node)
        → is_tail s ≡ true
        → mem (from ++ s) olds ≡ true
        → node_at t (from ++ s) ≡ some n
        → node_at r (to ++ s) ≡ some (named (from ++ s) n)
    pub empty :
        (s : Bytes)
        → is_tail s ≡ true
        → mem (from ++ s) olds ≡ false
        → node_at r (to ++ s) ≡ node_at t (to ++ s)
    pub others :
        (k : Bytes) → covers from k ≡ false → covers to k ≡ false → node_at r k ≡ node_at t k

  module _ (t : LookupTable) (s : Bytes) (tail : is_tail s ≡ true) (n : Node)
      (found : node_at t (from ++ s) ≡ some n) where
    not_covered : (k : Bytes) → covers from k ≡ true → bytes_eq (to ++ s) k ≡ false
    not_covered k mine = elim (Bool-cases (bytes_eq (to ++ s) k)) [
      | inl same ↦ cc (mine, ap (covers from) ((bytes_eq_iff (to ++ s) k).0 same), apart s tail)
      | inr other ↦ other
    ]

    stays_at :
        (k : Bytes)
        → covers from k ≡ true
        → node_at (move (from ++ s) t) k ≡ (if bytes_eq (from ++ s) k then none else node_at t k)
    stays_at k mine = move_at t s n found k ∙ rw (not_covered k mine) refl

    stays-Present :
        (olds : List Bytes)
        → mem (from ++ s) olds ≡ false
        → All (Present t) olds
        → All (Present (move (from ++ s) t)) olds
    stays-Present [] new here = tt
    stays-Present (old ∷ olds) new ((mine, (m, at)), here) =
        let other : bytes_eq old (from ++ s) ≡ false = ground (arith, new) in
        let off : bytes_eq (from ++ s) old ≡ false =
          ground (arith, bytes_eq_iff old (from ++ s), bytes_eq_iff (from ++ s) old, other) in
        ((mine, (m, stays_at old mine ∙ rw off at)), stays-Present olds (ground (arith, new)) here)

    -- One round, and the rest.
    round_Moves :
        (olds : List Bytes) (r : LookupTable)
        → mem (from ++ s) olds ≡ false
        → Moves (move (from ++ s) t) olds r
        → Moves t ((from ++ s) ∷ olds) r
    round_Moves olds r new rest = record {
      gone = λ k mine. rest.gone k mine ∙ gone_here k mine;
      there = there_here;
      empty = λ q q_tail absent.
          rest.empty q q_tail (ground (arith, absent))
          ∙ move_at t s n found (to ++ q)
          ∙ elsewhere q q_tail (ground (arith, absent));
      others = λ k off away. rest.others k off away ∙ move_at t s n found k ∙ untouched k off away;
    }
      where
        gone_here :
            (k : Bytes)
            → covers from k ≡ true
            → (if mem k olds then none else node_at (move (from ++ s) t) k)
              ≡ (if mem k ((from ++ s) ∷ olds) then none else node_at t k)
        gone_here k mine = ground (arith, stays_at k mine)

        elsewhere :
            (q : Bytes)
            → is_tail q ≡ true
            → bytes_eq (from ++ s) (from ++ q) ≡ false
            → (if bytes_eq (to ++ s) (to ++ q)
                then some (named (from ++ s) n)
                else if bytes_eq (from ++ s) (to ++ q)
                then none
                else node_at t (to ++ q))
              ≡ node_at t (to ++ q)
        elsewhere q q_tail ne = elim (Bool-cases (bytes_eq (to ++ s) (to ++ q))) [
          | inl same ↦
              let equal : s ≡ q =
                append_cancel to s q ((bytes_eq_iff (to ++ s) (to ++ q)).0 same) in
              cc (
                ne,
                bytes_eq_refl (from ++ s),
                ap (λ (u : Bytes). bytes_eq (from ++ s) (from ++ u)) equal,
              )
          | inr other ↦ elim (Bool-cases (bytes_eq (from ++ s) (to ++ q))) [
            | inl clash ↦ cc (
              ap (covers from) ((bytes_eq_iff (from ++ s) (to ++ q)).0 clash),
              covers-append from s tail,
              apart q q_tail,
            )
            | inr fine ↦ rw (other, fine) refl
          ]
        ]

        untouched :
            (k : Bytes)
            → covers from k ≡ false
            → covers to k ≡ false
            → (if bytes_eq (to ++ s) k
                then some (named (from ++ s) n)
                else if bytes_eq (from ++ s) k
                then none
                else node_at t k)
              ≡ node_at t k
        untouched k off away = elim (Bool-cases (bytes_eq (to ++ s) k)) [
          | inl same ↦
              cc (away, ap (covers to) ((bytes_eq_iff (to ++ s) k).0 same), covers-append to s tail)
          | inr other ↦ elim (Bool-cases (bytes_eq (from ++ s) k)) [
            | inl same ↦ cc (
              off,
              ap (covers from) ((bytes_eq_iff (from ++ s) k).0 same),
              covers-append from s tail,
            )
            | inr fine ↦ rw (other, fine) refl
          ]
        ]

        there_here :
            (q : Bytes) (m : Node)
            → is_tail q ≡ true
            → mem (from ++ q) ((from ++ s) ∷ olds) ≡ true
            → node_at t (from ++ q) ≡ some m
            → node_at r (to ++ q) ≡ some (named (from ++ q) m)
        there_here q m q_tail listed at = elim (Bool-cases (bytes_eq (from ++ s) (from ++ q))) [
          | inl same ↦
              let equal : s ≡ q =
                append_cancel from s q ((bytes_eq_iff (from ++ s) (from ++ q)).0 same) in
              subst
                (λ (u : Bytes).
                  node_at t (from ++ u) ≡ some m → node_at r (to ++ u) ≡ some (named (from ++ u) m))
                equal
                (λ at_s.
                  rest.empty s tail new
                  ∙ move_at t s n found (to ++ s)
                  ∙ rw (bytes_eq_refl (to ++ s)) (
                      ap (λ (u : Node). some (named (from ++ s) u))
                        (some-injective n m (sym found ∙ at_s))))
                at
          | inr other ↦
              rest.there q m q_tail (ground (arith, listed, other))
                (stays_at (from ++ q) (covers-append from q q_tail) ∙ rw other at)
        ]

  -- Where the keys are at or below the source and stand in the table once, the loop moves them all.
  pub move_nodes_lem :
      (olds : List Bytes) (t : LookupTable)
      → Once olds
      → All (Present t) olds
      → Moves t olds (move_nodes from to new_name olds t)
  unfolding move_nodes move
  move_nodes_lem [] t once here = record {
    gone = λ k mine. refl;
    there = λ s n tail absent found. cc absent;
    empty = λ s tail absent. refl;
    others = λ k off away. refl;
  }
  move_nodes_lem (old ∷ olds) t (new, once) ((mine, (n, found)), here) =
      let (s, q, tail) = covers-split from old mine in
      let at : node_at t (from ++ s) ≡ some n = ap (node_at t) (sym q) ∙ found in
      let fresh : mem (from ++ s) olds ≡ false = ap (λ (u : Bytes). mem u olds) (sym q) ∙ new in
      subst (λ (u : Bytes). Moves t (u ∷ olds) (move_nodes from to new_name olds (move u t)))
        (sym q)
        (round_Moves t s tail n at olds _ fresh (
          move_nodes_lem olds (move (from ++ s) t) once
            (stays-Present t s tail n at olds fresh here)))
