-- ===== src/Mount/Laws/Linked.antt =====
-- unfs3/mount.c: mounts that are linked in memory, and what the loop of `remove_mount` does to them.
use unfs2go.Common.{ℕ, ◌+◌, ◌≡◌, refl, ◌≢◌, List, [], ◌∷◌, Option, none, some, arith, length, sym}
use unfs2go.Xdr.Stream.{CharPtr}
use unfs2go.Wire.Chain.{All}
use unfs2go.Mount.Types.{Mountbody}
use unfs2go.Mount.Loop.{MountNode, MountHeap, set_node}
use unfs2go.Mount.Laws.Without.{IsMountOf, Without}

-- The addresses and the contents of the nodes of a list.
abbrev pub Nodes : Type 0
Nodes = List (ℕ × Mountbody)

abbrev pub Picked : List ℕ → CharPtr → ℕ × Mountbody → Type 0
Picked host path c = IsMountOf host path c.1

-- From a pointer, the `ml_next` pointers lead through the nodes of a list to NULL.
abbrev pub Linked : (ℕ → Option MountNode) → Option ℕ → Nodes → Type 0
Linked nodes first [] = first ≡ none
Linked nodes first ((a, m) ∷ rest) =
    (first ≡ some a)
    × ((next : Option ℕ) × (nodes a ≡ some (record { body = m; ml_next = next }))
        × Linked nodes next rest)

-- No node of the list stands at the address.
abbrev pub Apart : ℕ → Nodes → Type 0
Apart a cs = All (λ c. c.0 ≢ a) cs

-- The addresses of the list are distinct.
abbrev pub AreDistinct : Nodes → Type 0
AreDistinct [] = Unit
AreDistinct ((a, m) ∷ rest) = Apart a rest × AreDistinct rest

pub set_node-same :
    (nodes : ℕ → Option MountNode) (a : ℕ) (c : Option MountNode) → set_node nodes a c a ≡ c
unfolding set_node
set_node-same nodes a c = ground arith

pub set_node-other :
    (nodes : ℕ → Option MountNode) (a : ℕ) (c : Option MountNode) (x : ℕ)
    → x ≢ a
    → set_node nodes a c x ≡ nodes x
unfolding set_node
set_node-other nodes a c x other = ground (arith, other)

pub Linked-set_node :
    (nodes : ℕ → Option MountNode) (a : ℕ) (c : Option MountNode) (first : Option ℕ) (cs : Nodes)
    → Apart a cs
    → Linked nodes first cs
    → Linked (set_node nodes a c) first cs
Linked-set_node nodes a c first [] apart h = h
Linked-set_node nodes a c first ((b, m) ∷ rest) (other, apart) (at, (next, node, linked)) = (
  at,
  (
    next,
    rw (set_node-other nodes a c b other) node,
    Linked-set_node nodes a c next rest apart linked,
  ),
)

-- What the loop has done to the nodes of a list when it ends: the nodes that are left are linked, those
-- that it picks are given back, no other node of the kind `Spared` changes, and the number is adjusted.
pub record Removed (host : List ℕ) (path : CharPtr) (Spared : ℕ → Type 0) (todo : Nodes)
    (h h' : MountHeap) (first : Option ℕ) : Type 0 where
  pub left : Nodes
  pub without : Without (Picked host path) todo left
  pub linked : Linked h'.nodes first left
  pub freed : All (λ c. Picked host path c → h'.nodes c.0 ≡ none) todo
  pub spared : (x : ℕ) → Spared x → Apart x todo → h'.nodes x ≡ h.nodes x
  pub counted : h'.mount_cnt + length todo ≡ h.mount_cnt + length left

module _ (host : List ℕ) (path : CharPtr) where
  -- A node that the loop keeps, in front of what it has done to the rest.
  pub Removed-keep :
      (i : ℕ) (m : Mountbody) (rest : Nodes) (h h' : MountHeap) (next' : Option ℕ)
      → (IsMountOf host path m → ⊥)
      → h'.nodes i ≡ some (record { body = m; ml_next = next' })
      → Removed host path (λ x. x ≢ i) rest h h' next'
      → Removed host path (λ x. Unit) ((i, m) ∷ rest) h h' (some i)
  Removed-keep i m rest h h' next' kept node r = record {
    left = (i, m) ∷ r.left;
    without = Without.keep (i, m) rest r.left kept r.without;
    linked = (refl, (next', node, r.linked));
    freed = (λ picked. absurd (kept picked), r.freed);
    spared = λ x any apart. r.spared x (λ e. apart.0 (sym e)) apart.1;
    counted = omega (arith, r.counted);
  }

  -- A node that the loop gives back, in front of what it then does to the rest.
  pub Removed-leave :
      (Spared : ℕ → Type 0) (i : ℕ) (m : Mountbody) (rest : Nodes) (h h₁ h' : MountHeap)
      (first : Option ℕ)
      → IsMountOf host path m
      → Spared i
      → Apart i rest
      → h₁.nodes i ≡ none
      → ((x : ℕ) → Spared x → x ≢ i → h₁.nodes x ≡ h.nodes x)
      → h₁.mount_cnt + 1 ≡ h.mount_cnt
      → Removed host path Spared rest h₁ h' first
      → Removed host path Spared ((i, m) ∷ rest) h h' first
  Removed-leave Spared i m rest h h₁ h' first picked spared apart gone same fewer r = record {
    left = r.left;
    without = Without.leave (i, m) rest r.left picked r.without;
    linked = r.linked;
    freed = (λ _. rw (r.spared i spared apart) gone, r.freed);
    spared = λ x kind others. rw (r.spared x kind others.1) (same x kind (λ e. others.0 (sym e)));
    counted = omega (arith, r.counted, fewer);
  }
