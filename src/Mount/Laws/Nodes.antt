-- ===== src/Mount/Laws/Nodes.antt =====
-- unfs3/mount.c: `remove_mount` on the nodes in memory and on the list of mounts.
use unfs2go.Common.{
  ℕ, zero, suc, ◌≤◌, ◌≡◌, refl, ap, List, [], ◌∷◌, none, some, arith, inl, inr, Bool-cases, length,
  Option, subst, sym, ◌∙◌,
}
use unfs2go.Xdr.Stream.{CharPtr}
use unfs2go.Request.{SvcReq, get_remote}
use unfs2go.Mount.Types.{Mountbody}
use unfs2go.Mount.Mounts.{Mounts, is_mount_of, remove_mount}
use unfs2go.Mount.Loop.{MountHeap, unlink, release, remove_loop, remove_nodes}
use unfs2go.Mount.Laws.Mounts.{remaining, remove_mount-remaining, remove_mount-IsCounted}
use unfs2go.Mount.Laws.Without.{Without, is_mount_of_iff}
use unfs2go.Mount.Laws.Linked.{
  Nodes, Picked, Linked, AreDistinct, set_node-same, set_node-other, Linked-set_node, Removed,
  Removed-keep, Removed-leave,
}
use unfs2go.Mount.Laws.Loop.{
  Removed-nothing, release-counted, remove_loop-keep, remove_loop-leave, remove_loop-behind,
}

module _ (host : List ℕ) (path : CharPtr) where
  unlink-first :
      (next : Option ℕ) (h : MountHeap) → unlink none next h ≡ some (record h { mount_list = next })
  unfolding unlink
  unlink-first next h = refl

  -- The loop as long as it has kept no node.
  remove_loop-first :
      (todo : Nodes) (rounds : ℕ) (h : MountHeap)
      → Linked h.nodes h.mount_list todo
      → AreDistinct todo
      → length todo ≤ rounds
      → length todo ≤ h.mount_cnt
      → (h' : MountHeap) × (remove_loop host path h.mount_list rounds none h ≡ some h')
        × Removed host path (λ x. Unit) todo h h' h'.mount_list
  unfolding remove_loop release
  remove_loop-first [] rounds h linked distinct enough some_left =
      (h, rw linked refl, Removed-nothing host path (λ x. Unit) h h.mount_list linked)
  remove_loop-first ((i, m) ∷ rest) zero h linked distinct enough some_left =
      absurd (omega (arith, enough))
  remove_loop-first ((i, m) ∷ rest) (suc rounds) h (at, (next, node, linked)) distinct enough
        some_left =
      elim (Bool-cases (is_mount_of host path m)) [
        | inl found ↦
            let h₀ : MountHeap = record h { mount_list = next } in
            let h₁ = release i h₀ in
            let (h', run, r) =
              remove_loop-first rest rounds h₁
                (Linked-set_node h.nodes i none next rest distinct.0 linked) distinct.1
                (omega (arith, enough))
                (omega
                  (arith, some_left, release-counted host path i h₀ (omega (arith, some_left)))) in
            (
              h',
              subst (λ iter. remove_loop host path iter (suc rounds) none h ≡ some h') (sym at)
                  (rw
                    (remove_loop-leave host path i m next none rounds h h₀ node found
                      (unlink-first next h))
                    run),
              Removed-leave host path (λ x. Unit) i m rest h h₁ h' h'.mount_list
                  ((is_mount_of_iff host path m).0 found) tt distinct.0
                  (set_node-same h.nodes i none)
                  (λ x any others. set_node-other h.nodes i none x others)
                  (release-counted host path i h₀ (omega (arith, some_left))) r,
            )
        | inr other ↦
            let (h', run, list, next', after, r) =
              remove_loop-behind host path rest next rounds i m h linked distinct.1 distinct.0 node
                (omega (arith, enough)) (omega (arith, some_left)) in
            let kept =
              Removed-keep host path i m rest h h' next'
                (λ picked. ground (arith, (is_mount_of_iff host path m).1 picked, other)) after r in
            (
              h',
              subst (λ iter. remove_loop host path iter (suc rounds) none h ≡ some h') (sym at)
                  (rw (remove_loop-keep host path i m next none rounds h node other) run),
              subst (λ first. Removed host path (λ x. Unit) ((i, m) ∷ rest) h h' first)
                  (sym (list ∙ at)) kept,
            )
      ]

-- The contents of the nodes, in their order.
abbrev pub bodies : Nodes → List Mountbody
bodies [] = []
bodies ((a, m) ∷ cs) = m ∷ bodies cs

length-bodies : (cs : Nodes) → length (bodies cs) ≡ length cs
length-bodies [] = refl
length-bodies ((a, m) ∷ cs) = omega (arith, length-bodies cs)

bodies-left :
    (host : List ℕ) (path : CharPtr) (cs left : Nodes)
    → Without (Picked host path) cs left
    → bodies left ≡ remaining (is_mount_of host path) (bodies cs)
bodies-left host path _ _ Without.nil = refl
bodies-left host path _ _ (Without.leave c cs left picked rest) =
    rw ((is_mount_of_iff host path c.1).1 picked) (bodies-left host path cs left rest)
bodies-left host path _ _ (Without.keep c cs left kept rest) =
    elim (Bool-cases (is_mount_of host path c.1)) [
      | inl found ↦ absurd (kept ((is_mount_of_iff host path c.1).0 found))
      | inr other ↦ rw other (ap (λ t. c.1 ∷ t) (bodies-left host path cs left rest))
    ]

-- On mounts that are linked in memory at distinct addresses and counted, with a round for each of them,
-- the loop of `remove_mount` ends without a fault. Linked from `mount_list` are then, in their order,
-- the mounts that are not of the caller's address, or not at the path if one is given; the nodes of the
-- others are given back, and no other memory changes. The list and the number are those that
-- `remove_mount` computes on the list of the mounts.
pub remove_nodes-remove_mount :
    (inet_ntoa : ℕ → List ℕ) (path : CharPtr) (rqstp : SvcReq) (rounds : ℕ) (h : MountHeap)
    (cs : Nodes)
    → Linked h.nodes h.mount_list cs
    → AreDistinct cs
    → h.mount_cnt ≡ length cs
    → length cs ≤ rounds
    → (h' : MountHeap) × (remove_nodes inet_ntoa path rqstp rounds h ≡ some h')
      × (r : Removed (inet_ntoa rqstp.sin_addr) path (λ x. Unit) cs h h' h'.mount_list) × (let ms =
            remove_mount inet_ntoa path rqstp
              (record { mount_list = bodies cs; mount_cnt = h.mount_cnt }) in
          (bodies r.left ≡ ms.mount_list)
          × (h'.mount_cnt ≡ ms.mount_cnt)
          × (h'.mount_cnt ≡ length r.left))
unfolding remove_nodes get_remote
remove_nodes-remove_mount inet_ntoa path rqstp rounds h cs linked distinct counted enough =
    let ms : Mounts = record { mount_list = bodies cs; mount_cnt = h.mount_cnt } in
    let (h', run, r) =
      remove_loop-first (inet_ntoa rqstp.sin_addr) path cs rounds h linked distinct enough
        (omega (arith, counted)) in
    let left : bodies r.left ≡ (remove_mount inet_ntoa path rqstp ms).mount_list =
      rw (remove_mount-remaining inet_ntoa path rqstp ms)
        (bodies-left (inet_ntoa rqstp.sin_addr) path cs r.left r.without) in
    let number : (remove_mount inet_ntoa path rqstp ms).mount_cnt ≡ length r.left =
      rw
        (
          remove_mount-IsCounted inet_ntoa path rqstp ms (rw (counted, length-bodies cs) refl),
          ← left,
        )
        (length-bodies r.left) in
    (
      h',
      run,
      r,
      (left, omega (arith, r.counted, counted, number), omega (arith, r.counted, counted)),
    )
