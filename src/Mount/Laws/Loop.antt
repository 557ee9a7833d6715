-- ===== src/Mount/Laws/Loop.antt =====
-- unfs3/mount.c: the loop of `remove_mount` over the nodes, against the list of mounts without those that
-- it picks.
use unfs2go.Common.{
  ℕ, zero, suc, ◌+◌, ◌≤◌, ◌≡◌, refl, ◌≢◌, List, [], ◌∷◌, true, false, Option, none, some, arith,
  inl, inr, Bool-cases, length, sym,
}
use unfs2go.Xdr.Stream.{CharPtr}
use unfs2go.Mount.Types.{Mountbody}
use unfs2go.Mount.Mounts.{is_mount_of}
use unfs2go.Mount.Loop.{MountHeap, set_node, unlink, release, remove_loop}
use unfs2go.Mount.Laws.Without.{Without, is_mount_of_iff}
use unfs2go.Mount.Laws.Linked.{
  Nodes, Linked, Apart, AreDistinct, set_node-same, set_node-other, Linked-set_node, Removed,
  Removed-keep, Removed-leave,
}

module _ (host : List ℕ) (path : CharPtr) where
  pub remove_loop-keep :
      (i : ℕ) (m : Mountbody) (next prev : Option ℕ) (rounds : ℕ) (h : MountHeap)
      → h.nodes i ≡ some (record { body = m; ml_next = next })
      → is_mount_of host path m ≡ false
      → remove_loop host path (some i) (suc rounds) prev h
        ≡ remove_loop host path next rounds (some i) h
  unfolding remove_loop
  remove_loop-keep i m next prev rounds h node other = rw (remove_loop, node, other) refl

  pub remove_loop-leave :
      (i : ℕ) (m : Mountbody) (next prev : Option ℕ) (rounds : ℕ) (h h₀ : MountHeap)
      → h.nodes i ≡ some (record { body = m; ml_next = next })
      → is_mount_of host path m ≡ true
      → unlink prev next h ≡ some h₀
      → remove_loop host path (some i) (suc rounds) prev h
        ≡ remove_loop host path next rounds prev (release i h₀)
  unfolding remove_loop
  remove_loop-leave i m next prev rounds h h₀ node found unlinked =
      rw (remove_loop, node, found, unlinked) refl

  -- The heap after `prev->ml_next = next`.
  abbrev relinked : ℕ → Mountbody → Option ℕ → MountHeap → MountHeap
  relinked p b next h = record h {
    nodes = set_node h.nodes p (some (record { body = b; ml_next = next }));
  }

  unlink-relinked :
      (p : ℕ) (b : Mountbody) (old next : Option ℕ) (h : MountHeap)
      → h.nodes p ≡ some (record { body = b; ml_next = old })
      → unlink (some p) next h ≡ some (relinked p b next h)
  unfolding unlink
  unlink-relinked p b old next h node = rw (unlink, node) refl

  pub Removed-nothing :
      (Spared : ℕ → Type 0) (h : MountHeap) (first : Option ℕ)
      → first ≡ none
      → Removed host path Spared [] h h first
  Removed-nothing Spared h first end = record {
    left = [];
    without = Without.nil;
    linked = end;
    freed = tt;
    spared = λ x kind others. refl;
    counted = refl;
  }

  pub release-counted :
      (i : ℕ) (h : MountHeap) → 1 ≤ h.mount_cnt → (release i h).mount_cnt + 1 ≡ h.mount_cnt
  unfolding release
  release-counted i h some_left = ground arith

  -- The loop behind a node that it has kept.
  pub remove_loop-behind :
      (todo : Nodes) (iter : Option ℕ) (rounds p : ℕ) (b : Mountbody) (h : MountHeap)
      → Linked h.nodes iter todo
      → AreDistinct todo
      → Apart p todo
      → h.nodes p ≡ some (record { body = b; ml_next = iter })
      → length todo ≤ rounds
      → length todo ≤ h.mount_cnt
      → (h' : MountHeap) × (remove_loop host path iter rounds (some p) h ≡ some h')
        × (h'.mount_list ≡ h.mount_list)
        × (next' : Option ℕ) × (h'.nodes p ≡ some (record { body = b; ml_next = next' }))
        × Removed host path (λ x. x ≢ p) todo h h' next'
  unfolding remove_loop release
  remove_loop-behind [] iter rounds p b h linked distinct apart before enough some_left =
      (h, rw linked refl, refl, iter, before, Removed-nothing (λ x. x ≢ p) h iter linked)
  remove_loop-behind ((i, m) ∷ rest) iter zero p b h linked distinct apart before enough some_left =
      absurd (omega (arith, enough))
  remove_loop-behind ((i, m) ∷ rest) iter (suc rounds) p b h (at, (next, node, linked)) distinct
        apart before enough some_left =
      elim (Bool-cases (is_mount_of host path m)) [
        | inl found ↦
            let h₀ = relinked p b next h in
            let h₁ = release i h₀ in
            let nodes₀ = set_node h.nodes p (some (record { body = b; ml_next = next })) in
            let (h', run, list, next', after, r) =
              remove_loop-behind rest next rounds p b h₁
                (Linked-set_node nodes₀ i none next rest distinct.0
                  (Linked-set_node h.nodes p _ next rest apart.1 linked))
                distinct.1 apart.1
                (rw (set_node-other nodes₀ i none p (λ e. apart.0 (sym e)))
                  (set_node-same h.nodes p _))
                (omega (arith, enough))
                (omega (arith, some_left, release-counted i h₀ (omega (arith, some_left)))) in
            (
              h',
              rw at (
                  rw
                    (remove_loop-leave i m next (some p) rounds h h₀ node found
                      (unlink-relinked p b iter next h before))
                    run),
              list,
              next',
              after,
              Removed-leave host path (λ x. x ≢ p) i m rest h h₁ h' next'
                  ((is_mount_of_iff host path m).0 found) apart.0 distinct.0
                  (set_node-same nodes₀ i none)
                  (λ x other others.
                    rw (set_node-other nodes₀ i none x others) (set_node-other h.nodes p _ x other))
                  (release-counted i h₀ (omega (arith, some_left))) r,
            )
        | inr other ↦
            let (h', run, list, next', after, r) =
              remove_loop-behind rest next rounds i m h linked distinct.1 distinct.0 node
                (omega (arith, enough)) (omega (arith, some_left)) in
            let kept =
              Removed-keep host path i m rest h h' next'
                (λ picked. ground (arith, (is_mount_of_iff host path m).1 picked, other)) after r in
            (
              h',
              rw at (rw (remove_loop-keep i m next (some p) rounds h node other) run),
              list,
              some i,
              rw (kept.spared p tt apart) (rw (sym at) before),
              record {
                left = kept.left;
                without = kept.without;
                linked = kept.linked;
                freed = kept.freed;
                spared = λ x far. kept.spared x tt;
                counted = kept.counted;
              },
            )
      ]
