-- ===== src/Mount/Loop.antt =====
-- unfs3/mount.c: the loop of `remove_mount` over the nodes in memory.
use unfs2go.Common.{
  ℕ, zero, suc, ◌-◌, List, true, false, Option, none, some, ltb, ◌==◌, if◌then◌else◌,
}
use unfs2go.Xdr.Stream.{CharPtr}
use unfs2go.Request.{SvcReq, get_remote}
use unfs2go.Mount.Types.{Mountbody}
use unfs2go.Mount.Mounts.{is_mount_of}

-- `struct mountbody` with its pointer; `none` is NULL.
pub record MountNode : Type 0 where
  pub body : Mountbody
  pub ml_next : Option ℕ

-- The nodes at their addresses, `none` where none is allocated, with `mount_list` and `mount_cnt`.
pub record MountHeap : Type 0 where
  pub nodes : ℕ → Option MountNode
  pub mount_list : Option ℕ
  pub mount_cnt : ℕ

unfoldable pub set_node : (ℕ → Option MountNode) → ℕ → Option MountNode → ℕ → Option MountNode
set_node nodes a c x = if x == a then c else nodes x

-- `if (prev) prev->ml_next = next; else mount_list = next;` with a fault where `prev` is no node.
unfoldable pub unlink : Option ℕ → Option ℕ → MountHeap → Option MountHeap
unfolding set_node
unlink none next h = some (record h { mount_list = next })
unlink (some p) next h = elim (h.nodes p) [
  | none ↦ none
  | some prev ↦
      some (record h { nodes = set_node h.nodes p (some (record prev { ml_next = next })) })
]

-- `free(iter)`, and the adjustment of `mount_cnt`.
unfoldable pub release : ℕ → MountHeap → MountHeap
unfolding set_node
release iter h = record h {
  nodes = set_node h.nodes iter none;
  mount_cnt = if ltb 0 h.mount_cnt then h.mount_cnt - 1 else h.mount_cnt;
}

-- `while (iter)`, for at most as many rounds as the third argument; `none` is a fault, or a loop that
-- needs more.
unfoldable pub remove_loop :
    List ℕ → CharPtr → Option ℕ → ℕ → Option ℕ → MountHeap → Option MountHeap
unfolding unlink release
remove_loop host path none rounds prev h = some h
remove_loop host path (some iter) zero prev h = none
remove_loop host path (some iter) (suc rounds) prev h = elim (h.nodes iter) [
  | none ↦ none
  | some node ↦ elim (is_mount_of host path node.body) [
    | true ↦ elim (unlink prev node.ml_next h) [
      | none ↦ none
      | some h' ↦ remove_loop host path node.ml_next rounds prev (release iter h')
    ]
    | false ↦ remove_loop host path node.ml_next rounds (some iter) h
  ]
]

-- `remove_mount` on the nodes, for a number of rounds.
unfoldable pub remove_nodes : (ℕ → List ℕ) → CharPtr → SvcReq → ℕ → MountHeap → Option MountHeap
unfolding remove_loop get_remote
remove_nodes inet_ntoa path rqstp rounds h =
    remove_loop (inet_ntoa (get_remote rqstp)) path h.mount_list rounds none h
