-- ===== src/Mount/Laws/Runs.antt =====
-- What each procedure of the mount protocol returns, and what it does to what lasts from call to call.
use unfs2go.Common.{ℕ, ◌≡◌, refl, List, [], ◌∷◌, none, some, subst, sym}
use unfs2go.Xdr.Stream.{CharPtr}
use unfs2go.Backend.{Server}
use unfs2go.Request.{SvcReq, get_remote}
use unfs2go.Mount.Mounts.{Malloc, Mounts, remove_mount}
use unfs2go.Mount.Procs.{
  mountproc_dump_3_svc, mountproc_umnt_3_svc, mountproc_umntall_3_svc, mountproc_export_3_svc,
}
use unfs2go.Mount.Program.{
  MountProc, mount_null, mnt, dump, umnt, umntall, export_list, mount_proc, MountArgs, MountRes,
  MountWorld, mount_local,
}
use unfs2go.Mount.Laws.Mounts.{remove_mount-remaining}
use unfs2go.Mount.Laws.Without.{IsMountOf, Without, remaining-Without}
use unfs2go.Mount.Laws.Mnt.{IsMnt, mountproc_mnt_3_svc-cases}

-- The numbers of the procedures in the mount protocol of version 3.
abbrev pub mount_number : MountProc → ℕ
mount_number mount_null = 0
mount_number mnt = 1
mount_number dump = 2
mount_number umnt = 3
mount_number umntall = 4
mount_number export_list = 5

mount_proc-number : (p : MountProc) → mount_proc (mount_number p) ≡ some p
unfolding mount_proc
mount_proc-number mount_null = refl
mount_proc-number mnt = refl
mount_proc-number dump = refl
mount_proc-number umnt = refl
mount_proc-number umntall = refl
mount_proc-number export_list = refl

pub mount_numbered : (n : ℕ) (p : MountProc) → n ≡ mount_number p → mount_proc n ≡ some p
mount_numbered n p known = rw known (mount_proc-number p)

module _ (inet_ntoa : ℕ → List ℕ) (srv : Server)
    (go_accept_mount : ℕ → List ℕ → srv.backend.State → ℕ × srv.backend.State) where
  -- The mounts of the caller, at the path if one is given, are gone, and all else is as it was.
  abbrev pub IsUnmounted :
      SvcReq
      → CharPtr
      → MountWorld inet_ntoa srv go_accept_mount
      → MountWorld inet_ntoa srv go_accept_mount
      → Type 0
  IsUnmounted rqstp path w w' =
      Without (IsMountOf (inet_ntoa rqstp.sin_addr) path) w.mounts.mount_list w'.mounts.mount_list
      × (w'.mnt_result ≡ w.mnt_result)
      × (w'.state ≡ w.state)

  abbrev pub Runs :
      (p : MountProc)
      → MountArgs p
      → SvcReq
      → Malloc
      → MountWorld inet_ntoa srv go_accept_mount
      → MountRes p
      → MountWorld inet_ntoa srv go_accept_mount
      → Type 0
  Runs mount_null a rqstp malloc w r w' = w' ≡ w
  Runs mnt none rqstp malloc w r w' = ⊥
  Runs mnt (some dpath) rqstp malloc w r w' =
      (w'.mnt_result ≡ r)
      × IsMnt inet_ntoa srv go_accept_mount dpath rqstp malloc w.mounts w.state r w'.mounts
  Runs dump a rqstp malloc w r w' = (r ≡ w.mounts.mount_list) × (w' ≡ w)
  Runs umnt path rqstp malloc w r w' = IsUnmounted rqstp path w w'
  Runs umntall a rqstp malloc w r w' = IsUnmounted rqstp none w w'
  Runs export_list a rqstp malloc w r w' =
      (r ≡ record { ex_dir = some (b'/' ∷ []); ex_groups = [] } ∷ []) × (w' ≡ w)

  remove_mount-Without :
      (path : CharPtr) (rqstp : SvcReq) (ms : Mounts)
      → Without
          (IsMountOf (inet_ntoa rqstp.sin_addr) path)
          ms.mount_list
          (remove_mount inet_ntoa path rqstp ms).mount_list
  unfolding get_remote
  remove_mount-Without path rqstp ms =
      subst (λ left. Without (IsMountOf (inet_ntoa rqstp.sin_addr) path) ms.mount_list left)
        (sym (remove_mount-remaining inet_ntoa path rqstp ms))
        (remaining-Without (inet_ntoa rqstp.sin_addr) path ms.mount_list)

  abbrev pub IsSome : (p : MountProc) → MountArgs p → Type 0
  IsSome mnt none = ⊥
  IsSome mnt (some dpath) = Unit
  IsSome mount_null a = Unit
  IsSome dump a = Unit
  IsSome umnt a = Unit
  IsSome umntall a = Unit
  IsSome export_list a = Unit

  pub mount_local-Runs :
      (p : MountProc) (a : MountArgs p) (rqstp : SvcReq) (malloc : Malloc)
      (w : MountWorld inet_ntoa srv go_accept_mount)
      → IsSome p a
      → (let (r, w') = mount_local inet_ntoa srv go_accept_mount p a rqstp malloc w in
          Runs p a rqstp malloc w r w')
  unfolding mount_local mountproc_dump_3_svc mountproc_umnt_3_svc mountproc_umntall_3_svc
      mountproc_export_3_svc
  mount_local-Runs mount_null a rqstp malloc w given = refl
  mount_local-Runs mnt none rqstp malloc w given = absurd given
  mount_local-Runs mnt (some dpath) rqstp malloc w given = (
    refl,
    mountproc_mnt_3_svc-cases inet_ntoa srv go_accept_mount dpath rqstp malloc w.mnt_result w.mounts
        w.state,
  )
  mount_local-Runs dump a rqstp malloc w given = (refl, refl)
  mount_local-Runs umnt path rqstp malloc w given =
      (remove_mount-Without path rqstp w.mounts, refl, refl)
  mount_local-Runs umntall a rqstp malloc w given =
      (remove_mount-Without none rqstp w.mounts, refl, refl)
  mount_local-Runs export_list a rqstp malloc w given = (refl, refl)
