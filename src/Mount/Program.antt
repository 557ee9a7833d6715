-- ===== src/Mount/Program.antt =====
-- unfs3/daemon.c: `mountprog_3`.
use unfs2go.Common.{ℕ, List, ◌==◌, if◌then◌else◌, Option, none, some}
use unfs2go.Xdr.Stream.{Filter, done}
use unfs2go.Xdr.Rpc.{Rpc}
use unfs2go.Backend.{Server}
use unfs2go.Request.{SvcReq}
use unfs2go.Daemon.Program.{Svc, Answer, noproc, decode_error, system_error, reply}
use unfs2go.Mount.Types.{Dirpath, Mountres3, Mountbody, Exportnode}
use unfs2go.Mount.Mounts.{Malloc, Mounts}
use unfs2go.Mount.Procs.{
  mountproc_mnt_3_svc, mountproc_dump_3_svc, mountproc_umnt_3_svc, mountproc_umntall_3_svc,
  mountproc_export_3_svc,
}
use unfs2go.Mount.Xdr.{xdr_dirpath, xdr_mountres3, xdr_mountlist, xdr_exports}

pub data MountProc : Type 0 where
  mount_null mnt dump umnt umntall export_list : MountProc

-- The labels of the `switch`; `none` is its default.
unfoldable pub mount_proc : ℕ → Option MountProc
mount_proc rq_proc =
    if rq_proc == 0
    then some mount_null
    else if rq_proc == 1
    then some mnt
    else if rq_proc == 2
    then some dump
    else if rq_proc == 3
    then some umnt
    else if rq_proc == 4
    then some umntall
    else if rq_proc == 5
    then some export_list
    else none

abbrev pub MountArgs : MountProc → Type 0
MountArgs mount_null = Unit
MountArgs mnt = Dirpath
MountArgs dump = Unit
MountArgs umnt = Dirpath
MountArgs umntall = Unit
MountArgs export_list = Unit

abbrev pub MountRes : MountProc → Type 0
MountRes mount_null = Unit
MountRes mnt = Mountres3
MountRes dump = List Mountbody
MountRes umnt = Unit
MountRes umntall = Unit
MountRes export_list = List Exportnode

-- `memset(&argument, 0, sizeof(argument))`
abbrev pub zero_mount_args : (p : MountProc) → MountArgs p
zero_mount_args mount_null = tt
zero_mount_args mnt = none
zero_mount_args dump = tt
zero_mount_args umnt = none
zero_mount_args umntall = tt
zero_mount_args export_list = tt

module _ (rpc : Rpc) (depth : ℕ) where
  unfoldable pub xdr_mount_argument : (p : MountProc) → Filter (MountArgs p)
  xdr_mount_argument mount_null = done
  xdr_mount_argument mnt = xdr_dirpath rpc
  xdr_mount_argument dump = done
  xdr_mount_argument umnt = xdr_dirpath rpc
  xdr_mount_argument umntall = done
  xdr_mount_argument export_list = done

  unfoldable pub xdr_mount_result : (p : MountProc) → Filter (MountRes p)
  xdr_mount_result mount_null = done
  xdr_mount_result mnt = xdr_mountres3 rpc
  xdr_mount_result dump = xdr_mountlist rpc depth
  xdr_mount_result umnt = done
  xdr_mount_result umntall = done
  xdr_mount_result export_list = xdr_exports rpc depth

module _ (inet_ntoa : ℕ → List ℕ) (srv : Server)
    (go_accept_mount : ℕ → List ℕ → srv.backend.State → ℕ × srv.backend.State) where
  open srv use {backend.{State}}

  -- What lasts from call to call: the static result of MNT, the mounts, and the state of the backend.
  pub record MountWorld : Type 0 where
    pub mnt_result : Mountres3
    pub mounts : Mounts
    pub state : State

  -- MNT of a string. A decoded argument is never NULL: `xdr_string` allocates it.
  unfoldable pub mount_at : Dirpath → SvcReq → Malloc → MountWorld → Mountres3 × MountWorld
  mount_at none rqstp malloc w = (w.mnt_result, w)
  mount_at (some dpath) rqstp malloc w =
      let (result, mounts, state) =
        mountproc_mnt_3_svc inet_ntoa srv go_accept_mount dpath rqstp malloc w.mnt_result w.mounts
          w.state in
      (result, record { mnt_result = result; mounts = mounts; state = state })

  -- `local`
  unfoldable pub mount_local :
      (p : MountProc) → MountArgs p → SvcReq → Malloc → MountWorld → MountRes p × MountWorld
  unfolding mount_at
  mount_local mount_null argp rqstp malloc w = (tt, w)
  mount_local mnt argp rqstp malloc w = mount_at argp rqstp malloc w
  mount_local dump argp rqstp malloc w = (mountproc_dump_3_svc w.mounts, w)
  mount_local umnt argp rqstp malloc w =
      (tt, record w { mounts = mountproc_umnt_3_svc inet_ntoa argp rqstp w.mounts })
  mount_local umntall argp rqstp malloc w =
      (tt, record w { mounts = mountproc_umntall_3_svc inet_ntoa rqstp w.mounts })
  mount_local export_list argp rqstp malloc w = (mountproc_export_3_svc, w)

  module _ (rpc : Rpc) (svc : Svc) (depth : ℕ) where
    unfoldable pub mount_answer : (p : MountProc) → MountRes p × MountWorld → Answer × MountWorld
    mount_answer p (result, w) =
        elim (svc.svc_sendreply (MountRes p) (xdr_mount_result rpc depth p) result) [
          | none ↦ (system_error, w)
          | some body ↦ (reply body, w)
        ]

    unfoldable pub mount_call :
        (p : MountProc) → SvcReq → Malloc → List ℕ → MountWorld → Answer × MountWorld
    unfolding mount_answer
    mount_call p rqstp malloc body w =
        elim (svc.svc_getargs (MountArgs p) (xdr_mount_argument rpc depth p) body
          (zero_mount_args p)) [
            | none ↦ (decode_error, w)
            | some argument ↦ mount_answer p (mount_local p argument rqstp malloc w)
          ]

    unfoldable pub mountprog_3 : SvcReq → Malloc → List ℕ → MountWorld → Answer × MountWorld
    unfolding mount_call
    mountprog_3 rqstp malloc body w = elim (mount_proc rqstp.rq_proc) [
      | none ↦ (noproc, w)
      | some p ↦ mount_call p rqstp malloc body w
    ]
