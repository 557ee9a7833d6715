-- ===== src/Daemon/Laws/Valid.antt =====
-- The results of the procedures against their wire format.
use unfs2go.Common.{ℕ, ◌≤◌, arith}
use unfs2go.Types.Constants.{max_entries}
use unfs2go.Request.{SvcReq}
use unfs2go.Backend.{Server}
use unfs2go.Backend.Contract.{IsServer}
use unfs2go.Nfs.Info.{
  nfsproc3_readlink_3_svc, nfsproc3_symlink_3_svc, nfsproc3_mknod_3_svc, nfsproc3_link_3_svc,
}
use unfs2go.Nfs.Readdir.{nfsproc3_readdirplus_3_svc}
use unfs2go.Nfs.Laws.Valid.{getattr-IsRes, setattr-IsRes, access-IsRes}
use unfs2go.Nfs.Laws.ValidData.{read-IsRes, write-IsRes, commit-IsRes}
use unfs2go.Nfs.Laws.ValidFs.{readdir-IsRes, fsstat-IsRes, fsinfo-IsRes, pathconf-IsRes}
use unfs2go.Nfs.Laws.ValidTree.{lookup-IsRes, create-IsRes, mkdir-IsRes}
use unfs2go.Nfs.Laws.ValidNames.{remove-IsRes, rmdir-IsRes, rename-IsRes}
use unfs2go.Daemon.Proc.{
  NfsProc, Args, Res, proc_null, getattr, setattr, lookup, access, readlink, read, write, create,
  mkdir, symlink, mknod, remove, rmdir, rename, link, readdir, readdirplus, fsstat, fsinfo,
  pathconf, commit,
}
use unfs2go.Daemon.Local.{local}
use unfs2go.Daemon.Format.{IsRes}

module _ (srv : Server) (lawful : IsServer srv) (depth : ℕ) (enough : max_entries ≤ depth) where
  open srv use {backend.{State}}

  -- If the server meets its contract, and `depth` is at least MAX_ENTRIES, then the result of every
  -- procedure has a wire format, whatever the arguments, the call, the static result and the state:
  -- its members fit their types, and its chain of entries is not longer than `depth`.
  pub local-IsRes :
      (p : NfsProc) (argp : Args p) (rqstp : SvcReq) (result : Res p) (s : State)
      → IsRes depth p (local srv p argp rqstp result s).0
  unfolding local nfsproc3_readlink_3_svc nfsproc3_symlink_3_svc nfsproc3_mknod_3_svc
      nfsproc3_link_3_svc nfsproc3_readdirplus_3_svc
  local-IsRes proc_null argp rqstp result s = tt
  local-IsRes getattr argp rqstp result s = getattr-IsRes srv lawful argp rqstp result s
  local-IsRes setattr argp rqstp result s = setattr-IsRes srv lawful argp rqstp result s
  local-IsRes lookup argp rqstp result s = lookup-IsRes srv lawful argp rqstp result s
  local-IsRes access argp rqstp result s = access-IsRes srv lawful argp rqstp result s
  local-IsRes readlink argp rqstp result s = omega arith
  local-IsRes read argp rqstp result s = read-IsRes srv lawful argp rqstp result s
  local-IsRes write argp rqstp result s = write-IsRes srv lawful argp rqstp result s
  local-IsRes create argp rqstp result s = create-IsRes srv lawful argp rqstp result s
  local-IsRes mkdir argp rqstp result s = mkdir-IsRes srv lawful argp rqstp result s
  local-IsRes symlink argp rqstp result s = omega arith
  local-IsRes mknod argp rqstp result s = omega arith
  local-IsRes remove argp rqstp result s = remove-IsRes srv lawful argp rqstp result s
  local-IsRes rmdir argp rqstp result s = rmdir-IsRes srv lawful argp rqstp result s
  local-IsRes rename argp rqstp result s = rename-IsRes srv lawful argp rqstp result s
  local-IsRes link argp rqstp result s = omega arith
  local-IsRes readdir argp rqstp result s =
      readdir-IsRes srv lawful depth argp rqstp result s enough
  local-IsRes readdirplus argp rqstp result s = omega arith
  local-IsRes fsstat argp rqstp result s = fsstat-IsRes srv lawful argp rqstp result s
  local-IsRes fsinfo argp rqstp result s = fsinfo-IsRes srv lawful argp rqstp result s
  local-IsRes pathconf argp rqstp result s = pathconf-IsRes srv lawful argp rqstp result s
  local-IsRes commit argp rqstp result s = commit-IsRes srv lawful argp rqstp result s
