-- ===== src/Daemon/Local.antt =====
-- unfs3/daemon.c: the procedure that `nfs3_program_3` calls.
use unfs2go.Backend.{Server}
use unfs2go.Request.{SvcReq}
use unfs2go.Daemon.Proc.{NfsProc, Args, Res, proc_null, getattr, setattr, lookup}
use unfs2go.Daemon.Proc.{access, readlink, read, write, create, mkdir, symlink}
use unfs2go.Daemon.Proc.{mknod, remove, rmdir, rename, link, readdir, readdirplus}
use unfs2go.Daemon.Proc.{fsstat, fsinfo, pathconf, commit}
use unfs2go.Nfs.Inode.{nfsproc3_getattr_3_svc, nfsproc3_setattr_3_svc, nfsproc3_access_3_svc}
use unfs2go.Nfs.Data.{nfsproc3_read_3_svc, nfsproc3_write_3_svc, nfsproc3_commit_3_svc}
use unfs2go.Nfs.Tree.{
  nfsproc3_lookup_3_svc, nfsproc3_create_3_svc, nfsproc3_mkdir_3_svc, nfsproc3_remove_3_svc,
  nfsproc3_rmdir_3_svc, nfsproc3_rename_3_svc,
}
use unfs2go.Nfs.Info.{
  nfsproc3_readlink_3_svc, nfsproc3_symlink_3_svc, nfsproc3_mknod_3_svc, nfsproc3_link_3_svc,
  nfsproc3_fsstat_3_svc, nfsproc3_fsinfo_3_svc, nfsproc3_pathconf_3_svc,
}
use unfs2go.Nfs.Readdir.{nfsproc3_readdir_3_svc, nfsproc3_readdirplus_3_svc}

module _ (srv : Server) where
  open srv use {backend.{State}}

  -- `local`, applied to the argument, the static result and the state.
  unfoldable pub local : (p : NfsProc) → Args p → SvcReq → Res p → State → Res p × State
  local proc_null argp rqstp result s = (tt, s)
  local getattr argp rqstp result s = nfsproc3_getattr_3_svc srv argp rqstp result s
  local setattr argp rqstp result s = nfsproc3_setattr_3_svc srv argp rqstp result s
  local lookup argp rqstp result s = nfsproc3_lookup_3_svc srv argp rqstp result s
  local access argp rqstp result s = nfsproc3_access_3_svc srv argp rqstp result s
  local readlink argp rqstp result s = (nfsproc3_readlink_3_svc argp rqstp result, s)
  local read argp rqstp result s = nfsproc3_read_3_svc srv argp rqstp result s
  local write argp rqstp result s = nfsproc3_write_3_svc srv argp rqstp result s
  local create argp rqstp result s = nfsproc3_create_3_svc srv argp rqstp result s
  local mkdir argp rqstp result s = nfsproc3_mkdir_3_svc srv argp rqstp result s
  local symlink argp rqstp result s = (nfsproc3_symlink_3_svc argp rqstp result, s)
  local mknod argp rqstp result s = (nfsproc3_mknod_3_svc argp rqstp result, s)
  local remove argp rqstp result s = nfsproc3_remove_3_svc srv argp rqstp result s
  local rmdir argp rqstp result s = nfsproc3_rmdir_3_svc srv argp rqstp result s
  local rename argp rqstp result s = nfsproc3_rename_3_svc srv argp rqstp result s
  local link argp rqstp result s = (nfsproc3_link_3_svc argp rqstp result, s)
  local readdir argp rqstp result s = nfsproc3_readdir_3_svc srv argp rqstp result s
  local readdirplus argp rqstp result s = (nfsproc3_readdirplus_3_svc argp rqstp result, s)
  local fsstat argp rqstp result s = nfsproc3_fsstat_3_svc srv argp rqstp result s
  local fsinfo argp rqstp result s = nfsproc3_fsinfo_3_svc srv argp rqstp result s
  local pathconf argp rqstp result s = nfsproc3_pathconf_3_svc srv argp rqstp result s
  local commit argp rqstp result s = nfsproc3_commit_3_svc srv argp rqstp result s
