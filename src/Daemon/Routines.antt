-- ===== src/Daemon/Routines.antt =====
-- unfs3/daemon.c: the XDR routines that `nfs3_program_3` chooses. `xdr_void` does nothing.
use unfs2go.Common.{ℕ}
use unfs2go.Xdr.Stream.{Filter, done}
use unfs2go.Xdr.Rpc.{Rpc}
use unfs2go.Xdr.Args.{
  xdr_getattr3args, xdr_setattr3args, xdr_lookup3args, xdr_access3args, xdr_readlink3args,
  xdr_read3args, xdr_write3args,
}
use unfs2go.Xdr.Args.{xdr_create3args, xdr_mkdir3args, xdr_symlink3args}
use unfs2go.Xdr.DirArgs.{
  xdr_mknod3args, xdr_remove3args, xdr_rmdir3args, xdr_rename3args, xdr_link3args, xdr_readdir3args,
  xdr_readdirplus3args,
}
use unfs2go.Xdr.DirArgs.{xdr_fsstat3args, xdr_fsinfo3args, xdr_pathconf3args, xdr_commit3args}
use unfs2go.Xdr.Res.{
  xdr_getattr3res, xdr_setattr3res, xdr_lookup3res, xdr_access3res, xdr_readlink3res,
}
use unfs2go.Xdr.FileRes.{xdr_read3res, xdr_write3res, xdr_create3res, xdr_mkdir3res}
use unfs2go.Xdr.LinkRes.{
  xdr_symlink3res, xdr_mknod3res, xdr_remove3res, xdr_rmdir3res, xdr_rename3res, xdr_link3res,
}
use unfs2go.Xdr.FsRes.{xdr_fsstat3res, xdr_fsinfo3res, xdr_pathconf3res, xdr_commit3res}
use unfs2go.Xdr.DirRes.{xdr_readdir3res, xdr_readdirplus3res}
use unfs2go.Daemon.Proc.{NfsProc, Args, Res, proc_null, getattr, setattr, lookup}
use unfs2go.Daemon.Proc.{access, readlink, read, write, create, mkdir, symlink}
use unfs2go.Daemon.Proc.{mknod, remove, rmdir, rename, link, readdir, readdirplus}
use unfs2go.Daemon.Proc.{fsstat, fsinfo, pathconf, commit}

module _ (rpc : Rpc) (depth : ℕ) where
  -- `_xdr_argument`
  unfoldable pub xdr_argument : (p : NfsProc) → Filter (Args p)
  xdr_argument proc_null = done
  xdr_argument getattr = xdr_getattr3args rpc
  xdr_argument setattr = xdr_setattr3args rpc
  xdr_argument lookup = xdr_lookup3args rpc
  xdr_argument access = xdr_access3args rpc
  xdr_argument readlink = xdr_readlink3args rpc
  xdr_argument read = xdr_read3args rpc
  xdr_argument write = xdr_write3args rpc
  xdr_argument create = xdr_create3args rpc
  xdr_argument mkdir = xdr_mkdir3args rpc
  xdr_argument symlink = xdr_symlink3args rpc
  xdr_argument mknod = xdr_mknod3args rpc
  xdr_argument remove = xdr_remove3args rpc
  xdr_argument rmdir = xdr_rmdir3args rpc
  xdr_argument rename = xdr_rename3args rpc
  xdr_argument link = xdr_link3args rpc
  xdr_argument readdir = xdr_readdir3args rpc
  xdr_argument readdirplus = xdr_readdirplus3args rpc
  xdr_argument fsstat = xdr_fsstat3args rpc
  xdr_argument fsinfo = xdr_fsinfo3args rpc
  xdr_argument pathconf = xdr_pathconf3args rpc
  xdr_argument commit = xdr_commit3args rpc

  -- `_xdr_result`
  unfoldable pub xdr_result : (p : NfsProc) → Filter (Res p)
  xdr_result proc_null = done
  xdr_result getattr = xdr_getattr3res rpc
  xdr_result setattr = xdr_setattr3res rpc
  xdr_result lookup = xdr_lookup3res rpc
  xdr_result access = xdr_access3res rpc
  xdr_result readlink = xdr_readlink3res rpc
  xdr_result read = xdr_read3res rpc
  xdr_result write = xdr_write3res rpc
  xdr_result create = xdr_create3res rpc
  xdr_result mkdir = xdr_mkdir3res rpc
  xdr_result symlink = xdr_symlink3res rpc
  xdr_result mknod = xdr_mknod3res rpc
  xdr_result remove = xdr_remove3res rpc
  xdr_result rmdir = xdr_rmdir3res rpc
  xdr_result rename = xdr_rename3res rpc
  xdr_result link = xdr_link3res rpc
  xdr_result readdir = xdr_readdir3res rpc depth
  xdr_result readdirplus = xdr_readdirplus3res rpc depth
  xdr_result fsstat = xdr_fsstat3res rpc
  xdr_result fsinfo = xdr_fsinfo3res rpc
  xdr_result pathconf = xdr_pathconf3res rpc
  xdr_result commit = xdr_commit3res rpc
