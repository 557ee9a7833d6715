-- ===== src/Daemon/Laws/Routines.antt =====
-- The XDR routines of every procedure against its wire format.
use unfs2go.Common.{ℕ}
use unfs2go.Xdr.Rpc.{Rpc, IsRpc}
use unfs2go.Xdr.Codes.{Codes, done-Codes}
use unfs2go.Daemon.Routines.{xdr_argument, xdr_result}
use unfs2go.Daemon.Format.{IsArgs, wire_args, decoded_args, IsRes, wire_res, decoded_res}
use unfs2go.Xdr.Laws.Args.{
  xdr_getattr3args-Codes, xdr_setattr3args-Codes, xdr_lookup3args-Codes, xdr_access3args-Codes,
  xdr_readlink3args-Codes, xdr_read3args-Codes, xdr_write3args-Codes,
}
use unfs2go.Xdr.Laws.Args.{xdr_create3args-Codes, xdr_mkdir3args-Codes, xdr_symlink3args-Codes}
use unfs2go.Xdr.Laws.DirArgs.{
  xdr_mknod3args-Codes, xdr_remove3args-Codes, xdr_rmdir3args-Codes, xdr_rename3args-Codes,
  xdr_link3args-Codes, xdr_readdir3args-Codes, xdr_readdirplus3args-Codes,
}
use unfs2go.Xdr.Laws.DirArgs.{
  xdr_fsstat3args-Codes, xdr_fsinfo3args-Codes, xdr_pathconf3args-Codes, xdr_commit3args-Codes,
}
use unfs2go.Xdr.Laws.Res.{
  xdr_getattr3res-Codes, xdr_setattr3res-Codes, xdr_lookup3res-Codes, xdr_access3res-Codes,
  xdr_readlink3res-Codes,
}
use unfs2go.Xdr.Laws.FileRes.{
  xdr_read3res-Codes, xdr_write3res-Codes, xdr_create3res-Codes, xdr_mkdir3res-Codes,
}
use unfs2go.Xdr.Laws.LinkRes.{
  xdr_symlink3res-Codes, xdr_mknod3res-Codes, xdr_remove3res-Codes, xdr_rmdir3res-Codes,
  xdr_rename3res-Codes, xdr_link3res-Codes,
}
use unfs2go.Xdr.Laws.FsRes.{
  xdr_fsstat3res-Codes, xdr_fsinfo3res-Codes, xdr_pathconf3res-Codes, xdr_commit3res-Codes,
}
use unfs2go.Xdr.Laws.DirRes.{xdr_readdir3res-Codes, xdr_readdirplus3res-Codes}
use unfs2go.Daemon.Proc.{NfsProc, proc_null, getattr, setattr, lookup, access, readlink}
use unfs2go.Daemon.Proc.{read, write, create, mkdir, symlink, mknod, remove}
use unfs2go.Daemon.Proc.{rmdir, rename, link, readdir, readdirplus, fsstat, fsinfo}
use unfs2go.Daemon.Proc.{pathconf, commit}

module _ (rpc : Rpc) (L : IsRpc rpc) (depth : ℕ) where
  pub xdr_argument-Codes :
      (p : NfsProc) → Codes (xdr_argument rpc depth p) (IsArgs p) (wire_args p) (decoded_args p)
  unfolding xdr_argument
  xdr_argument-Codes proc_null = done-Codes
  xdr_argument-Codes getattr = xdr_getattr3args-Codes rpc L
  xdr_argument-Codes setattr = xdr_setattr3args-Codes rpc L
  xdr_argument-Codes lookup = xdr_lookup3args-Codes rpc L
  xdr_argument-Codes access = xdr_access3args-Codes rpc L
  xdr_argument-Codes readlink = xdr_readlink3args-Codes rpc L
  xdr_argument-Codes read = xdr_read3args-Codes rpc L
  xdr_argument-Codes write = xdr_write3args-Codes rpc L
  xdr_argument-Codes create = xdr_create3args-Codes rpc L
  xdr_argument-Codes mkdir = xdr_mkdir3args-Codes rpc L
  xdr_argument-Codes symlink = xdr_symlink3args-Codes rpc L
  xdr_argument-Codes mknod = xdr_mknod3args-Codes rpc L
  xdr_argument-Codes remove = xdr_remove3args-Codes rpc L
  xdr_argument-Codes rmdir = xdr_rmdir3args-Codes rpc L
  xdr_argument-Codes rename = xdr_rename3args-Codes rpc L
  xdr_argument-Codes link = xdr_link3args-Codes rpc L
  xdr_argument-Codes readdir = xdr_readdir3args-Codes rpc L
  xdr_argument-Codes readdirplus = xdr_readdirplus3args-Codes rpc L
  xdr_argument-Codes fsstat = xdr_fsstat3args-Codes rpc L
  xdr_argument-Codes fsinfo = xdr_fsinfo3args-Codes rpc L
  xdr_argument-Codes pathconf = xdr_pathconf3args-Codes rpc L
  xdr_argument-Codes commit = xdr_commit3args-Codes rpc L

  pub xdr_result-Codes :
      (p : NfsProc) → Codes (xdr_result rpc depth p) (IsRes depth p) (wire_res p) (decoded_res p)
  unfolding xdr_result
  xdr_result-Codes proc_null = done-Codes
  xdr_result-Codes getattr = xdr_getattr3res-Codes rpc L
  xdr_result-Codes setattr = xdr_setattr3res-Codes rpc L
  xdr_result-Codes lookup = xdr_lookup3res-Codes rpc L
  xdr_result-Codes access = xdr_access3res-Codes rpc L
  xdr_result-Codes readlink = xdr_readlink3res-Codes rpc L
  xdr_result-Codes read = xdr_read3res-Codes rpc L
  xdr_result-Codes write = xdr_write3res-Codes rpc L
  xdr_result-Codes create = xdr_create3res-Codes rpc L
  xdr_result-Codes mkdir = xdr_mkdir3res-Codes rpc L
  xdr_result-Codes symlink = xdr_symlink3res-Codes rpc L
  xdr_result-Codes mknod = xdr_mknod3res-Codes rpc L
  xdr_result-Codes remove = xdr_remove3res-Codes rpc L
  xdr_result-Codes rmdir = xdr_rmdir3res-Codes rpc L
  xdr_result-Codes rename = xdr_rename3res-Codes rpc L
  xdr_result-Codes link = xdr_link3res-Codes rpc L
  xdr_result-Codes readdir = xdr_readdir3res-Codes rpc L depth
  xdr_result-Codes readdirplus = xdr_readdirplus3res-Codes rpc L depth
  xdr_result-Codes fsstat = xdr_fsstat3res-Codes rpc L
  xdr_result-Codes fsinfo = xdr_fsinfo3res-Codes rpc L
  xdr_result-Codes pathconf = xdr_pathconf3res-Codes rpc L
  xdr_result-Codes commit = xdr_commit3res-Codes rpc L
