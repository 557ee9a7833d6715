-- ===== src/Xdr/DirArgs.antt =====
-- unfs3/xdr.c: the arguments of the procedures, MKNOD to COMMIT.
use unfs2go.Common.{◌==◌, if◌then◌else◌}
use unfs2go.Xdr.Stream.{Filter, field, ◌>=>◌, switch, done}
use unfs2go.Types.Constants.{nf3blk, nf3chr, nf3sock, nf3fifo}
use unfs2go.Types.DirArgs.{
  Devicedata3, Mknoddata3, Mknod3Args, Remove3Args, Rmdir3Args, Rename3Args, Link3Args,
}
use unfs2go.Types.DirArgs.{
  Readdir3Args, Readdirplus3Args, Fsstat3Args, Fsinfo3Args, Pathconf3Args, Commit3Args,
  pipe_attributes,
}
use unfs2go.Xdr.Rpc.{Rpc}
use unfs2go.Xdr.Basic.{xdr_count3, xdr_cookie3, xdr_offset3, xdr_ftype3, xdr_cookieverf3}
use unfs2go.Xdr.Attr.{xdr_specdata3, xdr_nfs_fh3}
use unfs2go.Xdr.Sattr.{xdr_sattr3, xdr_diropargs3}

module _ (rpc : Rpc) where
  unfoldable pub xdr_devicedata3 : Filter Devicedata3
  xdr_devicedata3 =
      field (λ o. o.dev_attributes) (λ v o. record o { dev_attributes = v }) (xdr_sattr3 rpc)
      >=> field (λ o. o.spec) (λ v o. record o { spec = v }) (xdr_specdata3 rpc)

  unfoldable pub xdr_mknoddata3 : Filter Mknoddata3
  xdr_mknoddata3 =
      field (λ o. o.type) (λ v o. record o { type = v }) (xdr_ftype3 rpc)
      >=> switch (λ o. o.type)
          λ d.
            if d == nf3chr
            then field (λ o. o.device) (λ v o. record o { device = v }) xdr_devicedata3
            else if d == nf3blk
            then field (λ o. o.device) (λ v o. record o { device = v }) xdr_devicedata3
            else if d == nf3sock
            then field pipe_attributes.0 pipe_attributes.1 (xdr_sattr3 rpc)
            else if d == nf3fifo
            then field pipe_attributes.0 pipe_attributes.1 (xdr_sattr3 rpc)
            else done

  unfoldable pub xdr_mknod3args : Filter Mknod3Args
  xdr_mknod3args =
      field (λ o. o.where_args) (λ v o. record o { where_args = v }) (xdr_diropargs3 rpc)
      >=> field (λ o. o.what) (λ v o. record o { what = v }) xdr_mknoddata3

  unfoldable pub xdr_remove3args : Filter Remove3Args
  xdr_remove3args = field (λ o. o.object) (λ v o. record o { object = v }) (xdr_diropargs3 rpc)

  unfoldable pub xdr_rmdir3args : Filter Rmdir3Args
  xdr_rmdir3args = field (λ o. o.object) (λ v o. record o { object = v }) (xdr_diropargs3 rpc)

  unfoldable pub xdr_rename3args : Filter Rename3Args
  xdr_rename3args =
      field (λ o. o.from) (λ v o. record o { from = v }) (xdr_diropargs3 rpc)
      >=> field (λ o. o.to) (λ v o. record o { to = v }) (xdr_diropargs3 rpc)

  unfoldable pub xdr_link3args : Filter Link3Args
  xdr_link3args =
      field (λ o. o.file) (λ v o. record o { file = v }) (xdr_nfs_fh3 rpc)
      >=> field (λ o. o.link) (λ v o. record o { link = v }) (xdr_diropargs3 rpc)

  unfoldable pub xdr_readdir3args : Filter Readdir3Args
  xdr_readdir3args =
      field (λ o. o.dir) (λ v o. record o { dir = v }) (xdr_nfs_fh3 rpc)
      >=> field (λ o. o.cookie) (λ v o. record o { cookie = v }) (xdr_cookie3 rpc)
      >=> field (λ o. o.cookieverf) (λ v o. record o { cookieverf = v }) (xdr_cookieverf3 rpc)
      >=> field (λ o. o.count) (λ v o. record o { count = v }) (xdr_count3 rpc)

  unfoldable pub xdr_readdirplus3args : Filter Readdirplus3Args
  xdr_readdirplus3args =
      field (λ o. o.dir) (λ v o. record o { dir = v }) (xdr_nfs_fh3 rpc)
      >=> field (λ o. o.cookie) (λ v o. record o { cookie = v }) (xdr_cookie3 rpc)
      >=> field (λ o. o.cookieverf) (λ v o. record o { cookieverf = v }) (xdr_cookieverf3 rpc)
      >=> field (λ o. o.dircount) (λ v o. record o { dircount = v }) (xdr_count3 rpc)
      >=> field (λ o. o.maxcount) (λ v o. record o { maxcount = v }) (xdr_count3 rpc)

  unfoldable pub xdr_fsstat3args : Filter Fsstat3Args
  xdr_fsstat3args = field (λ o. o.fsroot) (λ v o. record o { fsroot = v }) (xdr_nfs_fh3 rpc)

  unfoldable pub xdr_fsinfo3args : Filter Fsinfo3Args
  xdr_fsinfo3args = field (λ o. o.fsroot) (λ v o. record o { fsroot = v }) (xdr_nfs_fh3 rpc)

  unfoldable pub xdr_pathconf3args : Filter Pathconf3Args
  xdr_pathconf3args = field (λ o. o.object) (λ v o. record o { object = v }) (xdr_nfs_fh3 rpc)

  unfoldable pub xdr_commit3args : Filter Commit3Args
  xdr_commit3args =
      field (λ o. o.file) (λ v o. record o { file = v }) (xdr_nfs_fh3 rpc)
      >=> field (λ o. o.offset) (λ v o. record o { offset = v }) (xdr_offset3 rpc)
      >=> field (λ o. o.count) (λ v o. record o { count = v }) (xdr_count3 rpc)
