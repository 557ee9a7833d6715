-- ===== src/Xdr/Attr.antt =====
-- unfs3/xdr.c: attributes and handles.
use unfs2go.Common.{◌==◌, if◌then◌else◌}
use unfs2go.Xdr.Stream.{Filter, field, ◌>=>◌, switch, done, fail}
use unfs2go.Types.Constants.{bool_true, bool_false, nfs3_fhsize}
use unfs2go.Types.Attr.{Specdata3, NfsFh3, Nfstime3, Fattr3, PostOpAttr, WccAttr, PreOpAttr}
use unfs2go.Types.Attr.{WccData, PostOpFh3}
use unfs2go.Xdr.Rpc.{Rpc}
use unfs2go.Xdr.Basic.{
  xdr_uint32, xdr_uid3, xdr_gid3, xdr_mode3, xdr_uint64, xdr_fileid3, xdr_size3,
}
use unfs2go.Xdr.Basic.{xdr_ftype3}

module _ (rpc : Rpc) where
  unfoldable pub xdr_specdata3 : Filter Specdata3
  xdr_specdata3 =
      field (λ o. o.specdata1) (λ v o. record o { specdata1 = v }) (xdr_uint32 rpc)
      >=> field (λ o. o.specdata2) (λ v o. record o { specdata2 = v }) (xdr_uint32 rpc)

  unfoldable pub xdr_nfs_fh3 : Filter NfsFh3
  xdr_nfs_fh3 =
      field (λ o. o.data_buf) (λ v o. record o { data_buf = v }) (rpc.xdr_bytes nfs3_fhsize)

  unfoldable pub xdr_nfstime3 : Filter Nfstime3
  xdr_nfstime3 =
      field (λ o. o.seconds) (λ v o. record o { seconds = v }) (xdr_uint32 rpc)
      >=> field (λ o. o.nseconds) (λ v o. record o { nseconds = v }) (xdr_uint32 rpc)

  unfoldable pub xdr_fattr3 : Filter Fattr3
  xdr_fattr3 =
      field (λ o. o.type) (λ v o. record o { type = v }) (xdr_ftype3 rpc)
      >=> field (λ o. o.mode) (λ v o. record o { mode = v }) (xdr_mode3 rpc)
      >=> field (λ o. o.nlink) (λ v o. record o { nlink = v }) (xdr_uint32 rpc)
      >=> field (λ o. o.uid) (λ v o. record o { uid = v }) (xdr_uid3 rpc)
      >=> field (λ o. o.gid) (λ v o. record o { gid = v }) (xdr_gid3 rpc)
      >=> field (λ o. o.size) (λ v o. record o { size = v }) (xdr_size3 rpc)
      >=> field (λ o. o.used) (λ v o. record o { used = v }) (xdr_size3 rpc)
      >=> field (λ o. o.rdev) (λ v o. record o { rdev = v }) xdr_specdata3
      >=> field (λ o. o.fsid) (λ v o. record o { fsid = v }) (xdr_uint64 rpc)
      >=> field (λ o. o.fileid) (λ v o. record o { fileid = v }) (xdr_fileid3 rpc)
      >=> field (λ o. o.atime) (λ v o. record o { atime = v }) xdr_nfstime3
      >=> field (λ o. o.mtime) (λ v o. record o { mtime = v }) xdr_nfstime3
      >=> field (λ o. o.ctime) (λ v o. record o { ctime = v }) xdr_nfstime3

  unfoldable pub xdr_post_op_attr : Filter PostOpAttr
  xdr_post_op_attr =
      field (λ o. o.attributes_follow) (λ v o. record o { attributes_follow = v }) (rpc.xdr_bool)
      >=> switch (λ o. o.attributes_follow)
          λ d.
            if d == bool_true
            then field (λ o. o.attributes) (λ v o. record o { attributes = v }) xdr_fattr3
            else if d == bool_false
            then done
            else fail

  unfoldable pub xdr_wcc_attr : Filter WccAttr
  xdr_wcc_attr =
      field (λ o. o.size) (λ v o. record o { size = v }) (xdr_size3 rpc)
      >=> field (λ o. o.mtime) (λ v o. record o { mtime = v }) xdr_nfstime3
      >=> field (λ o. o.ctime) (λ v o. record o { ctime = v }) xdr_nfstime3

  unfoldable pub xdr_pre_op_attr : Filter PreOpAttr
  xdr_pre_op_attr =
      field (λ o. o.attributes_follow) (λ v o. record o { attributes_follow = v }) (rpc.xdr_bool)
      >=> switch (λ o. o.attributes_follow)
          λ d.
            if d == bool_true
            then field (λ o. o.attributes) (λ v o. record o { attributes = v }) xdr_wcc_attr
            else if d == bool_false
            then done
            else fail

  unfoldable pub xdr_wcc_data : Filter WccData
  xdr_wcc_data =
      field (λ o. o.before) (λ v o. record o { before = v }) xdr_pre_op_attr
      >=> field (λ o. o.after) (λ v o. record o { after = v }) xdr_post_op_attr

  unfoldable pub xdr_post_op_fh3 : Filter PostOpFh3
  xdr_post_op_fh3 =
      field (λ o. o.handle_follows) (λ v o. record o { handle_follows = v }) (rpc.xdr_bool)
      >=> switch (λ o. o.handle_follows)
          λ d.
            if d == bool_true
            then field (λ o. o.handle) (λ v o. record o { handle = v }) xdr_nfs_fh3
            else if d == bool_false
            then done
            else fail
