-- ===== src/Xdr/LinkRes.antt =====
-- unfs3/xdr.c: the results of the procedures, SYMLINK to LINK.
use unfs2go.Common.{◌==◌, if◌then◌else◌}
use unfs2go.Xdr.Stream.{Filter, field, ◌>=>◌, switch}
use unfs2go.Types.Constants.{nfs3_ok}
use unfs2go.Types.LinkRes.{
  Symlink3ResOk, Symlink3ResFail, Symlink3Res, Mknod3ResOk, Mknod3ResFail, Mknod3Res, Remove3ResOk,
}
use unfs2go.Types.LinkRes.{
  Remove3ResFail, Remove3Res, Rmdir3ResOk, Rmdir3ResFail, Rmdir3Res, Rename3ResOk, Rename3ResFail,
}
use unfs2go.Types.LinkRes.{
  Rename3Res, Link3ResOk, Link3ResFail, Link3Res, symlink3resfail_lens, mknod3resfail_lens,
  remove3resfail_lens,
}
use unfs2go.Types.LinkRes.{rmdir3resfail_lens, rename3resfail_lens, link3resfail_lens}
use unfs2go.Xdr.Rpc.{Rpc}
use unfs2go.Xdr.Basic.{xdr_nfsstat3}
use unfs2go.Xdr.Attr.{xdr_post_op_attr, xdr_wcc_data, xdr_post_op_fh3}

module _ (rpc : Rpc) where
  unfoldable pub xdr_symlink3resok : Filter Symlink3ResOk
  xdr_symlink3resok =
      field (λ o. o.obj) (λ v o. record o { obj = v }) (xdr_post_op_fh3 rpc)
      >=> field (λ o. o.obj_attributes) (λ v o. record o { obj_attributes = v })
          (xdr_post_op_attr rpc)
      >=> field (λ o. o.dir_wcc) (λ v o. record o { dir_wcc = v }) (xdr_wcc_data rpc)

  unfoldable pub xdr_symlink3resfail : Filter Symlink3ResFail
  xdr_symlink3resfail = field (λ o. o.dir_wcc) (λ v o. record o { dir_wcc = v }) (xdr_wcc_data rpc)

  unfoldable pub xdr_symlink3res : Filter Symlink3Res
  xdr_symlink3res =
      field (λ o. o.status) (λ v o. record o { status = v }) (xdr_nfsstat3 rpc)
      >=> switch (λ o. o.status)
          λ d.
            if d == nfs3_ok
            then field (λ o. o.resok) (λ v o. record o { resok = v }) xdr_symlink3resok
            else field symlink3resfail_lens.0 symlink3resfail_lens.1 xdr_symlink3resfail

  unfoldable pub xdr_mknod3resok : Filter Mknod3ResOk
  xdr_mknod3resok =
      field (λ o. o.obj) (λ v o. record o { obj = v }) (xdr_post_op_fh3 rpc)
      >=> field (λ o. o.obj_attributes) (λ v o. record o { obj_attributes = v })
          (xdr_post_op_attr rpc)
      >=> field (λ o. o.dir_wcc) (λ v o. record o { dir_wcc = v }) (xdr_wcc_data rpc)

  unfoldable pub xdr_mknod3resfail : Filter Mknod3ResFail
  xdr_mknod3resfail = field (λ o. o.dir_wcc) (λ v o. record o { dir_wcc = v }) (xdr_wcc_data rpc)

  unfoldable pub xdr_mknod3res : Filter Mknod3Res
  xdr_mknod3res =
      field (λ o. o.status) (λ v o. record o { status = v }) (xdr_nfsstat3 rpc)
      >=> switch (λ o. o.status)
          λ d.
            if d == nfs3_ok
            then field (λ o. o.resok) (λ v o. record o { resok = v }) xdr_mknod3resok
            else field mknod3resfail_lens.0 mknod3resfail_lens.1 xdr_mknod3resfail

  unfoldable pub xdr_remove3resok : Filter Remove3ResOk
  xdr_remove3resok = field (λ o. o.dir_wcc) (λ v o. record o { dir_wcc = v }) (xdr_wcc_data rpc)

  unfoldable pub xdr_remove3resfail : Filter Remove3ResFail
  xdr_remove3resfail = field (λ o. o.dir_wcc) (λ v o. record o { dir_wcc = v }) (xdr_wcc_data rpc)

  unfoldable pub xdr_remove3res : Filter Remove3Res
  xdr_remove3res =
      field (λ o. o.status) (λ v o. record o { status = v }) (xdr_nfsstat3 rpc)
      >=> switch (λ o. o.status)
          λ d.
            if d == nfs3_ok
            then field (λ o. o.resok) (λ v o. record o { resok = v }) xdr_remove3resok
            else field remove3resfail_lens.0 remove3resfail_lens.1 xdr_remove3resfail

  unfoldable pub xdr_rmdir3resok : Filter Rmdir3ResOk
  xdr_rmdir3resok = field (λ o. o.dir_wcc) (λ v o. record o { dir_wcc = v }) (xdr_wcc_data rpc)

  unfoldable pub xdr_rmdir3resfail : Filter Rmdir3ResFail
  xdr_rmdir3resfail = field (λ o. o.dir_wcc) (λ v o. record o { dir_wcc = v }) (xdr_wcc_data rpc)

  unfoldable pub xdr_rmdir3res : Filter Rmdir3Res
  xdr_rmdir3res =
      field (λ o. o.status) (λ v o. record o { status = v }) (xdr_nfsstat3 rpc)
      >=> switch (λ o. o.status)
          λ d.
            if d == nfs3_ok
            then field (λ o. o.resok) (λ v o. record o { resok = v }) xdr_rmdir3resok
            else field rmdir3resfail_lens.0 rmdir3resfail_lens.1 xdr_rmdir3resfail

  unfoldable pub xdr_rename3resok : Filter Rename3ResOk
  xdr_rename3resok =
      field (λ o. o.fromdir_wcc) (λ v o. record o { fromdir_wcc = v }) (xdr_wcc_data rpc)
      >=> field (λ o. o.todir_wcc) (λ v o. record o { todir_wcc = v }) (xdr_wcc_data rpc)

  unfoldable pub xdr_rename3resfail : Filter Rename3ResFail
  xdr_rename3resfail =
      field (λ o. o.fromdir_wcc) (λ v o. record o { fromdir_wcc = v }) (xdr_wcc_data rpc)
      >=> field (λ o. o.todir_wcc) (λ v o. record o { todir_wcc = v }) (xdr_wcc_data rpc)

  unfoldable pub xdr_rename3res : Filter Rename3Res
  xdr_rename3res =
      field (λ o. o.status) (λ v o. record o { status = v }) (xdr_nfsstat3 rpc)
      >=> switch (λ o. o.status)
          λ d.
            if d == nfs3_ok
            then field (λ o. o.resok) (λ v o. record o { resok = v }) xdr_rename3resok
            else field rename3resfail_lens.0 rename3resfail_lens.1 xdr_rename3resfail

  unfoldable pub xdr_link3resok : Filter Link3ResOk
  xdr_link3resok =
      field (λ o. o.file_attributes) (λ v o. record o { file_attributes = v })
        (xdr_post_op_attr rpc)
      >=> field (λ o. o.linkdir_wcc) (λ v o. record o { linkdir_wcc = v }) (xdr_wcc_data rpc)

  unfoldable pub xdr_link3resfail : Filter Link3ResFail
  xdr_link3resfail =
      field (λ o. o.file_attributes) (λ v o. record o { file_attributes = v })
        (xdr_post_op_attr rpc)
      >=> field (λ o. o.linkdir_wcc) (λ v o. record o { linkdir_wcc = v }) (xdr_wcc_data rpc)

  unfoldable pub xdr_link3res : Filter Link3Res
  xdr_link3res =
      field (λ o. o.status) (λ v o. record o { status = v }) (xdr_nfsstat3 rpc)
      >=> switch (λ o. o.status)
          λ d.
            if d == nfs3_ok
            then field (λ o. o.resok) (λ v o. record o { resok = v }) xdr_link3resok
            else field link3resfail_lens.0 link3resfail_lens.1 xdr_link3resfail
