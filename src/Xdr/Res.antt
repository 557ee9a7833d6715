-- ===== src/Xdr/Res.antt =====
-- unfs3/xdr.c: the results of the procedures, GETATTR to READLINK.
use unfs2go.Common.{◌==◌, if◌then◌else◌}
use unfs2go.Xdr.Stream.{Filter, field, ◌>=>◌, switch, done}
use unfs2go.Types.Constants.{nfs3_ok}
use unfs2go.Types.Res.{
  Getattr3ResOk, Getattr3Res, Setattr3ResOk, Setattr3ResFail, Setattr3Res, Lookup3ResOk,
  Lookup3ResFail,
}
use unfs2go.Types.Res.{
  Lookup3Res, Access3ResOk, Access3ResFail, Access3Res, Readlink3ResOk, Readlink3ResFail,
  Readlink3Res,
}
use unfs2go.Types.Res.{
  setattr3resfail_lens, lookup3resfail_lens, access3resfail_lens, readlink3resfail_lens,
}
use unfs2go.Xdr.Rpc.{Rpc}
use unfs2go.Xdr.Basic.{xdr_uint32, xdr_nfsstat3, xdr_nfspath3}
use unfs2go.Xdr.Attr.{xdr_nfs_fh3, xdr_fattr3, xdr_post_op_attr, xdr_wcc_data}

module _ (rpc : Rpc) where
  unfoldable pub xdr_getattr3resok : Filter Getattr3ResOk
  xdr_getattr3resok =
      field (λ o. o.obj_attributes) (λ v o. record o { obj_attributes = v }) (xdr_fattr3 rpc)

  unfoldable pub xdr_getattr3res : Filter Getattr3Res
  xdr_getattr3res =
      field (λ o. o.status) (λ v o. record o { status = v }) (xdr_nfsstat3 rpc)
      >=> switch (λ o. o.status)
          λ d.
            if d == nfs3_ok
            then field (λ o. o.resok) (λ v o. record o { resok = v }) xdr_getattr3resok
            else done

  unfoldable pub xdr_setattr3resok : Filter Setattr3ResOk
  xdr_setattr3resok = field (λ o. o.obj_wcc) (λ v o. record o { obj_wcc = v }) (xdr_wcc_data rpc)

  unfoldable pub xdr_setattr3resfail : Filter Setattr3ResFail
  xdr_setattr3resfail = field (λ o. o.obj_wcc) (λ v o. record o { obj_wcc = v }) (xdr_wcc_data rpc)

  unfoldable pub xdr_setattr3res : Filter Setattr3Res
  xdr_setattr3res =
      field (λ o. o.status) (λ v o. record o { status = v }) (xdr_nfsstat3 rpc)
      >=> switch (λ o. o.status)
          λ d.
            if d == nfs3_ok
            then field (λ o. o.resok) (λ v o. record o { resok = v }) xdr_setattr3resok
            else field setattr3resfail_lens.0 setattr3resfail_lens.1 xdr_setattr3resfail

  unfoldable pub xdr_lookup3resok : Filter Lookup3ResOk
  xdr_lookup3resok =
      field (λ o. o.object) (λ v o. record o { object = v }) (xdr_nfs_fh3 rpc)
      >=> field (λ o. o.obj_attributes) (λ v o. record o { obj_attributes = v })
          (xdr_post_op_attr rpc)
      >=> field (λ o. o.dir_attributes) (λ v o. record o { dir_attributes = v })
          (xdr_post_op_attr rpc)

  unfoldable pub xdr_lookup3resfail : Filter Lookup3ResFail
  xdr_lookup3resfail =
      field (λ o. o.dir_attributes) (λ v o. record o { dir_attributes = v }) (xdr_post_op_attr rpc)

  unfoldable pub xdr_lookup3res : Filter Lookup3Res
  xdr_lookup3res =
      field (λ o. o.status) (λ v o. record o { status = v }) (xdr_nfsstat3 rpc)
      >=> switch (λ o. o.status)
          λ d.
            if d == nfs3_ok
            then field (λ o. o.resok) (λ v o. record o { resok = v }) xdr_lookup3resok
            else field lookup3resfail_lens.0 lookup3resfail_lens.1 xdr_lookup3resfail

  unfoldable pub xdr_access3resok : Filter Access3ResOk
  xdr_access3resok =
      field (λ o. o.obj_attributes) (λ v o. record o { obj_attributes = v }) (xdr_post_op_attr rpc)
      >=> field (λ o. o.access) (λ v o. record o { access = v }) (xdr_uint32 rpc)

  unfoldable pub xdr_access3resfail : Filter Access3ResFail
  xdr_access3resfail =
      field (λ o. o.obj_attributes) (λ v o. record o { obj_attributes = v }) (xdr_post_op_attr rpc)

  unfoldable pub xdr_access3res : Filter Access3Res
  xdr_access3res =
      field (λ o. o.status) (λ v o. record o { status = v }) (xdr_nfsstat3 rpc)
      >=> switch (λ o. o.status)
          λ d.
            if d == nfs3_ok
            then field (λ o. o.resok) (λ v o. record o { resok = v }) xdr_access3resok
            else field access3resfail_lens.0 access3resfail_lens.1 xdr_access3resfail

  unfoldable pub xdr_readlink3resok : Filter Readlink3ResOk
  xdr_readlink3resok =
      field (λ o. o.symlink_attributes) (λ v o. record o { symlink_attributes = v })
        (xdr_post_op_attr rpc)
      >=> field (λ o. o.data_path) (λ v o. record o { data_path = v }) (xdr_nfspath3 rpc)

  unfoldable pub xdr_readlink3resfail : Filter Readlink3ResFail
  xdr_readlink3resfail =
      field (λ o. o.symlink_attributes) (λ v o. record o { symlink_attributes = v })
        (xdr_post_op_attr rpc)

  unfoldable pub xdr_readlink3res : Filter Readlink3Res
  xdr_readlink3res =
      field (λ o. o.status) (λ v o. record o { status = v }) (xdr_nfsstat3 rpc)
      >=> switch (λ o. o.status)
          λ d.
            if d == nfs3_ok
            then field (λ o. o.resok) (λ v o. record o { resok = v }) xdr_readlink3resok
            else field readlink3resfail_lens.0 readlink3resfail_lens.1 xdr_readlink3resfail
