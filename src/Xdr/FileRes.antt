-- ===== src/Xdr/FileRes.antt =====
-- unfs3/xdr.c: the results of the procedures, READ to MKDIR.
use unfs2go.Common.{◌==◌, if◌then◌else◌}
use unfs2go.Xdr.Stream.{Filter, field, ◌>=>◌, switch}
use unfs2go.Types.Constants.{nfs3_ok, u32_max}
use unfs2go.Types.FileRes.{
  Read3ResOk, Read3ResFail, Read3Res, Write3ResOk, Write3ResFail, Write3Res, Create3ResOk,
}
use unfs2go.Types.FileRes.{
  Create3ResFail, Create3Res, Mkdir3ResOk, Mkdir3ResFail, Mkdir3Res, read3resfail_lens,
  write3resfail_lens,
}
use unfs2go.Types.FileRes.{create3resfail_lens, mkdir3resfail_lens}
use unfs2go.Xdr.Rpc.{Rpc}
use unfs2go.Xdr.Basic.{xdr_count3, xdr_nfsstat3, xdr_stable_how, xdr_writeverf3}
use unfs2go.Xdr.Attr.{xdr_post_op_attr, xdr_wcc_data, xdr_post_op_fh3}

module _ (rpc : Rpc) where
  unfoldable pub xdr_read3resok : Filter Read3ResOk
  xdr_read3resok =
      field (λ o. o.file_attributes) (λ v o. record o { file_attributes = v })
        (xdr_post_op_attr rpc)
      >=> field (λ o. o.count) (λ v o. record o { count = v }) (xdr_count3 rpc)
      >=> field (λ o. o.eof) (λ v o. record o { eof = v }) (rpc.xdr_bool)
      >=> field (λ o. o.data_buf) (λ v o. record o { data_buf = v }) (rpc.xdr_bytes u32_max)

  unfoldable pub xdr_read3resfail : Filter Read3ResFail
  xdr_read3resfail =
      field (λ o. o.file_attributes) (λ v o. record o { file_attributes = v })
        (xdr_post_op_attr rpc)

  unfoldable pub xdr_read3res : Filter Read3Res
  xdr_read3res =
      field (λ o. o.status) (λ v o. record o { status = v }) (xdr_nfsstat3 rpc)
      >=> switch (λ o. o.status)
          λ d.
            if d == nfs3_ok
            then field (λ o. o.resok) (λ v o. record o { resok = v }) xdr_read3resok
            else field read3resfail_lens.0 read3resfail_lens.1 xdr_read3resfail

  unfoldable pub xdr_write3resok : Filter Write3ResOk
  xdr_write3resok =
      field (λ o. o.file_wcc) (λ v o. record o { file_wcc = v }) (xdr_wcc_data rpc)
      >=> field (λ o. o.count) (λ v o. record o { count = v }) (xdr_count3 rpc)
      >=> field (λ o. o.committed) (λ v o. record o { committed = v }) (xdr_stable_how rpc)
      >=> field (λ o. o.verf) (λ v o. record o { verf = v }) (xdr_writeverf3 rpc)

  unfoldable pub xdr_write3resfail : Filter Write3ResFail
  xdr_write3resfail = field (λ o. o.file_wcc) (λ v o. record o { file_wcc = v }) (xdr_wcc_data rpc)

  unfoldable pub xdr_write3res : Filter Write3Res
  xdr_write3res =
      field (λ o. o.status) (λ v o. record o { status = v }) (xdr_nfsstat3 rpc)
      >=> switch (λ o. o.status)
          λ d.
            if d == nfs3_ok
            then field (λ o. o.resok) (λ v o. record o { resok = v }) xdr_write3resok
            else field write3resfail_lens.0 write3resfail_lens.1 xdr_write3resfail

  unfoldable pub xdr_create3resok : Filter Create3ResOk
  xdr_create3resok =
      field (λ o. o.obj) (λ v o. record o { obj = v }) (xdr_post_op_fh3 rpc)
      >=> field (λ o. o.obj_attributes) (λ v o. record o { obj_attributes = v })
          (xdr_post_op_attr rpc)
      >=> field (λ o. o.dir_wcc) (λ v o. record o { dir_wcc = v }) (xdr_wcc_data rpc)

  unfoldable pub xdr_create3resfail : Filter Create3ResFail
  xdr_create3resfail = field (λ o. o.dir_wcc) (λ v o. record o { dir_wcc = v }) (xdr_wcc_data rpc)

  unfoldable pub xdr_create3res : Filter Create3Res
  xdr_create3res =
      field (λ o. o.status) (λ v o. record o { status = v }) (xdr_nfsstat3 rpc)
      >=> switch (λ o. o.status)
          λ d.
            if d == nfs3_ok
            then field (λ o. o.resok) (λ v o. record o { resok = v }) xdr_create3resok
            else field create3resfail_lens.0 create3resfail_lens.1 xdr_create3resfail

  unfoldable pub xdr_mkdir3resok : Filter Mkdir3ResOk
  xdr_mkdir3resok =
      field (λ o. o.obj) (λ v o. record o { obj = v }) (xdr_post_op_fh3 rpc)
      >=> field (λ o. o.obj_attributes) (λ v o. record o { obj_attributes = v })
          (xdr_post_op_attr rpc)
      >=> field (λ o. o.dir_wcc) (λ v o. record o { dir_wcc = v }) (xdr_wcc_data rpc)

  unfoldable pub xdr_mkdir3resfail : Filter Mkdir3ResFail
  xdr_mkdir3resfail = field (λ o. o.dir_wcc) (λ v o. record o { dir_wcc = v }) (xdr_wcc_data rpc)

  unfoldable pub xdr_mkdir3res : Filter Mkdir3Res
  xdr_mkdir3res =
      field (λ o. o.status) (λ v o. record o { status = v }) (xdr_nfsstat3 rpc)
      >=> switch (λ o. o.status)
          λ d.
            if d == nfs3_ok
            then field (λ o. o.resok) (λ v o. record o { resok = v }) xdr_mkdir3resok
            else field mkdir3resfail_lens.0 mkdir3resfail_lens.1 xdr_mkdir3resfail
