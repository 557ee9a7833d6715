-- ===== src/Xdr/FsRes.antt =====
-- unfs3/xdr.c: the results of the procedures, FSSTAT to COMMIT.
use unfs2go.Common.{◌==◌, if◌then◌else◌}
use unfs2go.Xdr.Stream.{Filter, field, ◌>=>◌, switch}
use unfs2go.Types.Constants.{nfs3_ok}
use unfs2go.Types.FsRes.{
  Fsstat3ResOk, Fsstat3ResFail, Fsstat3Res, Fsinfo3ResOk, Fsinfo3ResFail, Fsinfo3Res,
  Pathconf3ResOk,
}
use unfs2go.Types.FsRes.{
  Pathconf3ResFail, Pathconf3Res, Commit3ResOk, Commit3ResFail, Commit3Res, fsstat3resfail_lens,
  fsinfo3resfail_lens,
}
use unfs2go.Types.FsRes.{pathconf3resfail_lens, commit3resfail_lens}
use unfs2go.Xdr.Rpc.{Rpc}
use unfs2go.Xdr.Basic.{xdr_uint32, xdr_size3, xdr_nfsstat3, xdr_writeverf3}
use unfs2go.Xdr.Attr.{xdr_nfstime3, xdr_post_op_attr, xdr_wcc_data}

module _ (rpc : Rpc) where
  unfoldable pub xdr_fsstat3resok : Filter Fsstat3ResOk
  xdr_fsstat3resok =
      field (λ o. o.obj_attributes) (λ v o. record o { obj_attributes = v }) (xdr_post_op_attr rpc)
      >=> field (λ o. o.tbytes) (λ v o. record o { tbytes = v }) (xdr_size3 rpc)
      >=> field (λ o. o.fbytes) (λ v o. record o { fbytes = v }) (xdr_size3 rpc)
      >=> field (λ o. o.abytes) (λ v o. record o { abytes = v }) (xdr_size3 rpc)
      >=> field (λ o. o.tfiles) (λ v o. record o { tfiles = v }) (xdr_size3 rpc)
      >=> field (λ o. o.ffiles) (λ v o. record o { ffiles = v }) (xdr_size3 rpc)
      >=> field (λ o. o.afiles) (λ v o. record o { afiles = v }) (xdr_size3 rpc)
      >=> field (λ o. o.invarsec) (λ v o. record o { invarsec = v }) (xdr_uint32 rpc)

  unfoldable pub xdr_fsstat3resfail : Filter Fsstat3ResFail
  xdr_fsstat3resfail =
      field (λ o. o.obj_attributes) (λ v o. record o { obj_attributes = v }) (xdr_post_op_attr rpc)

  unfoldable pub xdr_fsstat3res : Filter Fsstat3Res
  xdr_fsstat3res =
      field (λ o. o.status) (λ v o. record o { status = v }) (xdr_nfsstat3 rpc)
      >=> switch (λ o. o.status)
          λ d.
            if d == nfs3_ok
            then field (λ o. o.resok) (λ v o. record o { resok = v }) xdr_fsstat3resok
            else field fsstat3resfail_lens.0 fsstat3resfail_lens.1 xdr_fsstat3resfail

  unfoldable pub xdr_fsinfo3resok : Filter Fsinfo3ResOk
  xdr_fsinfo3resok =
      field (λ o. o.obj_attributes) (λ v o. record o { obj_attributes = v }) (xdr_post_op_attr rpc)
      >=> field (λ o. o.rtmax) (λ v o. record o { rtmax = v }) (xdr_uint32 rpc)
      >=> field (λ o. o.rtpref) (λ v o. record o { rtpref = v }) (xdr_uint32 rpc)
      >=> field (λ o. o.rtmult) (λ v o. record o { rtmult = v }) (xdr_uint32 rpc)
      >=> field (λ o. o.wtmax) (λ v o. record o { wtmax = v }) (xdr_uint32 rpc)
      >=> field (λ o. o.wtpref) (λ v o. record o { wtpref = v }) (xdr_uint32 rpc)
      >=> field (λ o. o.wtmult) (λ v o. record o { wtmult = v }) (xdr_uint32 rpc)
      >=> field (λ o. o.dtpref) (λ v o. record o { dtpref = v }) (xdr_uint32 rpc)
      >=> field (λ o. o.maxfilesize) (λ v o. record o { maxfilesize = v }) (xdr_size3 rpc)
      >=> field (λ o. o.time_delta) (λ v o. record o { time_delta = v }) (xdr_nfstime3 rpc)
      >=> field (λ o. o.properties) (λ v o. record o { properties = v }) (xdr_uint32 rpc)

  unfoldable pub xdr_fsinfo3resfail : Filter Fsinfo3ResFail
  xdr_fsinfo3resfail =
      field (λ o. o.obj_attributes) (λ v o. record o { obj_attributes = v }) (xdr_post_op_attr rpc)

  unfoldable pub xdr_fsinfo3res : Filter Fsinfo3Res
  xdr_fsinfo3res =
      field (λ o. o.status) (λ v o. record o { status = v }) (xdr_nfsstat3 rpc)
      >=> switch (λ o. o.status)
          λ d.
            if d == nfs3_ok
            then field (λ o. o.resok) (λ v o. record o { resok = v }) xdr_fsinfo3resok
            else field fsinfo3resfail_lens.0 fsinfo3resfail_lens.1 xdr_fsinfo3resfail

  unfoldable pub xdr_pathconf3resok : Filter Pathconf3ResOk
  xdr_pathconf3resok =
      field (λ o. o.obj_attributes) (λ v o. record o { obj_attributes = v }) (xdr_post_op_attr rpc)
      >=> field (λ o. o.linkmax) (λ v o. record o { linkmax = v }) (xdr_uint32 rpc)
      >=> field (λ o. o.name_max) (λ v o. record o { name_max = v }) (xdr_uint32 rpc)
      >=> field (λ o. o.no_trunc) (λ v o. record o { no_trunc = v }) (rpc.xdr_bool)
      >=> field (λ o. o.chown_restricted) (λ v o. record o { chown_restricted = v }) (rpc.xdr_bool)
      >=> field (λ o. o.case_insensitive) (λ v o. record o { case_insensitive = v }) (rpc.xdr_bool)
      >=> field (λ o. o.case_preserving) (λ v o. record o { case_preserving = v }) (rpc.xdr_bool)

  unfoldable pub xdr_pathconf3resfail : Filter Pathconf3ResFail
  xdr_pathconf3resfail =
      field (λ o. o.obj_attributes) (λ v o. record o { obj_attributes = v }) (xdr_post_op_attr rpc)

  unfoldable pub xdr_pathconf3res : Filter Pathconf3Res
  xdr_pathconf3res =
      field (λ o. o.status) (λ v o. record o { status = v }) (xdr_nfsstat3 rpc)
      >=> switch (λ o. o.status)
          λ d.
            if d == nfs3_ok
            then field (λ o. o.resok) (λ v o. record o { resok = v }) xdr_pathconf3resok
            else field pathconf3resfail_lens.0 pathconf3resfail_lens.1 xdr_pathconf3resfail

  unfoldable pub xdr_commit3resok : Filter Commit3ResOk
  xdr_commit3resok =
      field (λ o. o.file_wcc) (λ v o. record o { file_wcc = v }) (xdr_wcc_data rpc)
      >=> field (λ o. o.verf) (λ v o. record o { verf = v }) (xdr_writeverf3 rpc)

  unfoldable pub xdr_commit3resfail : Filter Commit3ResFail
  xdr_commit3resfail = field (λ o. o.file_wcc) (λ v o. record o { file_wcc = v }) (xdr_wcc_data rpc)

  unfoldable pub xdr_commit3res : Filter Commit3Res
  xdr_commit3res =
      field (λ o. o.status) (λ v o. record o { status = v }) (xdr_nfsstat3 rpc)
      >=> switch (λ o. o.status)
          λ d.
            if d == nfs3_ok
            then field (λ o. o.resok) (λ v o. record o { resok = v }) xdr_commit3resok
            else field commit3resfail_lens.0 commit3resfail_lens.1 xdr_commit3resfail
