-- ===== src/Xdr/Laws/FsRes.antt =====
-- The routines of unfs3/xdr.c for the results of the procedures, FSSTAT to COMMIT.
use unfs2go.Common.{◌==◌, refl}
use unfs2go.Types.Constants.{nfs3_ok}
use unfs2go.Types.FsRes.{
  fsstat3resfail_lens, fsinfo3resfail_lens, pathconf3resfail_lens, commit3resfail_lens,
}
use unfs2go.Xdr.Rpc.{Rpc, IsRpc}
use unfs2go.Xdr.Codes.{Codes, >=>-Codes, if-Codes, field-Codes, switch-Codes}
use unfs2go.Wire.FsRes.{
  IsFsstat3ResOk, wire_fsstat3resok, decoded_fsstat3resok, IsFsstat3ResFail, wire_fsstat3resfail,
  decoded_fsstat3resfail, IsFsstat3Res,
}
use unfs2go.Wire.FsRes.{
  wire_fsstat3res, decoded_fsstat3res, IsFsinfo3ResOk, wire_fsinfo3resok, decoded_fsinfo3resok,
  IsFsinfo3ResFail, wire_fsinfo3resfail,
}
use unfs2go.Wire.FsRes.{
  decoded_fsinfo3resfail, IsFsinfo3Res, wire_fsinfo3res, decoded_fsinfo3res, IsPathconf3ResOk,
  wire_pathconf3resok, decoded_pathconf3resok,
}
use unfs2go.Wire.FsRes.{
  IsPathconf3ResFail, wire_pathconf3resfail, decoded_pathconf3resfail, IsPathconf3Res,
  wire_pathconf3res, decoded_pathconf3res, IsCommit3ResOk,
}
use unfs2go.Wire.FsRes.{
  wire_commit3resok, decoded_commit3resok, IsCommit3ResFail, wire_commit3resfail,
  decoded_commit3resfail, IsCommit3Res, wire_commit3res,
}
use unfs2go.Wire.FsRes.{decoded_commit3res}
use unfs2go.Xdr.FsRes.{
  xdr_fsstat3resok, xdr_fsstat3resfail, xdr_fsstat3res, xdr_fsinfo3resok, xdr_fsinfo3resfail,
  xdr_fsinfo3res, xdr_pathconf3resok,
}
use unfs2go.Xdr.FsRes.{
  xdr_pathconf3resfail, xdr_pathconf3res, xdr_commit3resok, xdr_commit3resfail, xdr_commit3res,
}
use unfs2go.Xdr.Laws.Basic.{
  xdr_uint32-Codes, xdr_size3-Codes, xdr_nfsstat3-Codes, xdr_writeverf3-Codes,
}
use unfs2go.Xdr.Laws.Attr.{xdr_nfstime3-Codes, xdr_post_op_attr-Codes, xdr_wcc_data-Codes}

module _ (rpc : Rpc) (L : IsRpc rpc) where
  pub xdr_fsstat3resok-Codes :
      Codes (xdr_fsstat3resok rpc) IsFsstat3ResOk wire_fsstat3resok decoded_fsstat3resok
  unfolding xdr_fsstat3resok
  xdr_fsstat3resok-Codes =
      >=>-Codes
        (field-Codes (λ o. o.obj_attributes) (λ v o. record o { obj_attributes = v }) (λ o. refl)
          (xdr_post_op_attr-Codes rpc L))
        (>=>-Codes
          (field-Codes (λ o. o.tbytes) (λ v o. record o { tbytes = v }) (λ o. refl)
            (xdr_size3-Codes rpc L))
          (>=>-Codes
            (field-Codes (λ o. o.fbytes) (λ v o. record o { fbytes = v }) (λ o. refl)
              (xdr_size3-Codes rpc L))
            (>=>-Codes
              (field-Codes (λ o. o.abytes) (λ v o. record o { abytes = v }) (λ o. refl)
                (xdr_size3-Codes rpc L))
              (>=>-Codes
                (field-Codes (λ o. o.tfiles) (λ v o. record o { tfiles = v }) (λ o. refl)
                  (xdr_size3-Codes rpc L))
                (>=>-Codes
                  (field-Codes (λ o. o.ffiles) (λ v o. record o { ffiles = v }) (λ o. refl)
                    (xdr_size3-Codes rpc L))
                  (>=>-Codes
                    (field-Codes (λ o. o.afiles) (λ v o. record o { afiles = v }) (λ o. refl)
                      (xdr_size3-Codes rpc L))
                    (field-Codes (λ o. o.invarsec) (λ v o. record o { invarsec = v }) (λ o. refl)
                      (xdr_uint32-Codes rpc L))))))))

  pub xdr_fsstat3resfail-Codes :
      Codes (xdr_fsstat3resfail rpc) IsFsstat3ResFail wire_fsstat3resfail decoded_fsstat3resfail
  unfolding xdr_fsstat3resfail
  xdr_fsstat3resfail-Codes =
      field-Codes (λ o. o.obj_attributes) (λ v o. record o { obj_attributes = v }) (λ o. refl)
        (xdr_post_op_attr-Codes rpc L)

  pub xdr_fsstat3res-Codes :
      Codes (xdr_fsstat3res rpc) IsFsstat3Res wire_fsstat3res decoded_fsstat3res
  unfolding xdr_fsstat3res
  xdr_fsstat3res-Codes =
      switch-Codes (λ o. o.status) (λ x old. refl)
        (field-Codes (λ o. o.status) (λ v o. record o { status = v }) (λ o. refl)
          (xdr_nfsstat3-Codes rpc L))
        λ d.
          if-Codes
            (field-Codes (λ o. o.resok) (λ v o. record o { resok = v }) (λ o. refl)
              xdr_fsstat3resok-Codes)
            (field-Codes fsstat3resfail_lens.0 fsstat3resfail_lens.1 (λ o. refl)
              xdr_fsstat3resfail-Codes)
            (d == nfs3_ok)

  pub xdr_fsinfo3resok-Codes :
      Codes (xdr_fsinfo3resok rpc) IsFsinfo3ResOk wire_fsinfo3resok decoded_fsinfo3resok
  unfolding xdr_fsinfo3resok
  xdr_fsinfo3resok-Codes =
      >=>-Codes
        (field-Codes (λ o. o.obj_attributes) (λ v o. record o { obj_attributes = v }) (λ o. refl)
          (xdr_post_op_attr-Codes rpc L))
        (>=>-Codes
          (field-Codes (λ o. o.rtmax) (λ v o. record o { rtmax = v }) (λ o. refl)
            (xdr_uint32-Codes rpc L))
          (>=>-Codes
            (field-Codes (λ o. o.rtpref) (λ v o. record o { rtpref = v }) (λ o. refl)
              (xdr_uint32-Codes rpc L))
            (>=>-Codes
              (field-Codes (λ o. o.rtmult) (λ v o. record o { rtmult = v }) (λ o. refl)
                (xdr_uint32-Codes rpc L))
              (>=>-Codes
                (field-Codes (λ o. o.wtmax) (λ v o. record o { wtmax = v }) (λ o. refl)
                  (xdr_uint32-Codes rpc L))
                (>=>-Codes
                  (field-Codes (λ o. o.wtpref) (λ v o. record o { wtpref = v }) (λ o. refl)
                    (xdr_uint32-Codes rpc L))
                  (>=>-Codes
                    (field-Codes (λ o. o.wtmult) (λ v o. record o { wtmult = v }) (λ o. refl)
                      (xdr_uint32-Codes rpc L))
                    (>=>-Codes
                      (field-Codes (λ o. o.dtpref) (λ v o. record o { dtpref = v }) (λ o. refl)
                        (xdr_uint32-Codes rpc L))
                      (>=>-Codes
                        (field-Codes (λ o. o.maxfilesize) (λ v o. record o { maxfilesize = v })
                          (λ o. refl) (xdr_size3-Codes rpc L))
                        (>=>-Codes
                          (field-Codes (λ o. o.time_delta) (λ v o. record o { time_delta = v })
                            (λ o. refl) (xdr_nfstime3-Codes rpc L))
                          (field-Codes (λ o. o.properties) (λ v o. record o { properties = v })
                            (λ o. refl) (xdr_uint32-Codes rpc L)))))))))))

  pub xdr_fsinfo3resfail-Codes :
      Codes (xdr_fsinfo3resfail rpc) IsFsinfo3ResFail wire_fsinfo3resfail decoded_fsinfo3resfail
  unfolding xdr_fsinfo3resfail
  xdr_fsinfo3resfail-Codes =
      field-Codes (λ o. o.obj_attributes) (λ v o. record o { obj_attributes = v }) (λ o. refl)
        (xdr_post_op_attr-Codes rpc L)

  pub xdr_fsinfo3res-Codes :
      Codes (xdr_fsinfo3res rpc) IsFsinfo3Res wire_fsinfo3res decoded_fsinfo3res
  unfolding xdr_fsinfo3res
  xdr_fsinfo3res-Codes =
      switch-Codes (λ o. o.status) (λ x old. refl)
        (field-Codes (λ o. o.status) (λ v o. record o { status = v }) (λ o. refl)
          (xdr_nfsstat3-Codes rpc L))
        λ d.
          if-Codes
            (field-Codes (λ o. o.resok) (λ v o. record o { resok = v }) (λ o. refl)
              xdr_fsinfo3resok-Codes)
            (field-Codes fsinfo3resfail_lens.0 fsinfo3resfail_lens.1 (λ o. refl)
              xdr_fsinfo3resfail-Codes)
            (d == nfs3_ok)

  pub xdr_pathconf3resok-Codes :
      Codes (xdr_pathconf3resok rpc) IsPathconf3ResOk wire_pathconf3resok decoded_pathconf3resok
  unfolding xdr_pathconf3resok
  xdr_pathconf3resok-Codes =
      >=>-Codes
        (field-Codes (λ o. o.obj_attributes) (λ v o. record o { obj_attributes = v }) (λ o. refl)
          (xdr_post_op_attr-Codes rpc L))
        (>=>-Codes
          (field-Codes (λ o. o.linkmax) (λ v o. record o { linkmax = v }) (λ o. refl)
            (xdr_uint32-Codes rpc L))
          (>=>-Codes
            (field-Codes (λ o. o.name_max) (λ v o. record o { name_max = v }) (λ o. refl)
              (xdr_uint32-Codes rpc L))
            (>=>-Codes
              (field-Codes (λ o. o.no_trunc) (λ v o. record o { no_trunc = v }) (λ o. refl) L.bool)
              (>=>-Codes
                (field-Codes (λ o. o.chown_restricted) (λ v o. record o { chown_restricted = v })
                  (λ o. refl) L.bool)
                (>=>-Codes
                  (field-Codes (λ o. o.case_insensitive) (λ v o. record o { case_insensitive = v })
                    (λ o. refl) L.bool)
                  (field-Codes (λ o. o.case_preserving) (λ v o. record o { case_preserving = v })
                    (λ o. refl) L.bool))))))

  pub xdr_pathconf3resfail-Codes :
      Codes
        (xdr_pathconf3resfail rpc)
        IsPathconf3ResFail
        wire_pathconf3resfail
        decoded_pathconf3resfail
  unfolding xdr_pathconf3resfail
  xdr_pathconf3resfail-Codes =
      field-Codes (λ o. o.obj_attributes) (λ v o. record o { obj_attributes = v }) (λ o. refl)
        (xdr_post_op_attr-Codes rpc L)

  pub xdr_pathconf3res-Codes :
      Codes (xdr_pathconf3res rpc) IsPathconf3Res wire_pathconf3res decoded_pathconf3res
  unfolding xdr_pathconf3res
  xdr_pathconf3res-Codes =
      switch-Codes (λ o. o.status) (λ x old. refl)
        (field-Codes (λ o. o.status) (λ v o. record o { status = v }) (λ o. refl)
          (xdr_nfsstat3-Codes rpc L))
        λ d.
          if-Codes
            (field-Codes (λ o. o.resok) (λ v o. record o { resok = v }) (λ o. refl)
              xdr_pathconf3resok-Codes)
            (field-Codes pathconf3resfail_lens.0 pathconf3resfail_lens.1 (λ o. refl)
              xdr_pathconf3resfail-Codes)
            (d == nfs3_ok)

  pub xdr_commit3resok-Codes :
      Codes (xdr_commit3resok rpc) IsCommit3ResOk wire_commit3resok decoded_commit3resok
  unfolding xdr_commit3resok
  xdr_commit3resok-Codes =
      >=>-Codes
        (field-Codes (λ o. o.file_wcc) (λ v o. record o { file_wcc = v }) (λ o. refl)
          (xdr_wcc_data-Codes rpc L))
        (field-Codes (λ o. o.verf) (λ v o. record o { verf = v }) (λ o. refl)
          (xdr_writeverf3-Codes rpc L))

  pub xdr_commit3resfail-Codes :
      Codes (xdr_commit3resfail rpc) IsCommit3ResFail wire_commit3resfail decoded_commit3resfail
  unfolding xdr_commit3resfail
  xdr_commit3resfail-Codes =
      field-Codes (λ o. o.file_wcc) (λ v o. record o { file_wcc = v }) (λ o. refl)
        (xdr_wcc_data-Codes rpc L)

  pub xdr_commit3res-Codes :
      Codes (xdr_commit3res rpc) IsCommit3Res wire_commit3res decoded_commit3res
  unfolding xdr_commit3res
  xdr_commit3res-Codes =
      switch-Codes (λ o. o.status) (λ x old. refl)
        (field-Codes (λ o. o.status) (λ v o. record o { status = v }) (λ o. refl)
          (xdr_nfsstat3-Codes rpc L))
        λ d.
          if-Codes
            (field-Codes (λ o. o.resok) (λ v o. record o { resok = v }) (λ o. refl)
              xdr_commit3resok-Codes)
            (field-Codes commit3resfail_lens.0 commit3resfail_lens.1 (λ o. refl)
              xdr_commit3resfail-Codes)
            (d == nfs3_ok)
