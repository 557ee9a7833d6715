-- ===== src/Xdr/Laws/FileRes.antt =====
-- The routines of unfs3/xdr.c for the results of the procedures, READ to MKDIR.
use unfs2go.Common.{◌==◌, refl}
use unfs2go.Types.Constants.{nfs3_ok, u32_max}
use unfs2go.Types.FileRes.{
  read3resfail_lens, write3resfail_lens, create3resfail_lens, mkdir3resfail_lens,
}
use unfs2go.Xdr.Rpc.{Rpc, IsRpc}
use unfs2go.Xdr.Codes.{Codes, >=>-Codes, if-Codes, field-Codes, switch-Codes}
use unfs2go.Wire.FileRes.{
  IsRead3ResOk, wire_read3resok, decoded_read3resok, IsRead3ResFail, wire_read3resfail,
  decoded_read3resfail, IsRead3Res,
}
use unfs2go.Wire.FileRes.{
  wire_read3res, decoded_read3res, IsWrite3ResOk, wire_write3resok, decoded_write3resok,
  IsWrite3ResFail, wire_write3resfail,
}
use unfs2go.Wire.FileRes.{
  decoded_write3resfail, IsWrite3Res, wire_write3res, decoded_write3res, IsCreate3ResOk,
  wire_create3resok, decoded_create3resok,
}
use unfs2go.Wire.FileRes.{
  IsCreate3ResFail, wire_create3resfail, decoded_create3resfail, IsCreate3Res, wire_create3res,
  decoded_create3res, IsMkdir3ResOk,
}
use unfs2go.Wire.FileRes.{
  wire_mkdir3resok, decoded_mkdir3resok, IsMkdir3ResFail, wire_mkdir3resfail, decoded_mkdir3resfail,
  IsMkdir3Res, wire_mkdir3res,
}
use unfs2go.Wire.FileRes.{decoded_mkdir3res}
use unfs2go.Xdr.FileRes.{
  xdr_read3resok, xdr_read3resfail, xdr_read3res, xdr_write3resok, xdr_write3resfail, xdr_write3res,
  xdr_create3resok,
}
use unfs2go.Xdr.FileRes.{
  xdr_create3resfail, xdr_create3res, xdr_mkdir3resok, xdr_mkdir3resfail, xdr_mkdir3res,
}
use unfs2go.Xdr.Laws.Basic.{
  xdr_count3-Codes, xdr_nfsstat3-Codes, xdr_stable_how-Codes, xdr_writeverf3-Codes,
}
use unfs2go.Xdr.Laws.Attr.{xdr_post_op_attr-Codes, xdr_wcc_data-Codes, xdr_post_op_fh3-Codes}

module _ (rpc : Rpc) (L : IsRpc rpc) where
  pub xdr_read3resok-Codes :
      Codes (xdr_read3resok rpc) IsRead3ResOk wire_read3resok decoded_read3resok
  unfolding xdr_read3resok
  xdr_read3resok-Codes =
      >=>-Codes
        (field-Codes (λ o. o.file_attributes) (λ v o. record o { file_attributes = v }) (λ o. refl)
          (xdr_post_op_attr-Codes rpc L))
        (>=>-Codes
          (field-Codes (λ o. o.count) (λ v o. record o { count = v }) (λ o. refl)
            (xdr_count3-Codes rpc L))
          (>=>-Codes (field-Codes (λ o. o.eof) (λ v o. record o { eof = v }) (λ o. refl) L.bool) (
            field-Codes (λ o. o.data_buf) (λ v o. record o { data_buf = v }) (λ o. refl)
              (L.bytes u32_max))))

  pub xdr_read3resfail-Codes :
      Codes (xdr_read3resfail rpc) IsRead3ResFail wire_read3resfail decoded_read3resfail
  unfolding xdr_read3resfail
  xdr_read3resfail-Codes =
      field-Codes (λ o. o.file_attributes) (λ v o. record o { file_attributes = v }) (λ o. refl)
        (xdr_post_op_attr-Codes rpc L)

  pub xdr_read3res-Codes : Codes (xdr_read3res rpc) IsRead3Res wire_read3res decoded_read3res
  unfolding xdr_read3res
  xdr_read3res-Codes =
      switch-Codes (λ o. o.status) (λ x old. refl)
        (field-Codes (λ o. o.status) (λ v o. record o { status = v }) (λ o. refl)
          (xdr_nfsstat3-Codes rpc L))
        λ d.
          if-Codes
            (field-Codes (λ o. o.resok) (λ v o. record o { resok = v }) (λ o. refl)
              xdr_read3resok-Codes)
            (field-Codes read3resfail_lens.0 read3resfail_lens.1 (λ o. refl) xdr_read3resfail-Codes)
            (d == nfs3_ok)

  pub xdr_write3resok-Codes :
      Codes (xdr_write3resok rpc) IsWrite3ResOk wire_write3resok decoded_write3resok
  unfolding xdr_write3resok
  xdr_write3resok-Codes =
      >=>-Codes
        (field-Codes (λ o. o.file_wcc) (λ v o. record o { file_wcc = v }) (λ o. refl)
          (xdr_wcc_data-Codes rpc L))
        (>=>-Codes
          (field-Codes (λ o. o.count) (λ v o. record o { count = v }) (λ o. refl)
            (xdr_count3-Codes rpc L))
          (>=>-Codes
            (field-Codes (λ o. o.committed) (λ v o. record o { committed = v }) (λ o. refl)
              (xdr_stable_how-Codes rpc L))
            (field-Codes (λ o. o.verf) (λ v o. record o { verf = v }) (λ o. refl)
              (xdr_writeverf3-Codes rpc L))))

  pub xdr_write3resfail-Codes :
      Codes (xdr_write3resfail rpc) IsWrite3ResFail wire_write3resfail decoded_write3resfail
  unfolding xdr_write3resfail
  xdr_write3resfail-Codes =
      field-Codes (λ o. o.file_wcc) (λ v o. record o { file_wcc = v }) (λ o. refl)
        (xdr_wcc_data-Codes rpc L)

  pub xdr_write3res-Codes : Codes (xdr_write3res rpc) IsWrite3Res wire_write3res decoded_write3res
  unfolding xdr_write3res
  xdr_write3res-Codes =
      switch-Codes (λ o. o.status) (λ x old. refl)
        (field-Codes (λ o. o.status) (λ v o. record o { status = v }) (λ o. refl)
          (xdr_nfsstat3-Codes rpc L))
        λ d.
          if-Codes
            (field-Codes (λ o. o.resok) (λ v o. record o { resok = v }) (λ o. refl)
              xdr_write3resok-Codes)
            (field-Codes write3resfail_lens.0 write3resfail_lens.1 (λ o. refl)
              xdr_write3resfail-Codes)
            (d == nfs3_ok)

  pub xdr_create3resok-Codes :
      Codes (xdr_create3resok rpc) IsCreate3ResOk wire_create3resok decoded_create3resok
  unfolding xdr_create3resok
  xdr_create3resok-Codes =
      >=>-Codes
        (field-Codes (λ o. o.obj) (λ v o. record o { obj = v }) (λ o. refl)
          (xdr_post_op_fh3-Codes rpc L))
        (>=>-Codes
          (field-Codes (λ o. o.obj_attributes) (λ v o. record o { obj_attributes = v }) (λ o. refl)
            (xdr_post_op_attr-Codes rpc L))
          (field-Codes (λ o. o.dir_wcc) (λ v o. record o { dir_wcc = v }) (λ o. refl)
            (xdr_wcc_data-Codes rpc L)))

  pub xdr_create3resfail-Codes :
      Codes (xdr_create3resfail rpc) IsCreate3ResFail wire_create3resfail decoded_create3resfail
  unfolding xdr_create3resfail
  xdr_create3resfail-Codes =
      field-Codes (λ o. o.dir_wcc) (λ v o. record o { dir_wcc = v }) (λ o. refl)
        (xdr_wcc_data-Codes rpc L)

  pub xdr_create3res-Codes :
      Codes (xdr_create3res rpc) IsCreate3Res wire_create3res decoded_create3res
  unfolding xdr_create3res
  xdr_create3res-Codes =
      switch-Codes (λ o. o.status) (λ x old. refl)
        (field-Codes (λ o. o.status) (λ v o. record o { status = v }) (λ o. refl)
          (xdr_nfsstat3-Codes rpc L))
        λ d.
          if-Codes
            (field-Codes (λ o. o.resok) (λ v o. record o { resok = v }) (λ o. refl)
              xdr_create3resok-Codes)
            (field-Codes create3resfail_lens.0 create3resfail_lens.1 (λ o. refl)
              xdr_create3resfail-Codes)
            (d == nfs3_ok)

  pub xdr_mkdir3resok-Codes :
      Codes (xdr_mkdir3resok rpc) IsMkdir3ResOk wire_mkdir3resok decoded_mkdir3resok
  unfolding xdr_mkdir3resok
  xdr_mkdir3resok-Codes =
      >=>-Codes
        (field-Codes (λ o. o.obj) (λ v o. record o { obj = v }) (λ o. refl)
          (xdr_post_op_fh3-Codes rpc L))
        (>=>-Codes
          (field-Codes (λ o. o.obj_attributes) (λ v o. record o { obj_attributes = v }) (λ o. refl)
            (xdr_post_op_attr-Codes rpc L))
          (field-Codes (λ o. o.dir_wcc) (λ v o. record o { dir_wcc = v }) (λ o. refl)
            (xdr_wcc_data-Codes rpc L)))

  pub xdr_mkdir3resfail-Codes :
      Codes (xdr_mkdir3resfail rpc) IsMkdir3ResFail wire_mkdir3resfail decoded_mkdir3resfail
  unfolding xdr_mkdir3resfail
  xdr_mkdir3resfail-Codes =
      field-Codes (λ o. o.dir_wcc) (λ v o. record o { dir_wcc = v }) (λ o. refl)
        (xdr_wcc_data-Codes rpc L)

  pub xdr_mkdir3res-Codes : Codes (xdr_mkdir3res rpc) IsMkdir3Res wire_mkdir3res decoded_mkdir3res
  unfolding xdr_mkdir3res
  xdr_mkdir3res-Codes =
      switch-Codes (λ o. o.status) (λ x old. refl)
        (field-Codes (λ o. o.status) (λ v o. record o { status = v }) (λ o. refl)
          (xdr_nfsstat3-Codes rpc L))
        λ d.
          if-Codes
            (field-Codes (λ o. o.resok) (λ v o. record o { resok = v }) (λ o. refl)
              xdr_mkdir3resok-Codes)
            (field-Codes mkdir3resfail_lens.0 mkdir3resfail_lens.1 (λ o. refl)
              xdr_mkdir3resfail-Codes)
            (d == nfs3_ok)
