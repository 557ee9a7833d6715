-- ===== src/Xdr/Laws/Res.antt =====
-- The routines of unfs3/xdr.c for the results of the procedures, GETATTR to READLINK.
use unfs2go.Common.{◌==◌, refl}
use unfs2go.Types.Constants.{nfs3_ok}
use unfs2go.Types.Res.{
  setattr3resfail_lens, lookup3resfail_lens, access3resfail_lens, readlink3resfail_lens,
}
use unfs2go.Xdr.Rpc.{Rpc, IsRpc}
use unfs2go.Xdr.Codes.{Codes, replaced, done-Codes, >=>-Codes, if-Codes, field-Codes, switch-Codes}
use unfs2go.Wire.Res.{
  IsGetattr3ResOk, wire_getattr3resok, IsGetattr3Res, wire_getattr3res, decoded_getattr3res,
  IsSetattr3ResOk, wire_setattr3resok,
}
use unfs2go.Wire.Res.{
  decoded_setattr3resok, IsSetattr3ResFail, wire_setattr3resfail, decoded_setattr3resfail,
  IsSetattr3Res, wire_setattr3res, decoded_setattr3res,
}
use unfs2go.Wire.Res.{
  IsLookup3ResOk, wire_lookup3resok, decoded_lookup3resok, IsLookup3ResFail, wire_lookup3resfail,
  decoded_lookup3resfail, IsLookup3Res,
}
use unfs2go.Wire.Res.{
  wire_lookup3res, decoded_lookup3res, IsAccess3ResOk, wire_access3resok, decoded_access3resok,
  IsAccess3ResFail, wire_access3resfail,
}
use unfs2go.Wire.Res.{
  decoded_access3resfail, IsAccess3Res, wire_access3res, decoded_access3res, IsReadlink3ResOk,
  wire_readlink3resok, decoded_readlink3resok,
}
use unfs2go.Wire.Res.{
  IsReadlink3ResFail, wire_readlink3resfail, decoded_readlink3resfail, IsReadlink3Res,
  wire_readlink3res, decoded_readlink3res,
}
use unfs2go.Xdr.Res.{
  xdr_getattr3resok, xdr_getattr3res, xdr_setattr3resok, xdr_setattr3resfail, xdr_setattr3res,
  xdr_lookup3resok, xdr_lookup3resfail,
}
use unfs2go.Xdr.Res.{
  xdr_lookup3res, xdr_access3resok, xdr_access3resfail, xdr_access3res, xdr_readlink3resok,
  xdr_readlink3resfail, xdr_readlink3res,
}
use unfs2go.Xdr.Laws.Basic.{xdr_uint32-Codes, xdr_nfsstat3-Codes, xdr_nfspath3-Codes}
use unfs2go.Xdr.Laws.Attr.{
  xdr_nfs_fh3-Codes, xdr_fattr3-Codes, xdr_post_op_attr-Codes, xdr_wcc_data-Codes,
}

module _ (rpc : Rpc) (L : IsRpc rpc) where
  pub xdr_getattr3resok-Codes :
      Codes (xdr_getattr3resok rpc) IsGetattr3ResOk wire_getattr3resok replaced
  unfolding xdr_getattr3resok
  xdr_getattr3resok-Codes =
      field-Codes (λ o. o.obj_attributes) (λ v o. record o { obj_attributes = v }) (λ o. refl)
        (xdr_fattr3-Codes rpc L)

  pub xdr_getattr3res-Codes :
      Codes (xdr_getattr3res rpc) IsGetattr3Res wire_getattr3res decoded_getattr3res
  unfolding xdr_getattr3res
  xdr_getattr3res-Codes =
      switch-Codes (λ o. o.status) (λ x old. refl)
        (field-Codes (λ o. o.status) (λ v o. record o { status = v }) (λ o. refl)
          (xdr_nfsstat3-Codes rpc L))
        λ d.
          if-Codes
            (field-Codes (λ o. o.resok) (λ v o. record o { resok = v }) (λ o. refl)
              xdr_getattr3resok-Codes)
            done-Codes (d == nfs3_ok)

  pub xdr_setattr3resok-Codes :
      Codes (xdr_setattr3resok rpc) IsSetattr3ResOk wire_setattr3resok decoded_setattr3resok
  unfolding xdr_setattr3resok
  xdr_setattr3resok-Codes =
      field-Codes (λ o. o.obj_wcc) (λ v o. record o { obj_wcc = v }) (λ o. refl)
        (xdr_wcc_data-Codes rpc L)

  pub xdr_setattr3resfail-Codes :
      Codes (xdr_setattr3resfail rpc) IsSetattr3ResFail wire_setattr3resfail decoded_setattr3resfail
  unfolding xdr_setattr3resfail
  xdr_setattr3resfail-Codes =
      field-Codes (λ o. o.obj_wcc) (λ v o. record o { obj_wcc = v }) (λ o. refl)
        (xdr_wcc_data-Codes rpc L)

  pub xdr_setattr3res-Codes :
      Codes (xdr_setattr3res rpc) IsSetattr3Res wire_setattr3res decoded_setattr3res
  unfolding xdr_setattr3res
  xdr_setattr3res-Codes =
      switch-Codes (λ o. o.status) (λ x old. refl)
        (field-Codes (λ o. o.status) (λ v o. record o { status = v }) (λ o. refl)
          (xdr_nfsstat3-Codes rpc L))
        λ d.
          if-Codes
            (field-Codes (λ o. o.resok) (λ v o. record o { resok = v }) (λ o. refl)
              xdr_setattr3resok-Codes)
            (field-Codes setattr3resfail_lens.0 setattr3resfail_lens.1 (λ o. refl)
              xdr_setattr3resfail-Codes)
            (d == nfs3_ok)

  pub xdr_lookup3resok-Codes :
      Codes (xdr_lookup3resok rpc) IsLookup3ResOk wire_lookup3resok decoded_lookup3resok
  unfolding xdr_lookup3resok
  xdr_lookup3resok-Codes =
      >=>-Codes
        (field-Codes (λ o. o.object) (λ v o. record o { object = v }) (λ o. refl)
          (xdr_nfs_fh3-Codes rpc L))
        (>=>-Codes
          (field-Codes (λ o. o.obj_attributes) (λ v o. record o { obj_attributes = v }) (λ o. refl)
            (xdr_post_op_attr-Codes rpc L))
          (field-Codes (λ o. o.dir_attributes) (λ v o. record o { dir_attributes = v }) (λ o. refl)
            (xdr_post_op_attr-Codes rpc L)))

  pub xdr_lookup3resfail-Codes :
      Codes (xdr_lookup3resfail rpc) IsLookup3ResFail wire_lookup3resfail decoded_lookup3resfail
  unfolding xdr_lookup3resfail
  xdr_lookup3resfail-Codes =
      field-Codes (λ o. o.dir_attributes) (λ v o. record o { dir_attributes = v }) (λ o. refl)
        (xdr_post_op_attr-Codes rpc L)

  pub xdr_lookup3res-Codes :
      Codes (xdr_lookup3res rpc) IsLookup3Res wire_lookup3res decoded_lookup3res
  unfolding xdr_lookup3res
  xdr_lookup3res-Codes =
      switch-Codes (λ o. o.status) (λ x old. refl)
        (field-Codes (λ o. o.status) (λ v o. record o { status = v }) (λ o. refl)
          (xdr_nfsstat3-Codes rpc L))
        λ d.
          if-Codes
            (field-Codes (λ o. o.resok) (λ v o. record o { resok = v }) (λ o. refl)
              xdr_lookup3resok-Codes)
            (field-Codes lookup3resfail_lens.0 lookup3resfail_lens.1 (λ o. refl)
              xdr_lookup3resfail-Codes)
            (d == nfs3_ok)

  pub xdr_access3resok-Codes :
      Codes (xdr_access3resok rpc) IsAccess3ResOk wire_access3resok decoded_access3resok
  unfolding xdr_access3resok
  xdr_access3resok-Codes =
      >=>-Codes
        (field-Codes (λ o. o.obj_attributes) (λ v o. record o { obj_attributes = v }) (λ o. refl)
          (xdr_post_op_attr-Codes rpc L))
        (field-Codes (λ o. o.access) (λ v o. record o { access = v }) (λ o. refl)
          (xdr_uint32-Codes rpc L))

  pub xdr_access3resfail-Codes :
      Codes (xdr_access3resfail rpc) IsAccess3ResFail wire_access3resfail decoded_access3resfail
  unfolding xdr_access3resfail
  xdr_access3resfail-Codes =
      field-Codes (λ o. o.obj_attributes) (λ v o. record o { obj_attributes = v }) (λ o. refl)
        (xdr_post_op_attr-Codes rpc L)

  pub xdr_access3res-Codes :
      Codes (xdr_access3res rpc) IsAccess3Res wire_access3res decoded_access3res
  unfolding xdr_access3res
  xdr_access3res-Codes =
      switch-Codes (λ o. o.status) (λ x old. refl)
        (field-Codes (λ o. o.status) (λ v o. record o { status = v }) (λ o. refl)
          (xdr_nfsstat3-Codes rpc L))
        λ d.
          if-Codes
            (field-Codes (λ o. o.resok) (λ v o. record o { resok = v }) (λ o. refl)
              xdr_access3resok-Codes)
            (field-Codes access3resfail_lens.0 access3resfail_lens.1 (λ o. refl)
              xdr_access3resfail-Codes)
            (d == nfs3_ok)

  pub xdr_readlink3resok-Codes :
      Codes (xdr_readlink3resok rpc) IsReadlink3ResOk wire_readlink3resok decoded_readlink3resok
  unfolding xdr_readlink3resok
  xdr_readlink3resok-Codes =
      >=>-Codes
        (field-Codes (λ o. o.symlink_attributes) (λ v o. record o { symlink_attributes = v })
          (λ o. refl) (xdr_post_op_attr-Codes rpc L))
        (field-Codes (λ o. o.data_path) (λ v o. record o { data_path = v }) (λ o. refl)
          (xdr_nfspath3-Codes rpc L))

  pub xdr_readlink3resfail-Codes :
      Codes
        (xdr_readlink3resfail rpc)
        IsReadlink3ResFail
        wire_readlink3resfail
        decoded_readlink3resfail
  unfolding xdr_readlink3resfail
  xdr_readlink3resfail-Codes =
      field-Codes (λ o. o.symlink_attributes) (λ v o. record o { symlink_attributes = v })
        (λ o. refl) (xdr_post_op_attr-Codes rpc L)

  pub xdr_readlink3res-Codes :
      Codes (xdr_readlink3res rpc) IsReadlink3Res wire_readlink3res decoded_readlink3res
  unfolding xdr_readlink3res
  xdr_readlink3res-Codes =
      switch-Codes (λ o. o.status) (λ x old. refl)
        (field-Codes (λ o. o.status) (λ v o. record o { status = v }) (λ o. refl)
          (xdr_nfsstat3-Codes rpc L))
        λ d.
          if-Codes
            (field-Codes (λ o. o.resok) (λ v o. record o { resok = v }) (λ o. refl)
              xdr_readlink3resok-Codes)
            (field-Codes readlink3resfail_lens.0 readlink3resfail_lens.1 (λ o. refl)
              xdr_readlink3resfail-Codes)
            (d == nfs3_ok)
