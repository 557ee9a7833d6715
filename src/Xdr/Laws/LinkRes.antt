-- ===== src/Xdr/Laws/LinkRes.antt =====
-- The routines of unfs3/xdr.c for the results of the procedures, SYMLINK to LINK.
use unfs2go.Common.{◌==◌, refl}
use unfs2go.Types.Constants.{nfs3_ok}
use unfs2go.Types.LinkRes.{
  symlink3resfail_lens, mknod3resfail_lens, remove3resfail_lens, rmdir3resfail_lens,
  rename3resfail_lens, link3resfail_lens,
}
use unfs2go.Xdr.Rpc.{Rpc, IsRpc}
use unfs2go.Xdr.Codes.{Codes, >=>-Codes, if-Codes, field-Codes, switch-Codes}
use unfs2go.Wire.LinkRes.{
  IsSymlink3ResOk, wire_symlink3resok, decoded_symlink3resok, IsSymlink3ResFail,
  wire_symlink3resfail, decoded_symlink3resfail, IsSymlink3Res,
}
use unfs2go.Wire.LinkRes.{
  wire_symlink3res, decoded_symlink3res, IsMknod3ResOk, wire_mknod3resok, decoded_mknod3resok,
  IsMknod3ResFail, wire_mknod3resfail,
}
use unfs2go.Wire.LinkRes.{
  decoded_mknod3resfail, IsMknod3Res, wire_mknod3res, decoded_mknod3res, IsRemove3ResOk,
  wire_remove3resok, decoded_remove3resok,
}
use unfs2go.Wire.LinkRes.{
  IsRemove3ResFail, wire_remove3resfail, decoded_remove3resfail, IsRemove3Res, wire_remove3res,
  decoded_remove3res, IsRmdir3ResOk,
}
use unfs2go.Wire.LinkRes.{
  wire_rmdir3resok, decoded_rmdir3resok, IsRmdir3ResFail, wire_rmdir3resfail, decoded_rmdir3resfail,
  IsRmdir3Res, wire_rmdir3res,
}
use unfs2go.Wire.LinkRes.{
  decoded_rmdir3res, IsRename3ResOk, wire_rename3resok, decoded_rename3resok, IsRename3ResFail,
  wire_rename3resfail, decoded_rename3resfail,
}
use unfs2go.Wire.LinkRes.{
  IsRename3Res, wire_rename3res, decoded_rename3res, IsLink3ResOk, wire_link3resok,
  decoded_link3resok, IsLink3ResFail,
}
use unfs2go.Wire.LinkRes.{
  wire_link3resfail, decoded_link3resfail, IsLink3Res, wire_link3res, decoded_link3res,
}
use unfs2go.Xdr.LinkRes.{
  xdr_symlink3resok, xdr_symlink3resfail, xdr_symlink3res, xdr_mknod3resok, xdr_mknod3resfail,
  xdr_mknod3res, xdr_remove3resok,
}
use unfs2go.Xdr.LinkRes.{
  xdr_remove3resfail, xdr_remove3res, xdr_rmdir3resok, xdr_rmdir3resfail, xdr_rmdir3res,
  xdr_rename3resok, xdr_rename3resfail,
}
use unfs2go.Xdr.LinkRes.{xdr_rename3res, xdr_link3resok, xdr_link3resfail, xdr_link3res}
use unfs2go.Xdr.Laws.Basic.{xdr_nfsstat3-Codes}
use unfs2go.Xdr.Laws.Attr.{xdr_post_op_attr-Codes, xdr_wcc_data-Codes, xdr_post_op_fh3-Codes}

module _ (rpc : Rpc) (L : IsRpc rpc) where
  pub xdr_symlink3resok-Codes :
      Codes (xdr_symlink3resok rpc) IsSymlink3ResOk wire_symlink3resok decoded_symlink3resok
  unfolding xdr_symlink3resok
  xdr_symlink3resok-Codes =
      >=>-Codes
        (field-Codes (λ o. o.obj) (λ v o. record o { obj = v }) (λ o. refl)
          (xdr_post_op_fh3-Codes rpc L))
        (>=>-Codes
          (field-Codes (λ o. o.obj_attributes) (λ v o. record o { obj_attributes = v }) (λ o. refl)
            (xdr_post_op_attr-Codes rpc L))
          (field-Codes (λ o. o.dir_wcc) (λ v o. record o { dir_wcc = v }) (λ o. refl)
            (xdr_wcc_data-Codes rpc L)))

  pub xdr_symlink3resfail-Codes :
      Codes (xdr_symlink3resfail rpc) IsSymlink3ResFail wire_symlink3resfail decoded_symlink3resfail
  unfolding xdr_symlink3resfail
  xdr_symlink3resfail-Codes =
      field-Codes (λ o. o.dir_wcc) (λ v o. record o { dir_wcc = v }) (λ o. refl)
        (xdr_wcc_data-Codes rpc L)

  pub xdr_symlink3res-Codes :
      Codes (xdr_symlink3res rpc) IsSymlink3Res wire_symlink3res decoded_symlink3res
  unfolding xdr_symlink3res
  xdr_symlink3res-Codes =
      switch-Codes (λ o. o.status) (λ x old. refl)
        (field-Codes (λ o. o.status) (λ v o. record o { status = v }) (λ o. refl)
          (xdr_nfsstat3-Codes rpc L))
        λ d.
          if-Codes
            (field-Codes (λ o. o.resok) (λ v o. record o { resok = v }) (λ o. refl)
              xdr_symlink3resok-Codes)
            (field-Codes symlink3resfail_lens.0 symlink3resfail_lens.1 (λ o. refl)
              xdr_symlink3resfail-Codes)
            (d == nfs3_ok)

  pub xdr_mknod3resok-Codes :
      Codes (xdr_mknod3resok rpc) IsMknod3ResOk wire_mknod3resok decoded_mknod3resok
  unfolding xdr_mknod3resok
  xdr_mknod3resok-Codes =
      >=>-Codes
        (field-Codes (λ o. o.obj) (λ v o. record o { obj = v }) (λ o. refl)
          (xdr_post_op_fh3-Codes rpc L))
        (>=>-Codes
          (field-Codes (λ o. o.obj_attributes) (λ v o. record o { obj_attributes = v }) (λ o. refl)
            (xdr_post_op_attr-Codes rpc L))
          (field-Codes (λ o. o.dir_wcc) (λ v o. record o { dir_wcc = v }) (λ o. refl)
            (xdr_wcc_data-Codes rpc L)))

  pub xdr_mknod3resfail-Codes :
      Codes (xdr_mknod3resfail rpc) IsMknod3ResFail wire_mknod3resfail decoded_mknod3resfail
  unfolding xdr_mknod3resfail
  xdr_mknod3resfail-Codes =
      field-Codes (λ o. o.dir_wcc) (λ v o. record o { dir_wcc = v }) (λ o. refl)
        (xdr_wcc_data-Codes rpc L)

  pub xdr_mknod3res-Codes : Codes (xdr_mknod3res rpc) IsMknod3Res wire_mknod3res decoded_mknod3res
  unfolding xdr_mknod3res
  xdr_mknod3res-Codes =
      switch-Codes (λ o. o.status) (λ x old. refl)
        (field-Codes (λ o. o.status) (λ v o. record o { status = v }) (λ o. refl)
          (xdr_nfsstat3-Codes rpc L))
        λ d.
          if-Codes
            (field-Codes (λ o. o.resok) (λ v o. record o { resok = v }) (λ o. refl)
              xdr_mknod3resok-Codes)
            (field-Codes mknod3resfail_lens.0 mknod3resfail_lens.1 (λ o. refl)
              xdr_mknod3resfail-Codes)
            (d == nfs3_ok)

  pub xdr_remove3resok-Codes :
      Codes (xdr_remove3resok rpc) IsRemove3ResOk wire_remove3resok decoded_remove3resok
  unfolding xdr_remove3resok
  xdr_remove3resok-Codes =
      field-Codes (λ o. o.dir_wcc) (λ v o. record o { dir_wcc = v }) (λ o. refl)
        (xdr_wcc_data-Codes rpc L)

  pub xdr_remove3resfail-Codes :
      Codes (xdr_remove3resfail rpc) IsRemove3ResFail wire_remove3resfail decoded_remove3resfail
  unfolding xdr_remove3resfail
  xdr_remove3resfail-Codes =
      field-Codes (λ o. o.dir_wcc) (λ v o. record o { dir_wcc = v }) (λ o. refl)
        (xdr_wcc_data-Codes rpc L)

  pub xdr_remove3res-Codes :
      Codes (xdr_remove3res rpc) IsRemove3Res wire_remove3res decoded_remove3res
  unfolding xdr_remove3res
  xdr_remove3res-Codes =
      switch-Codes (λ o. o.status) (λ x old. refl)
        (field-Codes (λ o. o.status) (λ v o. record o { status = v }) (λ o. refl)
          (xdr_nfsstat3-Codes rpc L))
        λ d.
          if-Codes
            (field-Codes (λ o. o.resok) (λ v o. record o { resok = v }) (λ o. refl)
              xdr_remove3resok-Codes)
            (field-Codes remove3resfail_lens.0 remove3resfail_lens.1 (λ o. refl)
              xdr_remove3resfail-Codes)
            (d == nfs3_ok)

  pub xdr_rmdir3resok-Codes :
      Codes (xdr_rmdir3resok rpc) IsRmdir3ResOk wire_rmdir3resok decoded_rmdir3resok
  unfolding xdr_rmdir3resok
  xdr_rmdir3resok-Codes =
      field-Codes (λ o. o.dir_wcc) (λ v o. record o { dir_wcc = v }) (λ o. refl)
        (xdr_wcc_data-Codes rpc L)

  pub xdr_rmdir3resfail-Codes :
      Codes (xdr_rmdir3resfail rpc) IsRmdir3ResFail wire_rmdir3resfail decoded_rmdir3resfail
  unfolding xdr_rmdir3resfail
  xdr_rmdir3resfail-Codes =
      field-Codes (λ o. o.dir_wcc) (λ v o. record o { dir_wcc = v }) (λ o. refl)
        (xdr_wcc_data-Codes rpc L)

  pub xdr_rmdir3res-Codes : Codes (xdr_rmdir3res rpc) IsRmdir3Res wire_rmdir3res decoded_rmdir3res
  unfolding xdr_rmdir3res
  xdr_rmdir3res-Codes =
      switch-Codes (λ o. o.status) (λ x old. refl)
        (field-Codes (λ o. o.status) (λ v o. record o { status = v }) (λ o. refl)
          (xdr_nfsstat3-Codes rpc L))
        λ d.
          if-Codes
            (field-Codes (λ o. o.resok) (λ v o. record o { resok = v }) (λ o. refl)
              xdr_rmdir3resok-Codes)
            (field-Codes rmdir3resfail_lens.0 rmdir3resfail_lens.1 (λ o. refl)
              xdr_rmdir3resfail-Codes)
            (d == nfs3_ok)

  pub xdr_rename3resok-Codes :
      Codes (xdr_rename3resok rpc) IsRename3ResOk wire_rename3resok decoded_rename3resok
  unfolding xdr_rename3resok
  xdr_rename3resok-Codes =
      >=>-Codes
        (field-Codes (λ o. o.fromdir_wcc) (λ v o. record o { fromdir_wcc = v }) (λ o. refl)
          (xdr_wcc_data-Codes rpc L))
        (field-Codes (λ o. o.todir_wcc) (λ v o. record o { todir_wcc = v }) (λ o. refl)
          (xdr_wcc_data-Codes rpc L))

  pub xdr_rename3resfail-Codes :
      Codes (xdr_rename3resfail rpc) IsRename3ResFail wire_rename3resfail decoded_rename3resfail
  unfolding xdr_rename3resfail
  xdr_rename3resfail-Codes =
      >=>-Codes
        (field-Codes (λ o. o.fromdir_wcc) (λ v o. record o { fromdir_wcc = v }) (λ o. refl)
          (xdr_wcc_data-Codes rpc L))
        (field-Codes (λ o. o.todir_wcc) (λ v o. record o { todir_wcc = v }) (λ o. refl)
          (xdr_wcc_data-Codes rpc L))

  pub xdr_rename3res-Codes :
      Codes (xdr_rename3res rpc) IsRename3Res wire_rename3res decoded_rename3res
  unfolding xdr_rename3res
  xdr_rename3res-Codes =
      switch-Codes (λ o. o.status) (λ x old. refl)
        (field-Codes (λ o. o.status) (λ v o. record o { status = v }) (λ o. refl)
          (xdr_nfsstat3-Codes rpc L))
        λ d.
          if-Codes
            (field-Codes (λ o. o.resok) (λ v o. record o { resok = v }) (λ o. refl)
              xdr_rename3resok-Codes)
            (field-Codes rename3resfail_lens.0 rename3resfail_lens.1 (λ o. refl)
              xdr_rename3resfail-Codes)
            (d == nfs3_ok)

  pub xdr_link3resok-Codes :
      Codes (xdr_link3resok rpc) IsLink3ResOk wire_link3resok decoded_link3resok
  unfolding xdr_link3resok
  xdr_link3resok-Codes =
      >=>-Codes
        (field-Codes (λ o. o.file_attributes) (λ v o. record o { file_attributes = v }) (λ o. refl)
          (xdr_post_op_attr-Codes rpc L))
        (field-Codes (λ o. o.linkdir_wcc) (λ v o. record o { linkdir_wcc = v }) (λ o. refl)
          (xdr_wcc_data-Codes rpc L))

  pub xdr_link3resfail-Codes :
      Codes (xdr_link3resfail rpc) IsLink3ResFail wire_link3resfail decoded_link3resfail
  unfolding xdr_link3resfail
  xdr_link3resfail-Codes =
      >=>-Codes
        (field-Codes (λ o. o.file_attributes) (λ v o. record o { file_attributes = v }) (λ o. refl)
          (xdr_post_op_attr-Codes rpc L))
        (field-Codes (λ o. o.linkdir_wcc) (λ v o. record o { linkdir_wcc = v }) (λ o. refl)
          (xdr_wcc_data-Codes rpc L))

  pub xdr_link3res-Codes : Codes (xdr_link3res rpc) IsLink3Res wire_link3res decoded_link3res
  unfolding xdr_link3res
  xdr_link3res-Codes =
      switch-Codes (λ o. o.status) (λ x old. refl)
        (field-Codes (λ o. o.status) (λ v o. record o { status = v }) (λ o. refl)
          (xdr_nfsstat3-Codes rpc L))
        λ d.
          if-Codes
            (field-Codes (λ o. o.resok) (λ v o. record o { resok = v }) (λ o. refl)
              xdr_link3resok-Codes)
            (field-Codes link3resfail_lens.0 link3resfail_lens.1 (λ o. refl) xdr_link3resfail-Codes)
            (d == nfs3_ok)
