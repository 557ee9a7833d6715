-- ===== src/Xdr/Laws/Attr.antt =====
-- The routines of unfs3/xdr.c for attributes and handles.
use unfs2go.Common.{◌==◌, refl}
use unfs2go.Types.Constants.{bool_true, bool_false, nfs3_fhsize}
use unfs2go.Xdr.Rpc.{Rpc, IsRpc}
use unfs2go.Xdr.Codes.{Codes, replaced, done-Codes, fail-Codes, >=>-Codes, if-Codes, field-Codes}
use unfs2go.Xdr.Codes.{switch-Codes}
use unfs2go.Wire.Attr.{
  IsSpecdata3, wire_specdata3, IsNfsFh3, wire_nfs_fh3, IsNfstime3, wire_nfstime3, IsFattr3,
}
use unfs2go.Wire.Attr.{
  wire_fattr3, IsPostOpAttr, wire_post_op_attr, decoded_post_op_attr, IsWccAttr, wire_wcc_attr,
  IsPreOpAttr,
}
use unfs2go.Wire.Attr.{
  wire_pre_op_attr, decoded_pre_op_attr, IsWccData, wire_wcc_data, decoded_wcc_data, IsPostOpFh3,
  wire_post_op_fh3,
}
use unfs2go.Wire.Attr.{decoded_post_op_fh3}
use unfs2go.Xdr.Attr.{
  xdr_specdata3, xdr_nfs_fh3, xdr_nfstime3, xdr_fattr3, xdr_post_op_attr, xdr_wcc_attr,
  xdr_pre_op_attr,
}
use unfs2go.Xdr.Attr.{xdr_wcc_data, xdr_post_op_fh3}
use unfs2go.Xdr.Laws.Basic.{
  xdr_uint32-Codes, xdr_uid3-Codes, xdr_gid3-Codes, xdr_mode3-Codes, xdr_uint64-Codes,
  xdr_fileid3-Codes, xdr_size3-Codes,
}
use unfs2go.Xdr.Laws.Basic.{xdr_ftype3-Codes}

module _ (rpc : Rpc) (L : IsRpc rpc) where
  pub xdr_specdata3-Codes : Codes (xdr_specdata3 rpc) IsSpecdata3 wire_specdata3 replaced
  unfolding xdr_specdata3
  xdr_specdata3-Codes =
      >=>-Codes
        (field-Codes (λ o. o.specdata1) (λ v o. record o { specdata1 = v }) (λ o. refl)
          (xdr_uint32-Codes rpc L))
        (field-Codes (λ o. o.specdata2) (λ v o. record o { specdata2 = v }) (λ o. refl)
          (xdr_uint32-Codes rpc L))

  pub xdr_nfs_fh3-Codes : Codes (xdr_nfs_fh3 rpc) IsNfsFh3 wire_nfs_fh3 replaced
  unfolding xdr_nfs_fh3
  xdr_nfs_fh3-Codes =
      field-Codes (λ o. o.data_buf) (λ v o. record o { data_buf = v }) (λ o. refl)
        (L.bytes nfs3_fhsize)

  pub xdr_nfstime3-Codes : Codes (xdr_nfstime3 rpc) IsNfstime3 wire_nfstime3 replaced
  unfolding xdr_nfstime3
  xdr_nfstime3-Codes =
      >=>-Codes
        (field-Codes (λ o. o.seconds) (λ v o. record o { seconds = v }) (λ o. refl)
          (xdr_uint32-Codes rpc L))
        (field-Codes (λ o. o.nseconds) (λ v o. record o { nseconds = v }) (λ o. refl)
          (xdr_uint32-Codes rpc L))

  pub xdr_fattr3-Codes : Codes (xdr_fattr3 rpc) IsFattr3 wire_fattr3 replaced
  unfolding xdr_fattr3
  xdr_fattr3-Codes =
      >=>-Codes
        (field-Codes (λ o. o.type) (λ v o. record o { type = v }) (λ o. refl)
          (xdr_ftype3-Codes rpc L))
        (>=>-Codes
          (field-Codes (λ o. o.mode) (λ v o. record o { mode = v }) (λ o. refl)
            (xdr_mode3-Codes rpc L))
          (>=>-Codes
            (field-Codes (λ o. o.nlink) (λ v o. record o { nlink = v }) (λ o. refl)
              (xdr_uint32-Codes rpc L))
            (>=>-Codes
              (field-Codes (λ o. o.uid) (λ v o. record o { uid = v }) (λ o. refl)
                (xdr_uid3-Codes rpc L))
              (>=>-Codes
                (field-Codes (λ o. o.gid) (λ v o. record o { gid = v }) (λ o. refl)
                  (xdr_gid3-Codes rpc L))
                (>=>-Codes
                  (field-Codes (λ o. o.size) (λ v o. record o { size = v }) (λ o. refl)
                    (xdr_size3-Codes rpc L))
                  (>=>-Codes
                    (field-Codes (λ o. o.used) (λ v o. record o { used = v }) (λ o. refl)
                      (xdr_size3-Codes rpc L))
                    (>=>-Codes
                      (field-Codes (λ o. o.rdev) (λ v o. record o { rdev = v }) (λ o. refl)
                        xdr_specdata3-Codes)
                      (>=>-Codes
                        (field-Codes (λ o. o.fsid) (λ v o. record o { fsid = v }) (λ o. refl)
                          (xdr_uint64-Codes rpc L))
                        (>=>-Codes
                          (field-Codes (λ o. o.fileid) (λ v o. record o { fileid = v }) (λ o. refl)
                            (xdr_fileid3-Codes rpc L))
                          (>=>-Codes
                            (field-Codes (λ o. o.atime) (λ v o. record o { atime = v }) (λ o. refl)
                              xdr_nfstime3-Codes)
                            (>=>-Codes
                              (field-Codes (λ o. o.mtime) (λ v o. record o { mtime = v })
                                (λ o. refl) xdr_nfstime3-Codes)
                              (field-Codes (λ o. o.ctime) (λ v o. record o { ctime = v })
                                (λ o. refl) xdr_nfstime3-Codes))))))))))))

  pub xdr_post_op_attr-Codes :
      Codes (xdr_post_op_attr rpc) IsPostOpAttr wire_post_op_attr decoded_post_op_attr
  unfolding xdr_post_op_attr
  xdr_post_op_attr-Codes =
      switch-Codes (λ o. o.attributes_follow) (λ x old. refl)
        (field-Codes (λ o. o.attributes_follow) (λ v o. record o { attributes_follow = v })
          (λ o. refl) L.bool)
        λ d.
          if-Codes
            (field-Codes (λ o. o.attributes) (λ v o. record o { attributes = v }) (λ o. refl)
              xdr_fattr3-Codes)
            (if-Codes done-Codes (fail-Codes) (d == bool_false)) (d == bool_true)

  pub xdr_wcc_attr-Codes : Codes (xdr_wcc_attr rpc) IsWccAttr wire_wcc_attr replaced
  unfolding xdr_wcc_attr
  xdr_wcc_attr-Codes =
      >=>-Codes
        (field-Codes (λ o. o.size) (λ v o. record o { size = v }) (λ o. refl)
          (xdr_size3-Codes rpc L))
        (>=>-Codes
          (field-Codes (λ o. o.mtime) (λ v o. record o { mtime = v }) (λ o. refl)
            xdr_nfstime3-Codes)
          (field-Codes (λ o. o.ctime) (λ v o. record o { ctime = v }) (λ o. refl)
            xdr_nfstime3-Codes))

  pub xdr_pre_op_attr-Codes :
      Codes (xdr_pre_op_attr rpc) IsPreOpAttr wire_pre_op_attr decoded_pre_op_attr
  unfolding xdr_pre_op_attr
  xdr_pre_op_attr-Codes =
      switch-Codes (λ o. o.attributes_follow) (λ x old. refl)
        (field-Codes (λ o. o.attributes_follow) (λ v o. record o { attributes_follow = v })
          (λ o. refl) L.bool)
        λ d.
          if-Codes
            (field-Codes (λ o. o.attributes) (λ v o. record o { attributes = v }) (λ o. refl)
              xdr_wcc_attr-Codes)
            (if-Codes done-Codes (fail-Codes) (d == bool_false)) (d == bool_true)

  pub xdr_wcc_data-Codes : Codes (xdr_wcc_data rpc) IsWccData wire_wcc_data decoded_wcc_data
  unfolding xdr_wcc_data
  xdr_wcc_data-Codes =
      >=>-Codes
        (field-Codes (λ o. o.before) (λ v o. record o { before = v }) (λ o. refl)
          xdr_pre_op_attr-Codes)
        (field-Codes (λ o. o.after) (λ v o. record o { after = v }) (λ o. refl)
          xdr_post_op_attr-Codes)

  pub xdr_post_op_fh3-Codes :
      Codes (xdr_post_op_fh3 rpc) IsPostOpFh3 wire_post_op_fh3 decoded_post_op_fh3
  unfolding xdr_post_op_fh3
  xdr_post_op_fh3-Codes =
      switch-Codes (λ o. o.handle_follows) (λ x old. refl)
        (field-Codes (λ o. o.handle_follows) (λ v o. record o { handle_follows = v }) (λ o. refl)
          L.bool)
        λ d.
          if-Codes
            (field-Codes (λ o. o.handle) (λ v o. record o { handle = v }) (λ o. refl)
              xdr_nfs_fh3-Codes)
            (if-Codes done-Codes (fail-Codes) (d == bool_false)) (d == bool_true)
