-- ===== src/Xdr/Laws/Args.antt =====
-- The routines of unfs3/xdr.c for the arguments of the procedures, GETATTR to SYMLINK.
use unfs2go.Common.{◌==◌, refl}
use unfs2go.Types.Constants.{unchecked, guarded, exclusive, u32_max}
use unfs2go.Xdr.Rpc.{Rpc, IsRpc}
use unfs2go.Xdr.Codes.{Codes, replaced, fail-Codes, >=>-Codes, if-Codes, field-Codes, switch-Codes}
use unfs2go.Wire.Args.{
  IsGetattr3Args, wire_getattr3args, IsSetattr3Args, wire_setattr3args, decoded_setattr3args,
  IsLookup3Args, wire_lookup3args,
}
use unfs2go.Wire.Args.{
  IsAccess3Args, wire_access3args, IsReadlink3Args, wire_readlink3args, IsRead3Args, wire_read3args,
  IsWrite3Args,
}
use unfs2go.Wire.Args.{
  wire_write3args, IsCreatehow3, wire_createhow3, decoded_createhow3, IsCreate3Args,
  wire_create3args, decoded_create3args,
}
use unfs2go.Wire.Args.{
  IsMkdir3Args, wire_mkdir3args, decoded_mkdir3args, IsSymlinkdata3, wire_symlinkdata3,
  decoded_symlinkdata3, IsSymlink3Args,
}
use unfs2go.Wire.Args.{wire_symlink3args, decoded_symlink3args}
use unfs2go.Xdr.Args.{
  xdr_getattr3args, xdr_setattr3args, xdr_lookup3args, xdr_access3args, xdr_readlink3args,
  xdr_read3args, xdr_write3args,
}
use unfs2go.Xdr.Args.{
  xdr_createhow3, xdr_create3args, xdr_mkdir3args, xdr_symlinkdata3, xdr_symlink3args,
}
use unfs2go.Xdr.Laws.Basic.{
  xdr_uint32-Codes, xdr_count3-Codes, xdr_offset3-Codes, xdr_stable_how-Codes,
  xdr_createmode3-Codes, xdr_createverf3-Codes, xdr_nfspath3-Codes,
}
use unfs2go.Xdr.Laws.Attr.{xdr_nfs_fh3-Codes}
use unfs2go.Xdr.Laws.Sattr.{xdr_sattr3-Codes, xdr_diropargs3-Codes, xdr_sattrguard3-Codes}

module _ (rpc : Rpc) (L : IsRpc rpc) where
  pub xdr_getattr3args-Codes :
      Codes (xdr_getattr3args rpc) IsGetattr3Args wire_getattr3args replaced
  unfolding xdr_getattr3args
  xdr_getattr3args-Codes =
      field-Codes (λ o. o.object) (λ v o. record o { object = v }) (λ o. refl)
        (xdr_nfs_fh3-Codes rpc L)

  pub xdr_setattr3args-Codes :
      Codes (xdr_setattr3args rpc) IsSetattr3Args wire_setattr3args decoded_setattr3args
  unfolding xdr_setattr3args
  xdr_setattr3args-Codes =
      >=>-Codes
        (field-Codes (λ o. o.object) (λ v o. record o { object = v }) (λ o. refl)
          (xdr_nfs_fh3-Codes rpc L))
        (>=>-Codes
          (field-Codes (λ o. o.new_attributes) (λ v o. record o { new_attributes = v }) (λ o. refl)
            (xdr_sattr3-Codes rpc L))
          (field-Codes (λ o. o.guard) (λ v o. record o { guard = v }) (λ o. refl)
            (xdr_sattrguard3-Codes rpc L)))

  pub xdr_lookup3args-Codes : Codes (xdr_lookup3args rpc) IsLookup3Args wire_lookup3args replaced
  unfolding xdr_lookup3args
  xdr_lookup3args-Codes =
      field-Codes (λ o. o.what) (λ v o. record o { what = v }) (λ o. refl)
        (xdr_diropargs3-Codes rpc L)

  pub xdr_access3args-Codes : Codes (xdr_access3args rpc) IsAccess3Args wire_access3args replaced
  unfolding xdr_access3args
  xdr_access3args-Codes =
      >=>-Codes
        (field-Codes (λ o. o.object) (λ v o. record o { object = v }) (λ o. refl)
          (xdr_nfs_fh3-Codes rpc L))
        (field-Codes (λ o. o.access) (λ v o. record o { access = v }) (λ o. refl)
          (xdr_uint32-Codes rpc L))

  pub xdr_readlink3args-Codes :
      Codes (xdr_readlink3args rpc) IsReadlink3Args wire_readlink3args replaced
  unfolding xdr_readlink3args
  xdr_readlink3args-Codes =
      field-Codes (λ o. o.symlink) (λ v o. record o { symlink = v }) (λ o. refl)
        (xdr_nfs_fh3-Codes rpc L)

  pub xdr_read3args-Codes : Codes (xdr_read3args rpc) IsRead3Args wire_read3args replaced
  unfolding xdr_read3args
  xdr_read3args-Codes =
      >=>-Codes
        (field-Codes (λ o. o.file) (λ v o. record o { file = v }) (λ o. refl)
          (xdr_nfs_fh3-Codes rpc L))
        (>=>-Codes
          (field-Codes (λ o. o.offset) (λ v o. record o { offset = v }) (λ o. refl)
            (xdr_offset3-Codes rpc L))
          (field-Codes (λ o. o.count) (λ v o. record o { count = v }) (λ o. refl)
            (xdr_count3-Codes rpc L)))

  pub xdr_write3args-Codes : Codes (xdr_write3args rpc) IsWrite3Args wire_write3args replaced
  unfolding xdr_write3args
  xdr_write3args-Codes =
      >=>-Codes
        (field-Codes (λ o. o.file) (λ v o. record o { file = v }) (λ o. refl)
          (xdr_nfs_fh3-Codes rpc L))
        (>=>-Codes
          (field-Codes (λ o. o.offset) (λ v o. record o { offset = v }) (λ o. refl)
            (xdr_offset3-Codes rpc L))
          (>=>-Codes
            (field-Codes (λ o. o.count) (λ v o. record o { count = v }) (λ o. refl)
              (xdr_count3-Codes rpc L))
            (>=>-Codes
              (field-Codes (λ o. o.stable) (λ v o. record o { stable = v }) (λ o. refl)
                (xdr_stable_how-Codes rpc L))
              (field-Codes (λ o. o.data_buf) (λ v o. record o { data_buf = v }) (λ o. refl)
                (L.bytes u32_max)))))

  pub xdr_createhow3-Codes :
      Codes (xdr_createhow3 rpc) IsCreatehow3 wire_createhow3 decoded_createhow3
  unfolding xdr_createhow3
  xdr_createhow3-Codes =
      switch-Codes (λ o. o.mode) (λ x old. refl)
        (field-Codes (λ o. o.mode) (λ v o. record o { mode = v }) (λ o. refl)
          (xdr_createmode3-Codes rpc L))
        λ d.
          if-Codes
            (field-Codes (λ o. o.obj_attributes) (λ v o. record o { obj_attributes = v })
              (λ o. refl) (xdr_sattr3-Codes rpc L))
            (if-Codes
              (field-Codes (λ o. o.obj_attributes) (λ v o. record o { obj_attributes = v })
                (λ o. refl) (xdr_sattr3-Codes rpc L))
              (if-Codes
                (field-Codes (λ o. o.verf) (λ v o. record o { verf = v }) (λ o. refl)
                  (xdr_createverf3-Codes rpc L))
                (fail-Codes) (d == exclusive))
              (d == guarded))
            (d == unchecked)

  pub xdr_create3args-Codes :
      Codes (xdr_create3args rpc) IsCreate3Args wire_create3args decoded_create3args
  unfolding xdr_create3args
  xdr_create3args-Codes =
      >=>-Codes
        (field-Codes (λ o. o.where_args) (λ v o. record o { where_args = v }) (λ o. refl)
          (xdr_diropargs3-Codes rpc L))
        (field-Codes (λ o. o.how) (λ v o. record o { how = v }) (λ o. refl) xdr_createhow3-Codes)

  pub xdr_mkdir3args-Codes :
      Codes (xdr_mkdir3args rpc) IsMkdir3Args wire_mkdir3args decoded_mkdir3args
  unfolding xdr_mkdir3args
  xdr_mkdir3args-Codes =
      >=>-Codes
        (field-Codes (λ o. o.where_args) (λ v o. record o { where_args = v }) (λ o. refl)
          (xdr_diropargs3-Codes rpc L))
        (field-Codes (λ o. o.attributes) (λ v o. record o { attributes = v }) (λ o. refl)
          (xdr_sattr3-Codes rpc L))

  pub xdr_symlinkdata3-Codes :
      Codes (xdr_symlinkdata3 rpc) IsSymlinkdata3 wire_symlinkdata3 decoded_symlinkdata3
  unfolding xdr_symlinkdata3
  xdr_symlinkdata3-Codes =
      >=>-Codes
        (field-Codes (λ o. o.symlink_attributes) (λ v o. record o { symlink_attributes = v })
          (λ o. refl) (xdr_sattr3-Codes rpc L))
        (field-Codes (λ o. o.symlink_data) (λ v o. record o { symlink_data = v }) (λ o. refl)
          (xdr_nfspath3-Codes rpc L))

  pub xdr_symlink3args-Codes :
      Codes (xdr_symlink3args rpc) IsSymlink3Args wire_symlink3args decoded_symlink3args
  unfolding xdr_symlink3args
  xdr_symlink3args-Codes =
      >=>-Codes
        (field-Codes (λ o. o.where_args) (λ v o. record o { where_args = v }) (λ o. refl)
          (xdr_diropargs3-Codes rpc L))
        (field-Codes (λ o. o.symlink) (λ v o. record o { symlink = v }) (λ o. refl)
          xdr_symlinkdata3-Codes)
