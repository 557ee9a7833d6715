-- ===== src/Xdr/Args.antt =====
-- unfs3/xdr.c: the arguments of the procedures, GETATTR to SYMLINK.
use unfs2go.Common.{◌==◌, if◌then◌else◌}
use unfs2go.Xdr.Stream.{Filter, field, ◌>=>◌, switch, fail}
use unfs2go.Types.Constants.{unchecked, guarded, exclusive, u32_max}
use unfs2go.Types.Args.{
  Getattr3Args, Setattr3Args, Lookup3Args, Access3Args, Readlink3Args, Read3Args, Write3Args,
}
use unfs2go.Types.Args.{Createhow3, Create3Args, Mkdir3Args, Symlinkdata3, Symlink3Args}
use unfs2go.Xdr.Rpc.{Rpc}
use unfs2go.Xdr.Basic.{
  xdr_uint32, xdr_count3, xdr_offset3, xdr_stable_how, xdr_createmode3, xdr_createverf3,
  xdr_nfspath3,
}
use unfs2go.Xdr.Attr.{xdr_nfs_fh3}
use unfs2go.Xdr.Sattr.{xdr_sattr3, xdr_diropargs3, xdr_sattrguard3}

module _ (rpc : Rpc) where
  unfoldable pub xdr_getattr3args : Filter Getattr3Args
  xdr_getattr3args = field (λ o. o.object) (λ v o. record o { object = v }) (xdr_nfs_fh3 rpc)

  unfoldable pub xdr_setattr3args : Filter Setattr3Args
  xdr_setattr3args =
      field (λ o. o.object) (λ v o. record o { object = v }) (xdr_nfs_fh3 rpc)
      >=> field (λ o. o.new_attributes) (λ v o. record o { new_attributes = v }) (xdr_sattr3 rpc)
      >=> field (λ o. o.guard) (λ v o. record o { guard = v }) (xdr_sattrguard3 rpc)

  unfoldable pub xdr_lookup3args : Filter Lookup3Args
  xdr_lookup3args = field (λ o. o.what) (λ v o. record o { what = v }) (xdr_diropargs3 rpc)

  unfoldable pub xdr_access3args : Filter Access3Args
  xdr_access3args =
      field (λ o. o.object) (λ v o. record o { object = v }) (xdr_nfs_fh3 rpc)
      >=> field (λ o. o.access) (λ v o. record o { access = v }) (xdr_uint32 rpc)

  unfoldable pub xdr_readlink3args : Filter Readlink3Args
  xdr_readlink3args = field (λ o. o.symlink) (λ v o. record o { symlink = v }) (xdr_nfs_fh3 rpc)

  unfoldable pub xdr_read3args : Filter Read3Args
  xdr_read3args =
      field (λ o. o.file) (λ v o. record o { file = v }) (xdr_nfs_fh3 rpc)
      >=> field (λ o. o.offset) (λ v o. record o { offset = v }) (xdr_offset3 rpc)
      >=> field (λ o. o.count) (λ v o. record o { count = v }) (xdr_count3 rpc)

  unfoldable pub xdr_write3args : Filter Write3Args
  xdr_write3args =
      field (λ o. o.file) (λ v o. record o { file = v }) (xdr_nfs_fh3 rpc)
      >=> field (λ o. o.offset) (λ v o. record o { offset = v }) (xdr_offset3 rpc)
      >=> field (λ o. o.count) (λ v o. record o { count = v }) (xdr_count3 rpc)
      >=> field (λ o. o.stable) (λ v o. record o { stable = v }) (xdr_stable_how rpc)
      >=> field (λ o. o.data_buf) (λ v o. record o { data_buf = v }) (rpc.xdr_bytes u32_max)

  unfoldable pub xdr_createhow3 : Filter Createhow3
  xdr_createhow3 =
      field (λ o. o.mode) (λ v o. record o { mode = v }) (xdr_createmode3 rpc)
      >=> switch (λ o. o.mode)
          λ d.
            if d == unchecked
            then field (λ o. o.obj_attributes) (λ v o. record o { obj_attributes = v })
                (xdr_sattr3 rpc)
            else if d == guarded
            then field (λ o. o.obj_attributes) (λ v o. record o { obj_attributes = v })
                (xdr_sattr3 rpc)
            else if d == exclusive
            then field (λ o. o.verf) (λ v o. record o { verf = v }) (xdr_createverf3 rpc)
            else fail

  unfoldable pub xdr_create3args : Filter Create3Args
  xdr_create3args =
      field (λ o. o.where_args) (λ v o. record o { where_args = v }) (xdr_diropargs3 rpc)
      >=> field (λ o. o.how) (λ v o. record o { how = v }) xdr_createhow3

  unfoldable pub xdr_mkdir3args : Filter Mkdir3Args
  xdr_mkdir3args =
      field (λ o. o.where_args) (λ v o. record o { where_args = v }) (xdr_diropargs3 rpc)
      >=> field (λ o. o.attributes) (λ v o. record o { attributes = v }) (xdr_sattr3 rpc)

  unfoldable pub xdr_symlinkdata3 : Filter Symlinkdata3
  xdr_symlinkdata3 =
      field (λ o. o.symlink_attributes) (λ v o. record o { symlink_attributes = v })
        (xdr_sattr3 rpc)
      >=> field (λ o. o.symlink_data) (λ v o. record o { symlink_data = v }) (xdr_nfspath3 rpc)

  unfoldable pub xdr_symlink3args : Filter Symlink3Args
  xdr_symlink3args =
      field (λ o. o.where_args) (λ v o. record o { where_args = v }) (xdr_diropargs3 rpc)
      >=> field (λ o. o.symlink) (λ v o. record o { symlink = v }) xdr_symlinkdata3
