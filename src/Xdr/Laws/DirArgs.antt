-- ===== src/Xdr/Laws/DirArgs.antt =====
-- The routines of unfs3/xdr.c for the arguments of the procedures, MKNOD to COMMIT.
use unfs2go.Common.{◌==◌, refl}
use unfs2go.Types.Constants.{nf3blk, nf3chr, nf3sock, nf3fifo}
use unfs2go.Types.DirArgs.{pipe_attributes}
use unfs2go.Xdr.Rpc.{Rpc, IsRpc}
use unfs2go.Xdr.Codes.{Codes, replaced, done-Codes, >=>-Codes, if-Codes, field-Codes, switch-Codes}
use unfs2go.Wire.DirArgs.{
  IsDevicedata3, wire_devicedata3, decoded_devicedata3, IsMknoddata3, wire_mknoddata3,
  decoded_mknoddata3, IsMknod3Args,
}
use unfs2go.Wire.DirArgs.{
  wire_mknod3args, decoded_mknod3args, IsRemove3Args, wire_remove3args, IsRmdir3Args,
  wire_rmdir3args, IsRename3Args,
}
use unfs2go.Wire.DirArgs.{
  wire_rename3args, IsLink3Args, wire_link3args, IsReaddir3Args, wire_readdir3args,
  IsReaddirplus3Args, wire_readdirplus3args,
}
use unfs2go.Wire.DirArgs.{
  IsFsstat3Args, wire_fsstat3args, IsFsinfo3Args, wire_fsinfo3args, IsPathconf3Args,
  wire_pathconf3args, IsCommit3Args,
}
use unfs2go.Wire.DirArgs.{wire_commit3args}
use unfs2go.Xdr.DirArgs.{
  xdr_devicedata3, xdr_mknoddata3, xdr_mknod3args, xdr_remove3args, xdr_rmdir3args, xdr_rename3args,
  xdr_link3args,
}
use unfs2go.Xdr.DirArgs.{
  xdr_readdir3args, xdr_readdirplus3args, xdr_fsstat3args, xdr_fsinfo3args, xdr_pathconf3args,
  xdr_commit3args,
}
use unfs2go.Xdr.Laws.Basic.{
  xdr_count3-Codes, xdr_cookie3-Codes, xdr_offset3-Codes, xdr_ftype3-Codes, xdr_cookieverf3-Codes,
}
use unfs2go.Xdr.Laws.Attr.{xdr_specdata3-Codes, xdr_nfs_fh3-Codes}
use unfs2go.Xdr.Laws.Sattr.{xdr_sattr3-Codes, xdr_diropargs3-Codes}

module _ (rpc : Rpc) (L : IsRpc rpc) where
  pub xdr_devicedata3-Codes :
      Codes (xdr_devicedata3 rpc) IsDevicedata3 wire_devicedata3 decoded_devicedata3
  unfolding xdr_devicedata3
  xdr_devicedata3-Codes =
      >=>-Codes
        (field-Codes (λ o. o.dev_attributes) (λ v o. record o { dev_attributes = v }) (λ o. refl)
          (xdr_sattr3-Codes rpc L))
        (field-Codes (λ o. o.spec) (λ v o. record o { spec = v }) (λ o. refl)
          (xdr_specdata3-Codes rpc L))

  pub xdr_mknoddata3-Codes :
      Codes (xdr_mknoddata3 rpc) IsMknoddata3 wire_mknoddata3 decoded_mknoddata3
  unfolding xdr_mknoddata3
  xdr_mknoddata3-Codes =
      switch-Codes (λ o. o.type) (λ x old. refl)
        (field-Codes (λ o. o.type) (λ v o. record o { type = v }) (λ o. refl)
          (xdr_ftype3-Codes rpc L))
        λ d.
          if-Codes
            (field-Codes (λ o. o.device) (λ v o. record o { device = v }) (λ o. refl)
              xdr_devicedata3-Codes)
            (if-Codes
              (field-Codes (λ o. o.device) (λ v o. record o { device = v }) (λ o. refl)
                xdr_devicedata3-Codes)
              (if-Codes
                (field-Codes pipe_attributes.0 pipe_attributes.1 (λ o. refl)
                  (xdr_sattr3-Codes rpc L))
                (if-Codes
                  (field-Codes pipe_attributes.0 pipe_attributes.1 (λ o. refl)
                    (xdr_sattr3-Codes rpc L))
                  (done-Codes) (d == nf3fifo))
                (d == nf3sock))
              (d == nf3blk))
            (d == nf3chr)

  pub xdr_mknod3args-Codes :
      Codes (xdr_mknod3args rpc) IsMknod3Args wire_mknod3args decoded_mknod3args
  unfolding xdr_mknod3args
  xdr_mknod3args-Codes =
      >=>-Codes
        (field-Codes (λ o. o.where_args) (λ v o. record o { where_args = v }) (λ o. refl)
          (xdr_diropargs3-Codes rpc L))
        (field-Codes (λ o. o.what) (λ v o. record o { what = v }) (λ o. refl) xdr_mknoddata3-Codes)

  pub xdr_remove3args-Codes : Codes (xdr_remove3args rpc) IsRemove3Args wire_remove3args replaced
  unfolding xdr_remove3args
  xdr_remove3args-Codes =
      field-Codes (λ o. o.object) (λ v o. record o { object = v }) (λ o. refl)
        (xdr_diropargs3-Codes rpc L)

  pub xdr_rmdir3args-Codes : Codes (xdr_rmdir3args rpc) IsRmdir3Args wire_rmdir3args replaced
  unfolding xdr_rmdir3args
  xdr_rmdir3args-Codes =
      field-Codes (λ o. o.object) (λ v o. record o { object = v }) (λ o. refl)
        (xdr_diropargs3-Codes rpc L)

  pub xdr_rename3args-Codes : Codes (xdr_rename3args rpc) IsRename3Args wire_rename3args replaced
  unfolding xdr_rename3args
  xdr_rename3args-Codes =
      >=>-Codes
        (field-Codes (λ o. o.from) (λ v o. record o { from = v }) (λ o. refl)
          (xdr_diropargs3-Codes rpc L))
        (field-Codes (λ o. o.to) (λ v o. record o { to = v }) (λ o. refl)
          (xdr_diropargs3-Codes rpc L))

  pub xdr_link3args-Codes : Codes (xdr_link3args rpc) IsLink3Args wire_link3args replaced
  unfolding xdr_link3args
  xdr_link3args-Codes =
      >=>-Codes
        (field-Codes (λ o. o.file) (λ v o. record o { file = v }) (λ o. refl)
          (xdr_nfs_fh3-Codes rpc L))
        (field-Codes (λ o. o.link) (λ v o. record o { link = v }) (λ o. refl)
          (xdr_diropargs3-Codes rpc L))

  pub xdr_readdir3args-Codes :
      Codes (xdr_readdir3args rpc) IsReaddir3Args wire_readdir3args replaced
  unfolding xdr_readdir3args
  xdr_readdir3args-Codes =
      >=>-Codes
        (field-Codes (λ o. o.dir) (λ v o. record o { dir = v }) (λ o. refl)
          (xdr_nfs_fh3-Codes rpc L))
        (>=>-Codes
          (field-Codes (λ o. o.cookie) (λ v o. record o { cookie = v }) (λ o. refl)
            (xdr_cookie3-Codes rpc L))
          (>=>-Codes
            (field-Codes (λ o. o.cookieverf) (λ v o. record o { cookieverf = v }) (λ o. refl)
              (xdr_cookieverf3-Codes rpc L))
            (field-Codes (λ o. o.count) (λ v o. record o { count = v }) (λ o. refl)
              (xdr_count3-Codes rpc L))))

  pub xdr_readdirplus3args-Codes :
      Codes (xdr_readdirplus3args rpc) IsReaddirplus3Args wire_readdirplus3args replaced
  unfolding xdr_readdirplus3args
  xdr_readdirplus3args-Codes =
      >=>-Codes
        (field-Codes (λ o. o.dir) (λ v o. record o { dir = v }) (λ o. refl)
          (xdr_nfs_fh3-Codes rpc L))
        (>=>-Codes
          (field-Codes (λ o. o.cookie) (λ v o. record o { cookie = v }) (λ o. refl)
            (xdr_cookie3-Codes rpc L))
          (>=>-Codes
            (field-Codes (λ o. o.cookieverf) (λ v o. record o { cookieverf = v }) (λ o. refl)
              (xdr_cookieverf3-Codes rpc L))
            (>=>-Codes
              (field-Codes (λ o. o.dircount) (λ v o. record o { dircount = v }) (λ o. refl)
                (xdr_count3-Codes rpc L))
              (field-Codes (λ o. o.maxcount) (λ v o. record o { maxcount = v }) (λ o. refl)
                (xdr_count3-Codes rpc L)))))

  pub xdr_fsstat3args-Codes : Codes (xdr_fsstat3args rpc) IsFsstat3Args wire_fsstat3args replaced
  unfolding xdr_fsstat3args
  xdr_fsstat3args-Codes =
      field-Codes (λ o. o.fsroot) (λ v o. record o { fsroot = v }) (λ o. refl)
        (xdr_nfs_fh3-Codes rpc L)

  pub xdr_fsinfo3args-Codes : Codes (xdr_fsinfo3args rpc) IsFsinfo3Args wire_fsinfo3args replaced
  unfolding xdr_fsinfo3args
  xdr_fsinfo3args-Codes =
      field-Codes (λ o. o.fsroot) (λ v o. record o { fsroot = v }) (λ o. refl)
        (xdr_nfs_fh3-Codes rpc L)

  pub xdr_pathconf3args-Codes :
      Codes (xdr_pathconf3args rpc) IsPathconf3Args wire_pathconf3args replaced
  unfolding xdr_pathconf3args
  xdr_pathconf3args-Codes =
      field-Codes (λ o. o.object) (λ v o. record o { object = v }) (λ o. refl)
        (xdr_nfs_fh3-Codes rpc L)

  pub xdr_commit3args-Codes : Codes (xdr_commit3args rpc) IsCommit3Args wire_commit3args replaced
  unfolding xdr_commit3args
  xdr_commit3args-Codes =
      >=>-Codes
        (field-Codes (λ o. o.file) (λ v o. record o { file = v }) (λ o. refl)
          (xdr_nfs_fh3-Codes rpc L))
        (>=>-Codes
          (field-Codes (λ o. o.offset) (λ v o. record o { offset = v }) (λ o. refl)
            (xdr_offset3-Codes rpc L))
          (field-Codes (λ o. o.count) (λ v o. record o { count = v }) (λ o. refl)
            (xdr_count3-Codes rpc L)))
