-- ===== src/Xdr/Laws/Sattr.antt =====
-- The routines of unfs3/xdr.c for settable attributes and directory operations.
use unfs2go.Common.{◌==◌, refl}
use unfs2go.Types.Constants.{set_to_client_time, bool_true, bool_false}
use unfs2go.Xdr.Rpc.{Rpc, IsRpc}
use unfs2go.Xdr.Codes.{Codes, replaced, done-Codes, fail-Codes, >=>-Codes, if-Codes, field-Codes}
use unfs2go.Xdr.Codes.{switch-Codes}
use unfs2go.Wire.Sattr.{
  IsSetMode3, wire_set_mode3, decoded_set_mode3, IsSetUid3, wire_set_uid3, decoded_set_uid3,
  IsSetGid3,
}
use unfs2go.Wire.Sattr.{
  wire_set_gid3, decoded_set_gid3, IsSetSize3, wire_set_size3, decoded_set_size3, IsSetAtime,
  wire_set_atime,
}
use unfs2go.Wire.Sattr.{
  decoded_set_atime, IsSetMtime, wire_set_mtime, decoded_set_mtime, IsSattr3, wire_sattr3,
  decoded_sattr3,
}
use unfs2go.Wire.Sattr.{
  IsDiropargs3, wire_diropargs3, IsSattrguard3, wire_sattrguard3, decoded_sattrguard3,
}
use unfs2go.Xdr.Sattr.{
  xdr_set_mode3, xdr_set_uid3, xdr_set_gid3, xdr_set_size3, xdr_set_atime, xdr_set_mtime,
  xdr_sattr3,
}
use unfs2go.Xdr.Sattr.{xdr_diropargs3, xdr_sattrguard3}
use unfs2go.Xdr.Laws.Basic.{
  xdr_uid3-Codes, xdr_gid3-Codes, xdr_mode3-Codes, xdr_size3-Codes, xdr_time_how-Codes,
  xdr_filename3-Codes,
}
use unfs2go.Xdr.Laws.Attr.{xdr_nfs_fh3-Codes, xdr_nfstime3-Codes}

module _ (rpc : Rpc) (L : IsRpc rpc) where
  pub xdr_set_mode3-Codes : Codes (xdr_set_mode3 rpc) IsSetMode3 wire_set_mode3 decoded_set_mode3
  unfolding xdr_set_mode3
  xdr_set_mode3-Codes =
      switch-Codes (λ o. o.set_it) (λ x old. refl)
        (field-Codes (λ o. o.set_it) (λ v o. record o { set_it = v }) (λ o. refl) L.bool)
        λ d.
          if-Codes
            (field-Codes (λ o. o.mode) (λ v o. record o { mode = v }) (λ o. refl)
              (xdr_mode3-Codes rpc L))
            (done-Codes) (d == bool_true)

  pub xdr_set_uid3-Codes : Codes (xdr_set_uid3 rpc) IsSetUid3 wire_set_uid3 decoded_set_uid3
  unfolding xdr_set_uid3
  xdr_set_uid3-Codes =
      switch-Codes (λ o. o.set_it) (λ x old. refl)
        (field-Codes (λ o. o.set_it) (λ v o. record o { set_it = v }) (λ o. refl) L.bool)
        λ d.
          if-Codes
            (field-Codes (λ o. o.uid) (λ v o. record o { uid = v }) (λ o. refl)
              (xdr_uid3-Codes rpc L))
            (done-Codes) (d == bool_true)

  pub xdr_set_gid3-Codes : Codes (xdr_set_gid3 rpc) IsSetGid3 wire_set_gid3 decoded_set_gid3
  unfolding xdr_set_gid3
  xdr_set_gid3-Codes =
      switch-Codes (λ o. o.set_it) (λ x old. refl)
        (field-Codes (λ o. o.set_it) (λ v o. record o { set_it = v }) (λ o. refl) L.bool)
        λ d.
          if-Codes
            (field-Codes (λ o. o.gid) (λ v o. record o { gid = v }) (λ o. refl)
              (xdr_gid3-Codes rpc L))
            (done-Codes) (d == bool_true)

  pub xdr_set_size3-Codes : Codes (xdr_set_size3 rpc) IsSetSize3 wire_set_size3 decoded_set_size3
  unfolding xdr_set_size3
  xdr_set_size3-Codes =
      switch-Codes (λ o. o.set_it) (λ x old. refl)
        (field-Codes (λ o. o.set_it) (λ v o. record o { set_it = v }) (λ o. refl) L.bool)
        λ d.
          if-Codes
            (field-Codes (λ o. o.size) (λ v o. record o { size = v }) (λ o. refl)
              (xdr_size3-Codes rpc L))
            (done-Codes) (d == bool_true)

  pub xdr_set_atime-Codes : Codes (xdr_set_atime rpc) IsSetAtime wire_set_atime decoded_set_atime
  unfolding xdr_set_atime
  xdr_set_atime-Codes =
      switch-Codes (λ o. o.set_it) (λ x old. refl)
        (field-Codes (λ o. o.set_it) (λ v o. record o { set_it = v }) (λ o. refl)
          (xdr_time_how-Codes rpc L))
        λ d.
          if-Codes
            (field-Codes (λ o. o.atime) (λ v o. record o { atime = v }) (λ o. refl)
              (xdr_nfstime3-Codes rpc L))
            (done-Codes) (d == set_to_client_time)

  pub xdr_set_mtime-Codes : Codes (xdr_set_mtime rpc) IsSetMtime wire_set_mtime decoded_set_mtime
  unfolding xdr_set_mtime
  xdr_set_mtime-Codes =
      switch-Codes (λ o. o.set_it) (λ x old. refl)
        (field-Codes (λ o. o.set_it) (λ v o. record o { set_it = v }) (λ o. refl)
          (xdr_time_how-Codes rpc L))
        λ d.
          if-Codes
            (field-Codes (λ o. o.mtime) (λ v o. record o { mtime = v }) (λ o. refl)
              (xdr_nfstime3-Codes rpc L))
            (done-Codes) (d == set_to_client_time)

  pub xdr_sattr3-Codes : Codes (xdr_sattr3 rpc) IsSattr3 wire_sattr3 decoded_sattr3
  unfolding xdr_sattr3
  xdr_sattr3-Codes =
      >=>-Codes
        (field-Codes (λ o. o.mode) (λ v o. record o { mode = v }) (λ o. refl) xdr_set_mode3-Codes)
        (>=>-Codes
          (field-Codes (λ o. o.uid) (λ v o. record o { uid = v }) (λ o. refl) xdr_set_uid3-Codes)
          (>=>-Codes
            (field-Codes (λ o. o.gid) (λ v o. record o { gid = v }) (λ o. refl) xdr_set_gid3-Codes)
            (>=>-Codes
              (field-Codes (λ o. o.size) (λ v o. record o { size = v }) (λ o. refl)
                xdr_set_size3-Codes)
              (>=>-Codes
                (field-Codes (λ o. o.atime) (λ v o. record o { atime = v }) (λ o. refl)
                  xdr_set_atime-Codes)
                (field-Codes (λ o. o.mtime) (λ v o. record o { mtime = v }) (λ o. refl)
                  xdr_set_mtime-Codes)))))

  pub xdr_diropargs3-Codes : Codes (xdr_diropargs3 rpc) IsDiropargs3 wire_diropargs3 replaced
  unfolding xdr_diropargs3
  xdr_diropargs3-Codes =
      >=>-Codes
        (field-Codes (λ o. o.dir) (λ v o. record o { dir = v }) (λ o. refl)
          (xdr_nfs_fh3-Codes rpc L))
        (field-Codes (λ o. o.name) (λ v o. record o { name = v }) (λ o. refl)
          (xdr_filename3-Codes rpc L))

  pub xdr_sattrguard3-Codes :
      Codes (xdr_sattrguard3 rpc) IsSattrguard3 wire_sattrguard3 decoded_sattrguard3
  unfolding xdr_sattrguard3
  xdr_sattrguard3-Codes =
      switch-Codes (λ o. o.check) (λ x old. refl)
        (field-Codes (λ o. o.check) (λ v o. record o { check = v }) (λ o. refl) L.bool)
        λ d.
          if-Codes
            (field-Codes (λ o. o.obj_ctime) (λ v o. record o { obj_ctime = v }) (λ o. refl)
              (xdr_nfstime3-Codes rpc L))
            (if-Codes done-Codes (fail-Codes) (d == bool_false)) (d == bool_true)
