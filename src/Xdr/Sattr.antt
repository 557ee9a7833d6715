-- ===== src/Xdr/Sattr.antt =====
-- unfs3/xdr.c: settable attributes and directory operations.
use unfs2go.Common.{◌==◌, if◌then◌else◌}
use unfs2go.Xdr.Stream.{Filter, field, ◌>=>◌, switch, done, fail}
use unfs2go.Types.Constants.{set_to_client_time, bool_true, bool_false}
use unfs2go.Types.Sattr.{SetMode3, SetUid3, SetGid3, SetSize3, SetAtime, SetMtime, Sattr3}
use unfs2go.Types.Sattr.{Diropargs3, Sattrguard3}
use unfs2go.Xdr.Rpc.{Rpc}
use unfs2go.Xdr.Basic.{xdr_uid3, xdr_gid3, xdr_mode3, xdr_size3, xdr_time_how, xdr_filename3}
use unfs2go.Xdr.Attr.{xdr_nfs_fh3, xdr_nfstime3}

module _ (rpc : Rpc) where
  unfoldable pub xdr_set_mode3 : Filter SetMode3
  xdr_set_mode3 =
      field (λ o. o.set_it) (λ v o. record o { set_it = v }) (rpc.xdr_bool)
      >=> switch (λ o. o.set_it)
          λ d.
            if d == bool_true
            then field (λ o. o.mode) (λ v o. record o { mode = v }) (xdr_mode3 rpc)
            else done

  unfoldable pub xdr_set_uid3 : Filter SetUid3
  xdr_set_uid3 =
      field (λ o. o.set_it) (λ v o. record o { set_it = v }) (rpc.xdr_bool)
      >=> switch (λ o. o.set_it)
          λ d.
            if d == bool_true
            then field (λ o. o.uid) (λ v o. record o { uid = v }) (xdr_uid3 rpc)
            else done

  unfoldable pub xdr_set_gid3 : Filter SetGid3
  xdr_set_gid3 =
      field (λ o. o.set_it) (λ v o. record o { set_it = v }) (rpc.xdr_bool)
      >=> switch (λ o. o.set_it)
          λ d.
            if d == bool_true
            then field (λ o. o.gid) (λ v o. record o { gid = v }) (xdr_gid3 rpc)
            else done

  unfoldable pub xdr_set_size3 : Filter SetSize3
  xdr_set_size3 =
      field (λ o. o.set_it) (λ v o. record o { set_it = v }) (rpc.xdr_bool)
      >=> switch (λ o. o.set_it)
          λ d.
            if d == bool_true
            then field (λ o. o.size) (λ v o. record o { size = v }) (xdr_size3 rpc)
            else done

  unfoldable pub xdr_set_atime : Filter SetAtime
  xdr_set_atime =
      field (λ o. o.set_it) (λ v o. record o { set_it = v }) (xdr_time_how rpc)
      >=> switch (λ o. o.set_it)
          λ d.
            if d == set_to_client_time
            then field (λ o. o.atime) (λ v o. record o { atime = v }) (xdr_nfstime3 rpc)
            else done

  unfoldable pub xdr_set_mtime : Filter SetMtime
  xdr_set_mtime =
      field (λ o. o.set_it) (λ v o. record o { set_it = v }) (xdr_time_how rpc)
      >=> switch (λ o. o.set_it)
          λ d.
            if d == set_to_client_time
            then field (λ o. o.mtime) (λ v o. record o { mtime = v }) (xdr_nfstime3 rpc)
            else done

  unfoldable pub xdr_sattr3 : Filter Sattr3
  xdr_sattr3 =
      field (λ o. o.mode) (λ v o. record o { mode = v }) xdr_set_mode3
      >=> field (λ o. o.uid) (λ v o. record o { uid = v }) xdr_set_uid3
      >=> field (λ o. o.gid) (λ v o. record o { gid = v }) xdr_set_gid3
      >=> field (λ o. o.size) (λ v o. record o { size = v }) xdr_set_size3
      >=> field (λ o. o.atime) (λ v o. record o { atime = v }) xdr_set_atime
      >=> field (λ o. o.mtime) (λ v o. record o { mtime = v }) xdr_set_mtime

  unfoldable pub xdr_diropargs3 : Filter Diropargs3
  xdr_diropargs3 =
      field (λ o. o.dir) (λ v o. record o { dir = v }) (xdr_nfs_fh3 rpc)
      >=> field (λ o. o.name) (λ v o. record o { name = v }) (xdr_filename3 rpc)

  unfoldable pub xdr_sattrguard3 : Filter Sattrguard3
  xdr_sattrguard3 =
      field (λ o. o.check) (λ v o. record o { check = v }) (rpc.xdr_bool)
      >=> switch (λ o. o.check)
          λ d.
            if d == bool_true
            then field (λ o. o.obj_ctime) (λ v o. record o { obj_ctime = v }) (xdr_nfstime3 rpc)
            else if d == bool_false
            then done
            else fail
