-- ===== src/Mount/Xdr.antt =====
-- unfs3/xdr.c: the routines of the mount protocol. The routine of a struct and that of the pointer to it
-- make one routine for a chain.
use unfs2go.Common.{ℕ, [], none, ◌==◌, if◌then◌else◌, List}
use unfs2go.Xdr.Stream.{Filter, field, ◌>=>◌, switch, done}
use unfs2go.Xdr.Rpc.{Rpc}
use unfs2go.Xdr.Chain.{xdr_chain}
use unfs2go.Types.Constants.{u32_max}
use unfs2go.Mount.Types.{
  Mountstat3, Fhandle3, Mountres3Ok, Mountres3, Dirpath, Name, Mountbody, Exportnode, mntpathlen,
  mntnamlen, fhsize3, mnt3_ok,
}

abbrev pub zero_mountbody : Mountbody
zero_mountbody = record { ml_hostname = none; ml_directory = none }

abbrev pub zero_exportnode : Exportnode
zero_exportnode = record { ex_dir = none; ex_groups = [] }

module _ (rpc : Rpc) where
  unfoldable pub xdr_fhandle3 : Filter Fhandle3
  xdr_fhandle3 = rpc.xdr_bytes fhsize3

  unfoldable pub xdr_mountstat3 : Filter Mountstat3
  xdr_mountstat3 = rpc.xdr_enum

  unfoldable pub xdr_mountres3_ok : Filter Mountres3Ok
  xdr_mountres3_ok =
      field (λ o. o.fhandle) (λ v o. record o { fhandle = v }) xdr_fhandle3
      >=> field (λ o. o.auth_flavors) (λ v o. record o { auth_flavors = v }) (rpc.xdr_array u32_max)

  unfoldable pub xdr_mountres3 : Filter Mountres3
  xdr_mountres3 =
      field (λ o. o.fhs_status) (λ v o. record o { fhs_status = v }) xdr_mountstat3
      >=> switch (λ o. o.fhs_status)
          λ d.
            if d == mnt3_ok
            then field (λ o. o.mountinfo) (λ v o. record o { mountinfo = v }) xdr_mountres3_ok
            else done

  unfoldable pub xdr_dirpath : Filter Dirpath
  xdr_dirpath = rpc.xdr_string mntpathlen

  unfoldable pub xdr_name : Filter Name
  xdr_name = rpc.xdr_string mntnamlen

  unfoldable pub xdr_mountbody : Filter Mountbody
  xdr_mountbody =
      field (λ o. o.ml_hostname) (λ v o. record o { ml_hostname = v }) xdr_name
      >=> field (λ o. o.ml_directory) (λ v o. record o { ml_directory = v }) xdr_dirpath

  module _ (depth : ℕ) where
    unfoldable pub xdr_mountlist : Filter (List Mountbody)
    xdr_mountlist = xdr_chain rpc zero_mountbody xdr_mountbody depth

    unfoldable pub xdr_groups : Filter (List Name)
    xdr_groups = xdr_chain rpc none xdr_name depth

    unfoldable pub xdr_exportnode : Filter Exportnode
    xdr_exportnode =
        field (λ o. o.ex_dir) (λ v o. record o { ex_dir = v }) xdr_dirpath
        >=> field (λ o. o.ex_groups) (λ v o. record o { ex_groups = v }) xdr_groups

    unfoldable pub xdr_exports : Filter (List Exportnode)
    xdr_exports = xdr_chain rpc zero_exportnode xdr_exportnode depth
