-- ===== src/Mount/Laws/Xdr.antt =====
-- The routines of the mount protocol against its wire format.
use unfs2go.Common.{ℕ, none, refl, ◌==◌}
use unfs2go.Types.Constants.{u32_max}
use unfs2go.Wire.Basic.{IsString, wire_string}
use unfs2go.Wire.Chain.{IsChain, wire_chain, stored_chain}
use unfs2go.Xdr.Rpc.{Rpc, IsRpc}
use unfs2go.Xdr.Codes.{Codes, replaced, done-Codes, >=>-Codes, if-Codes, field-Codes, switch-Codes}
use unfs2go.Xdr.Laws.Chain.{xdr_chain-Codes}
use unfs2go.Mount.Types.{mntpathlen, mntnamlen, fhsize3, mnt3_ok}
use unfs2go.Mount.Wire.{
  IsMountres3Ok, wire_mountres3_ok, IsMountres3, wire_mountres3, decoded_mountres3, IsMountbody,
  wire_mountbody, IsExportnode, wire_exportnode, decoded_exportnode,
}
use unfs2go.Mount.Xdr.{
  zero_mountbody, zero_exportnode, xdr_fhandle3, xdr_mountstat3, xdr_mountres3_ok, xdr_mountres3,
  xdr_dirpath, xdr_name, xdr_mountbody, xdr_mountlist, xdr_groups, xdr_exportnode, xdr_exports,
}

module _ (rpc : Rpc) (L : IsRpc rpc) where
  pub xdr_mountres3_ok-Codes : Codes (xdr_mountres3_ok rpc) IsMountres3Ok wire_mountres3_ok replaced
  unfolding xdr_mountres3_ok xdr_fhandle3
  xdr_mountres3_ok-Codes =
      >=>-Codes
        (field-Codes (λ o. o.fhandle) (λ v o. record o { fhandle = v }) (λ o. refl)
          (L.bytes fhsize3))
        (field-Codes (λ o. o.auth_flavors) (λ v o. record o { auth_flavors = v }) (λ o. refl)
          (L.array u32_max))

  pub xdr_mountres3-Codes : Codes (xdr_mountres3 rpc) IsMountres3 wire_mountres3 decoded_mountres3
  unfolding xdr_mountres3 xdr_mountstat3
  xdr_mountres3-Codes =
      switch-Codes (λ o. o.fhs_status) (λ x old. refl)
        (field-Codes (λ o. o.fhs_status) (λ v o. record o { fhs_status = v }) (λ o. refl) L.enum)
        λ d.
          if-Codes
            (field-Codes (λ o. o.mountinfo) (λ v o. record o { mountinfo = v }) (λ o. refl)
              xdr_mountres3_ok-Codes)
            done-Codes (d == mnt3_ok)

  pub xdr_dirpath-Codes : Codes (xdr_dirpath rpc) (IsString mntpathlen) wire_string replaced
  unfolding xdr_dirpath
  xdr_dirpath-Codes = L.string mntpathlen

  pub xdr_mountbody-Codes : Codes (xdr_mountbody rpc) IsMountbody wire_mountbody replaced
  unfolding xdr_mountbody xdr_name xdr_dirpath
  xdr_mountbody-Codes =
      >=>-Codes
        (field-Codes (λ o. o.ml_hostname) (λ v o. record o { ml_hostname = v }) (λ o. refl)
          (L.string mntnamlen))
        (field-Codes (λ o. o.ml_directory) (λ v o. record o { ml_directory = v }) (λ o. refl)
          (L.string mntpathlen))

  module _ (depth : ℕ) where
    pub xdr_mountlist-Codes :
        Codes
          (xdr_mountlist rpc depth)
          (IsChain IsMountbody depth)
          (wire_chain wire_mountbody)
          (stored_chain zero_mountbody replaced)
    unfolding xdr_mountlist
    xdr_mountlist-Codes =
        xdr_chain-Codes rpc L zero_mountbody (xdr_mountbody rpc) IsMountbody wire_mountbody replaced
          xdr_mountbody-Codes depth

    pub xdr_exportnode-Codes :
        Codes (xdr_exportnode rpc depth) (IsExportnode depth) wire_exportnode decoded_exportnode
    unfolding xdr_exportnode xdr_groups xdr_name xdr_dirpath
    xdr_exportnode-Codes =
        >=>-Codes
          (field-Codes (λ o. o.ex_dir) (λ v o. record o { ex_dir = v }) (λ o. refl)
            (L.string mntpathlen))
          (field-Codes (λ o. o.ex_groups) (λ v o. record o { ex_groups = v }) (λ o. refl)
            (xdr_chain-Codes rpc L none (xdr_name rpc) (IsString mntnamlen) wire_string replaced
              (L.string mntnamlen) depth))

    pub xdr_exports-Codes :
        Codes
          (xdr_exports rpc depth)
          (IsChain (IsExportnode depth) depth)
          (wire_chain wire_exportnode)
          (stored_chain zero_exportnode decoded_exportnode)
    unfolding xdr_exports
    xdr_exports-Codes =
        xdr_chain-Codes rpc L zero_exportnode (xdr_exportnode rpc depth) (IsExportnode depth)
          wire_exportnode decoded_exportnode xdr_exportnode-Codes depth
