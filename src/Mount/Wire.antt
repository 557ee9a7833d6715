-- ===== src/Mount/Wire.antt =====
-- The wire format of the mount protocol (RFC 1813, appendix I).
use unfs2go.Common.{ℕ, ◌≤◌, List, [], ◌++◌, length, ◌==◌, if◌then◌else◌, none}
use unfs2go.Types.Constants.{u32_max}
use unfs2go.Wire.Basic.{IsU32, IsString, IsOpaque, wire_uint32, wire_bytes, wire_string}
use unfs2go.Wire.Chain.{All, wire_all, IsChain, wire_chain, stored_chain}
use unfs2go.Xdr.Codes.{replaced}
use unfs2go.Mount.Types.{
  Mountres3Ok, Mountres3, Mountbody, Exportnode, mntpathlen, mntnamlen, fhsize3, mnt3_ok,
}

abbrev pub IsMountres3Ok : Mountres3Ok → Type 0
IsMountres3Ok o =
    IsOpaque fhsize3 o.fhandle
    × (All IsU32 o.auth_flavors
        × ((length o.auth_flavors ≤ u32_max) × (length o.auth_flavors ≤ u32_max)))

abbrev pub wire_mountres3_ok : Mountres3Ok → List ℕ
wire_mountres3_ok o =
    wire_bytes o.fhandle
    ++ (wire_uint32 (length o.auth_flavors) ++ wire_all wire_uint32 o.auth_flavors)

abbrev pub IsMountres3 : Mountres3 → Type 0
IsMountres3 o =
    IsU32 o.fhs_status × (if o.fhs_status == mnt3_ok then IsMountres3Ok o.mountinfo else Unit)

abbrev pub wire_mountres3 : Mountres3 → List ℕ
wire_mountres3 o =
    wire_uint32 o.fhs_status
    ++ (if o.fhs_status == mnt3_ok then wire_mountres3_ok o.mountinfo else [])

abbrev pub decoded_mountres3 : Mountres3 → Mountres3 → Mountres3
decoded_mountres3 o old =
    if o.fhs_status == mnt3_ok then o else record old { fhs_status = o.fhs_status }

abbrev pub IsMountbody : Mountbody → Type 0
IsMountbody o = IsString mntnamlen o.ml_hostname × IsString mntpathlen o.ml_directory

abbrev pub wire_mountbody : Mountbody → List ℕ
wire_mountbody o = wire_string o.ml_hostname ++ wire_string o.ml_directory

abbrev pub IsExportnode : ℕ → Exportnode → Type 0
IsExportnode depth o = IsString mntpathlen o.ex_dir × IsChain (IsString mntnamlen) depth o.ex_groups

abbrev pub wire_exportnode : Exportnode → List ℕ
wire_exportnode o = wire_string o.ex_dir ++ wire_chain wire_string o.ex_groups

abbrev pub decoded_exportnode : Exportnode → Exportnode → Exportnode
decoded_exportnode o old = record {
  ex_dir = o.ex_dir;
  ex_groups = stored_chain none replaced o.ex_groups old.ex_groups;
}
