-- ===== src/Wire/DirArgs.antt =====
-- The wire format of the arguments of the procedures, MKNOD to COMMIT (RFC 1813): the bytes of
-- a value, which values have a format, and what decoding makes of the object that was there before:
-- an arm of a union that did not travel is left as it was.
use unfs2go.Common.{ℕ, List, [], ◌++◌, ◌==◌, if◌then◌else◌}
use unfs2go.Types.Constants.{nf3blk, nf3chr, nf3sock, nf3fifo}
use unfs2go.Types.DirArgs.{
  Devicedata3, Mknoddata3, Mknod3Args, Remove3Args, Rmdir3Args, Rename3Args, Link3Args,
}
use unfs2go.Types.DirArgs.{
  Readdir3Args, Readdirplus3Args, Fsstat3Args, Fsinfo3Args, Pathconf3Args, Commit3Args,
}
use unfs2go.Wire.Basic.{IsU32, IsU64, IsVerf, wire_uint32, wire_uint64, wire_opaque}
use unfs2go.Wire.Attr.{IsSpecdata3, wire_specdata3, IsNfsFh3, wire_nfs_fh3}
use unfs2go.Wire.Sattr.{IsSattr3, wire_sattr3, decoded_sattr3, IsDiropargs3, wire_diropargs3}

abbrev pub IsDevicedata3 : Devicedata3 → Type 0
IsDevicedata3 o = IsSattr3 o.dev_attributes × (IsSpecdata3 o.spec)

abbrev pub wire_devicedata3 : Devicedata3 → List ℕ
wire_devicedata3 o = wire_sattr3 o.dev_attributes ++ (wire_specdata3 o.spec)

abbrev pub decoded_devicedata3 : Devicedata3 → Devicedata3 → Devicedata3
decoded_devicedata3 o old = record {
  dev_attributes = (decoded_sattr3 o.dev_attributes old.dev_attributes);
  spec = o.spec;
}

abbrev pub IsMknoddata3 : Mknoddata3 → Type 0
IsMknoddata3 o =
    IsU32 o.type
    × (if o.type == nf3chr
        then IsDevicedata3 o.device
        else if o.type == nf3blk
        then IsDevicedata3 o.device
        else if o.type == nf3sock
        then IsSattr3 o.device.dev_attributes
        else if o.type == nf3fifo
        then IsSattr3 o.device.dev_attributes
        else Unit)

abbrev pub wire_mknoddata3 : Mknoddata3 → List ℕ
wire_mknoddata3 o =
    wire_uint32 o.type
    ++ (if o.type == nf3chr
        then wire_devicedata3 o.device
        else if o.type == nf3blk
        then wire_devicedata3 o.device
        else if o.type == nf3sock
        then wire_sattr3 o.device.dev_attributes
        else if o.type == nf3fifo
        then wire_sattr3 o.device.dev_attributes
        else [])

abbrev pub decoded_mknoddata3 : Mknoddata3 → Mknoddata3 → Mknoddata3
decoded_mknoddata3 o old =
    if o.type == nf3chr
    then record old { type = o.type; device = (decoded_devicedata3 o.device old.device) }
    else if o.type == nf3blk
    then record old { type = o.type; device = (decoded_devicedata3 o.device old.device) }
    else if o.type == nf3sock
    then record old {
      type = o.type;
      device = record old.device {
        dev_attributes = decoded_sattr3 o.device.dev_attributes old.device.dev_attributes;
      };
    }
    else if o.type == nf3fifo
    then record old {
      type = o.type;
      device = record old.device {
        dev_attributes = decoded_sattr3 o.device.dev_attributes old.device.dev_attributes;
      };
    }
    else record old { type = o.type }

abbrev pub IsMknod3Args : Mknod3Args → Type 0
IsMknod3Args o = IsDiropargs3 o.where_args × (IsMknoddata3 o.what)

abbrev pub wire_mknod3args : Mknod3Args → List ℕ
wire_mknod3args o = wire_diropargs3 o.where_args ++ (wire_mknoddata3 o.what)

abbrev pub decoded_mknod3args : Mknod3Args → Mknod3Args → Mknod3Args
decoded_mknod3args o old = record {
  where_args = o.where_args;
  what = (decoded_mknoddata3 o.what old.what);
}

abbrev pub IsRemove3Args : Remove3Args → Type 0
IsRemove3Args o = IsDiropargs3 o.object

abbrev pub wire_remove3args : Remove3Args → List ℕ
wire_remove3args o = wire_diropargs3 o.object

abbrev pub IsRmdir3Args : Rmdir3Args → Type 0
IsRmdir3Args o = IsDiropargs3 o.object

abbrev pub wire_rmdir3args : Rmdir3Args → List ℕ
wire_rmdir3args o = wire_diropargs3 o.object

abbrev pub IsRename3Args : Rename3Args → Type 0
IsRename3Args o = IsDiropargs3 o.from × (IsDiropargs3 o.to)

abbrev pub wire_rename3args : Rename3Args → List ℕ
wire_rename3args o = wire_diropargs3 o.from ++ (wire_diropargs3 o.to)

abbrev pub IsLink3Args : Link3Args → Type 0
IsLink3Args o = IsNfsFh3 o.file × (IsDiropargs3 o.link)

abbrev pub wire_link3args : Link3Args → List ℕ
wire_link3args o = wire_nfs_fh3 o.file ++ (wire_diropargs3 o.link)

abbrev pub IsReaddir3Args : Readdir3Args → Type 0
IsReaddir3Args o = IsNfsFh3 o.dir × (IsU64 o.cookie × (IsVerf o.cookieverf × (IsU32 o.count)))

abbrev pub wire_readdir3args : Readdir3Args → List ℕ
wire_readdir3args o =
    wire_nfs_fh3 o.dir
    ++ (wire_uint64 o.cookie ++ (wire_opaque o.cookieverf ++ (wire_uint32 o.count)))

abbrev pub IsReaddirplus3Args : Readdirplus3Args → Type 0
IsReaddirplus3Args o =
    IsNfsFh3 o.dir
    × (IsU64 o.cookie × (IsVerf o.cookieverf × (IsU32 o.dircount × (IsU32 o.maxcount))))

abbrev pub wire_readdirplus3args : Readdirplus3Args → List ℕ
wire_readdirplus3args o =
    wire_nfs_fh3 o.dir
    ++ (wire_uint64 o.cookie
        ++ (wire_opaque o.cookieverf ++ (wire_uint32 o.dircount ++ (wire_uint32 o.maxcount))))

abbrev pub IsFsstat3Args : Fsstat3Args → Type 0
IsFsstat3Args o = IsNfsFh3 o.fsroot

abbrev pub wire_fsstat3args : Fsstat3Args → List ℕ
wire_fsstat3args o = wire_nfs_fh3 o.fsroot

abbrev pub IsFsinfo3Args : Fsinfo3Args → Type 0
IsFsinfo3Args o = IsNfsFh3 o.fsroot

abbrev pub wire_fsinfo3args : Fsinfo3Args → List ℕ
wire_fsinfo3args o = wire_nfs_fh3 o.fsroot

abbrev pub IsPathconf3Args : Pathconf3Args → Type 0
IsPathconf3Args o = IsNfsFh3 o.object

abbrev pub wire_pathconf3args : Pathconf3Args → List ℕ
wire_pathconf3args o = wire_nfs_fh3 o.object

abbrev pub IsCommit3Args : Commit3Args → Type 0
IsCommit3Args o = IsNfsFh3 o.file × (IsU64 o.offset × (IsU32 o.count))

abbrev pub wire_commit3args : Commit3Args → List ℕ
wire_commit3args o = wire_nfs_fh3 o.file ++ (wire_uint64 o.offset ++ (wire_uint32 o.count))
