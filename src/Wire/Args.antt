-- ===== src/Wire/Args.antt =====
-- The wire format of the arguments of the procedures, GETATTR to SYMLINK (RFC 1813): the bytes of
-- a value, which values have a format, and what decoding makes of the object that was there before:
-- an arm of a union that did not travel is left as it was.
use unfs2go.Common.{ℕ, List, [], ◌++◌, ◌==◌, if◌then◌else◌}
use unfs2go.Types.Constants.{unchecked, guarded, exclusive, u32_max}
use unfs2go.Types.Args.{
  Getattr3Args, Setattr3Args, Lookup3Args, Access3Args, Readlink3Args, Read3Args, Write3Args,
}
use unfs2go.Types.Args.{Createhow3, Create3Args, Mkdir3Args, Symlinkdata3, Symlink3Args}
use unfs2go.Wire.Basic.{IsU32, IsU64, IsVerf, IsName, IsOpaque, wire_uint32, wire_uint64}
use unfs2go.Wire.Basic.{wire_opaque, wire_string, wire_bytes}
use unfs2go.Wire.Attr.{IsNfsFh3, wire_nfs_fh3}
use unfs2go.Wire.Sattr.{
  IsSattr3, wire_sattr3, decoded_sattr3, IsDiropargs3, wire_diropargs3, IsSattrguard3,
  wire_sattrguard3,
}
use unfs2go.Wire.Sattr.{decoded_sattrguard3}

abbrev pub IsGetattr3Args : Getattr3Args → Type 0
IsGetattr3Args o = IsNfsFh3 o.object

abbrev pub wire_getattr3args : Getattr3Args → List ℕ
wire_getattr3args o = wire_nfs_fh3 o.object

abbrev pub IsSetattr3Args : Setattr3Args → Type 0
IsSetattr3Args o = IsNfsFh3 o.object × (IsSattr3 o.new_attributes × (IsSattrguard3 o.guard))

abbrev pub wire_setattr3args : Setattr3Args → List ℕ
wire_setattr3args o =
    wire_nfs_fh3 o.object ++ (wire_sattr3 o.new_attributes ++ (wire_sattrguard3 o.guard))

abbrev pub decoded_setattr3args : Setattr3Args → Setattr3Args → Setattr3Args
decoded_setattr3args o old = record {
  object = o.object;
  new_attributes = (decoded_sattr3 o.new_attributes old.new_attributes);
  guard = (decoded_sattrguard3 o.guard old.guard);
}

abbrev pub IsLookup3Args : Lookup3Args → Type 0
IsLookup3Args o = IsDiropargs3 o.what

abbrev pub wire_lookup3args : Lookup3Args → List ℕ
wire_lookup3args o = wire_diropargs3 o.what

abbrev pub IsAccess3Args : Access3Args → Type 0
IsAccess3Args o = IsNfsFh3 o.object × (IsU32 o.access)

abbrev pub wire_access3args : Access3Args → List ℕ
wire_access3args o = wire_nfs_fh3 o.object ++ (wire_uint32 o.access)

abbrev pub IsReadlink3Args : Readlink3Args → Type 0
IsReadlink3Args o = IsNfsFh3 o.symlink

abbrev pub wire_readlink3args : Readlink3Args → List ℕ
wire_readlink3args o = wire_nfs_fh3 o.symlink

abbrev pub IsRead3Args : Read3Args → Type 0
IsRead3Args o = IsNfsFh3 o.file × (IsU64 o.offset × (IsU32 o.count))

abbrev pub wire_read3args : Read3Args → List ℕ
wire_read3args o = wire_nfs_fh3 o.file ++ (wire_uint64 o.offset ++ (wire_uint32 o.count))

abbrev pub IsWrite3Args : Write3Args → Type 0
IsWrite3Args o =
    IsNfsFh3 o.file
    × (IsU64 o.offset × (IsU32 o.count × (IsU32 o.stable × (IsOpaque u32_max o.data_buf))))

abbrev pub wire_write3args : Write3Args → List ℕ
wire_write3args o =
    wire_nfs_fh3 o.file
    ++ (wire_uint64 o.offset
        ++ (wire_uint32 o.count ++ (wire_uint32 o.stable ++ (wire_bytes o.data_buf))))

abbrev pub IsCreatehow3 : Createhow3 → Type 0
IsCreatehow3 o =
    IsU32 o.mode
    × (if o.mode == unchecked
        then IsSattr3 o.obj_attributes
        else if o.mode == guarded
        then IsSattr3 o.obj_attributes
        else if o.mode == exclusive
        then IsVerf o.verf
        else ⊥)

abbrev pub wire_createhow3 : Createhow3 → List ℕ
wire_createhow3 o =
    wire_uint32 o.mode
    ++ (if o.mode == unchecked
        then wire_sattr3 o.obj_attributes
        else if o.mode == guarded
        then wire_sattr3 o.obj_attributes
        else if o.mode == exclusive
        then wire_opaque o.verf
        else [])

abbrev pub decoded_createhow3 : Createhow3 → Createhow3 → Createhow3
decoded_createhow3 o old =
    if o.mode == unchecked
    then record old {
      mode = o.mode;
      obj_attributes = (decoded_sattr3 o.obj_attributes old.obj_attributes);
    }
    else if o.mode == guarded
    then record old {
      mode = o.mode;
      obj_attributes = (decoded_sattr3 o.obj_attributes old.obj_attributes);
    }
    else if o.mode == exclusive
    then record old { mode = o.mode; verf = o.verf }
    else record old { mode = o.mode }

abbrev pub IsCreate3Args : Create3Args → Type 0
IsCreate3Args o = IsDiropargs3 o.where_args × (IsCreatehow3 o.how)

abbrev pub wire_create3args : Create3Args → List ℕ
wire_create3args o = wire_diropargs3 o.where_args ++ (wire_createhow3 o.how)

abbrev pub decoded_create3args : Create3Args → Create3Args → Create3Args
decoded_create3args o old = record {
  where_args = o.where_args;
  how = (decoded_createhow3 o.how old.how);
}

abbrev pub IsMkdir3Args : Mkdir3Args → Type 0
IsMkdir3Args o = IsDiropargs3 o.where_args × (IsSattr3 o.attributes)

abbrev pub wire_mkdir3args : Mkdir3Args → List ℕ
wire_mkdir3args o = wire_diropargs3 o.where_args ++ (wire_sattr3 o.attributes)

abbrev pub decoded_mkdir3args : Mkdir3Args → Mkdir3Args → Mkdir3Args
decoded_mkdir3args o old = record {
  where_args = o.where_args;
  attributes = (decoded_sattr3 o.attributes old.attributes);
}

abbrev pub IsSymlinkdata3 : Symlinkdata3 → Type 0
IsSymlinkdata3 o = IsSattr3 o.symlink_attributes × (IsName o.symlink_data)

abbrev pub wire_symlinkdata3 : Symlinkdata3 → List ℕ
wire_symlinkdata3 o = wire_sattr3 o.symlink_attributes ++ (wire_string o.symlink_data)

abbrev pub decoded_symlinkdata3 : Symlinkdata3 → Symlinkdata3 → Symlinkdata3
decoded_symlinkdata3 o old = record {
  symlink_attributes = (decoded_sattr3 o.symlink_attributes old.symlink_attributes);
  symlink_data = o.symlink_data;
}

abbrev pub IsSymlink3Args : Symlink3Args → Type 0
IsSymlink3Args o = IsDiropargs3 o.where_args × (IsSymlinkdata3 o.symlink)

abbrev pub wire_symlink3args : Symlink3Args → List ℕ
wire_symlink3args o = wire_diropargs3 o.where_args ++ (wire_symlinkdata3 o.symlink)

abbrev pub decoded_symlink3args : Symlink3Args → Symlink3Args → Symlink3Args
decoded_symlink3args o old = record {
  where_args = o.where_args;
  symlink = (decoded_symlinkdata3 o.symlink old.symlink);
}
