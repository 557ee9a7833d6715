-- ===== src/Wire/Sattr.antt =====
-- The wire format of settable attributes and directory operations (RFC 1813): the bytes of
-- a value, which values have a format, and what decoding makes of the object that was there before:
-- an arm of a union that did not travel is left as it was.
use unfs2go.Common.{ℕ, List, [], ◌++◌, ◌==◌, if◌then◌else◌}
use unfs2go.Types.Constants.{set_to_client_time, bool_true, bool_false}
use unfs2go.Types.Sattr.{SetMode3, SetUid3, SetGid3, SetSize3, SetAtime, SetMtime, Sattr3}
use unfs2go.Types.Sattr.{Diropargs3, Sattrguard3}
use unfs2go.Wire.Basic.{IsU32, IsU64, IsBool, IsName, wire_uint32, wire_uint64, wire_string}
use unfs2go.Wire.Attr.{IsNfsFh3, wire_nfs_fh3, IsNfstime3, wire_nfstime3}

abbrev pub IsSetMode3 : SetMode3 → Type 0
IsSetMode3 o = IsBool o.set_it × (if o.set_it == bool_true then IsU32 o.mode else Unit)

abbrev pub wire_set_mode3 : SetMode3 → List ℕ
wire_set_mode3 o =
    wire_uint32 o.set_it ++ (if o.set_it == bool_true then wire_uint32 o.mode else [])

abbrev pub decoded_set_mode3 : SetMode3 → SetMode3 → SetMode3
decoded_set_mode3 o old =
    if o.set_it == bool_true
    then record old { set_it = o.set_it; mode = o.mode }
    else record old { set_it = o.set_it }

abbrev pub IsSetUid3 : SetUid3 → Type 0
IsSetUid3 o = IsBool o.set_it × (if o.set_it == bool_true then IsU32 o.uid else Unit)

abbrev pub wire_set_uid3 : SetUid3 → List ℕ
wire_set_uid3 o = wire_uint32 o.set_it ++ (if o.set_it == bool_true then wire_uint32 o.uid else [])

abbrev pub decoded_set_uid3 : SetUid3 → SetUid3 → SetUid3
decoded_set_uid3 o old =
    if o.set_it == bool_true
    then record old { set_it = o.set_it; uid = o.uid }
    else record old { set_it = o.set_it }

abbrev pub IsSetGid3 : SetGid3 → Type 0
IsSetGid3 o = IsBool o.set_it × (if o.set_it == bool_true then IsU32 o.gid else Unit)

abbrev pub wire_set_gid3 : SetGid3 → List ℕ
wire_set_gid3 o = wire_uint32 o.set_it ++ (if o.set_it == bool_true then wire_uint32 o.gid else [])

abbrev pub decoded_set_gid3 : SetGid3 → SetGid3 → SetGid3
decoded_set_gid3 o old =
    if o.set_it == bool_true
    then record old { set_it = o.set_it; gid = o.gid }
    else record old { set_it = o.set_it }

abbrev pub IsSetSize3 : SetSize3 → Type 0
IsSetSize3 o = IsBool o.set_it × (if o.set_it == bool_true then IsU64 o.size else Unit)

abbrev pub wire_set_size3 : SetSize3 → List ℕ
wire_set_size3 o =
    wire_uint32 o.set_it ++ (if o.set_it == bool_true then wire_uint64 o.size else [])

abbrev pub decoded_set_size3 : SetSize3 → SetSize3 → SetSize3
decoded_set_size3 o old =
    if o.set_it == bool_true
    then record old { set_it = o.set_it; size = o.size }
    else record old { set_it = o.set_it }

abbrev pub IsSetAtime : SetAtime → Type 0
IsSetAtime o =
    IsU32 o.set_it × (if o.set_it == set_to_client_time then IsNfstime3 o.atime else Unit)

abbrev pub wire_set_atime : SetAtime → List ℕ
wire_set_atime o =
    wire_uint32 o.set_it ++ (if o.set_it == set_to_client_time then wire_nfstime3 o.atime else [])

abbrev pub decoded_set_atime : SetAtime → SetAtime → SetAtime
decoded_set_atime o old =
    if o.set_it == set_to_client_time
    then record old { set_it = o.set_it; atime = o.atime }
    else record old { set_it = o.set_it }

abbrev pub IsSetMtime : SetMtime → Type 0
IsSetMtime o =
    IsU32 o.set_it × (if o.set_it == set_to_client_time then IsNfstime3 o.mtime else Unit)

abbrev pub wire_set_mtime : SetMtime → List ℕ
wire_set_mtime o =
    wire_uint32 o.set_it ++ (if o.set_it == set_to_client_time then wire_nfstime3 o.mtime else [])

abbrev pub decoded_set_mtime : SetMtime → SetMtime → SetMtime
decoded_set_mtime o old =
    if o.set_it == set_to_client_time
    then record old { set_it = o.set_it; mtime = o.mtime }
    else record old { set_it = o.set_it }

abbrev pub IsSattr3 : Sattr3 → Type 0
IsSattr3 o =
    IsSetMode3 o.mode
    × (IsSetUid3 o.uid
        × (IsSetGid3 o.gid × (IsSetSize3 o.size × (IsSetAtime o.atime × (IsSetMtime o.mtime)))))

abbrev pub wire_sattr3 : Sattr3 → List ℕ
wire_sattr3 o =
    wire_set_mode3 o.mode
    ++ (wire_set_uid3 o.uid
        ++ (wire_set_gid3 o.gid
            ++ (wire_set_size3 o.size ++ (wire_set_atime o.atime ++ (wire_set_mtime o.mtime)))))

abbrev pub decoded_sattr3 : Sattr3 → Sattr3 → Sattr3
decoded_sattr3 o old = record {
  mode = (decoded_set_mode3 o.mode old.mode);
  uid = (decoded_set_uid3 o.uid old.uid);
  gid = (decoded_set_gid3 o.gid old.gid);
  size = (decoded_set_size3 o.size old.size);
  atime = (decoded_set_atime o.atime old.atime);
  mtime = (decoded_set_mtime o.mtime old.mtime);
}

abbrev pub IsDiropargs3 : Diropargs3 → Type 0
IsDiropargs3 o = IsNfsFh3 o.dir × (IsName o.name)

abbrev pub wire_diropargs3 : Diropargs3 → List ℕ
wire_diropargs3 o = wire_nfs_fh3 o.dir ++ (wire_string o.name)

abbrev pub IsSattrguard3 : Sattrguard3 → Type 0
IsSattrguard3 o =
    IsBool o.check
    × (if o.check == bool_true
        then IsNfstime3 o.obj_ctime
        else if o.check == bool_false
        then Unit
        else ⊥)

abbrev pub wire_sattrguard3 : Sattrguard3 → List ℕ
wire_sattrguard3 o =
    wire_uint32 o.check
    ++ (if o.check == bool_true
        then wire_nfstime3 o.obj_ctime
        else if o.check == bool_false
        then []
        else [])

abbrev pub decoded_sattrguard3 : Sattrguard3 → Sattrguard3 → Sattrguard3
decoded_sattrguard3 o old =
    if o.check == bool_true
    then record old { check = o.check; obj_ctime = o.obj_ctime }
    else if o.check == bool_false
    then record old { check = o.check }
    else record old { check = o.check }
