-- ===== src/Wire/Attr.antt =====
-- The wire format of attributes and handles (RFC 1813): the bytes of
-- a value, which values have a format, and what decoding makes of the object that was there before:
-- an arm of a union that did not travel is left as it was.
use unfs2go.Common.{ℕ, List, [], ◌++◌, ◌==◌, if◌then◌else◌}
use unfs2go.Types.Constants.{bool_true, bool_false, nfs3_fhsize}
use unfs2go.Types.Attr.{Specdata3, NfsFh3, Nfstime3, Fattr3, PostOpAttr, WccAttr, PreOpAttr}
use unfs2go.Types.Attr.{WccData, PostOpFh3}
use unfs2go.Wire.Basic.{IsU32, IsU64, IsBool, IsOpaque, wire_uint32, wire_uint64, wire_bytes}

abbrev pub IsSpecdata3 : Specdata3 → Type 0
IsSpecdata3 o = IsU32 o.specdata1 × (IsU32 o.specdata2)

abbrev pub wire_specdata3 : Specdata3 → List ℕ
wire_specdata3 o = wire_uint32 o.specdata1 ++ (wire_uint32 o.specdata2)

abbrev pub IsNfsFh3 : NfsFh3 → Type 0
IsNfsFh3 o = IsOpaque nfs3_fhsize o.data_buf

abbrev pub wire_nfs_fh3 : NfsFh3 → List ℕ
wire_nfs_fh3 o = wire_bytes o.data_buf

abbrev pub IsNfstime3 : Nfstime3 → Type 0
IsNfstime3 o = IsU32 o.seconds × (IsU32 o.nseconds)

abbrev pub wire_nfstime3 : Nfstime3 → List ℕ
wire_nfstime3 o = wire_uint32 o.seconds ++ (wire_uint32 o.nseconds)

abbrev pub IsFattr3 : Fattr3 → Type 0
IsFattr3 o =
    IsU32 o.type
    × (IsU32 o.mode
        × (IsU32 o.nlink
            × (IsU32 o.uid
                × (IsU32 o.gid
                    × (IsU64 o.size
                        × (IsU64 o.used
                            × (IsSpecdata3 o.rdev
                                × (IsU64 o.fsid
                                    × (IsU64 o.fileid
                                        × (IsNfstime3 o.atime
                                            × (IsNfstime3 o.mtime × (IsNfstime3 o.ctime))))))))))))

abbrev pub wire_fattr3 : Fattr3 → List ℕ
wire_fattr3 o =
    wire_uint32 o.type
    ++ (wire_uint32 o.mode
        ++ (wire_uint32 o.nlink
            ++ (wire_uint32 o.uid
                ++ (wire_uint32 o.gid
                    ++ (wire_uint64 o.size
                        ++ (wire_uint64 o.used
                            ++ (wire_specdata3 o.rdev
                                ++ (wire_uint64 o.fsid
                                    ++ (wire_uint64 o.fileid
                                        ++ (wire_nfstime3 o.atime
                                            ++ (wire_nfstime3 o.mtime
                                                ++ (wire_nfstime3 o.ctime))))))))))))

abbrev pub IsPostOpAttr : PostOpAttr → Type 0
IsPostOpAttr o =
    IsBool o.attributes_follow
    × (if o.attributes_follow == bool_true
        then IsFattr3 o.attributes
        else if o.attributes_follow == bool_false
        then Unit
        else ⊥)

abbrev pub wire_post_op_attr : PostOpAttr → List ℕ
wire_post_op_attr o =
    wire_uint32 o.attributes_follow
    ++ (if o.attributes_follow == bool_true
        then wire_fattr3 o.attributes
        else if o.attributes_follow == bool_false
        then []
        else [])

abbrev pub decoded_post_op_attr : PostOpAttr → PostOpAttr → PostOpAttr
decoded_post_op_attr o old =
    if o.attributes_follow == bool_true
    then record old { attributes_follow = o.attributes_follow; attributes = o.attributes }
    else if o.attributes_follow == bool_false
    then record old { attributes_follow = o.attributes_follow }
    else record old { attributes_follow = o.attributes_follow }

abbrev pub IsWccAttr : WccAttr → Type 0
IsWccAttr o = IsU64 o.size × (IsNfstime3 o.mtime × (IsNfstime3 o.ctime))

abbrev pub wire_wcc_attr : WccAttr → List ℕ
wire_wcc_attr o = wire_uint64 o.size ++ (wire_nfstime3 o.mtime ++ (wire_nfstime3 o.ctime))

abbrev pub IsPreOpAttr : PreOpAttr → Type 0
IsPreOpAttr o =
    IsBool o.attributes_follow
    × (if o.attributes_follow == bool_true
        then IsWccAttr o.attributes
        else if o.attributes_follow == bool_false
        then Unit
        else ⊥)

abbrev pub wire_pre_op_attr : PreOpAttr → List ℕ
wire_pre_op_attr o =
    wire_uint32 o.attributes_follow
    ++ (if o.attributes_follow == bool_true
        then wire_wcc_attr o.attributes
        else if o.attributes_follow == bool_false
        then []
        else [])

abbrev pub decoded_pre_op_attr : PreOpAttr → PreOpAttr → PreOpAttr
decoded_pre_op_attr o old =
    if o.attributes_follow == bool_true
    then record old { attributes_follow = o.attributes_follow; attributes = o.attributes }
    else if o.attributes_follow == bool_false
    then record old { attributes_follow = o.attributes_follow }
    else record old { attributes_follow = o.attributes_follow }

abbrev pub IsWccData : WccData → Type 0
IsWccData o = IsPreOpAttr o.before × (IsPostOpAttr o.after)

abbrev pub wire_wcc_data : WccData → List ℕ
wire_wcc_data o = wire_pre_op_attr o.before ++ (wire_post_op_attr o.after)

abbrev pub decoded_wcc_data : WccData → WccData → WccData
decoded_wcc_data o old = record {
  before = (decoded_pre_op_attr o.before old.before);
  after = (decoded_post_op_attr o.after old.after);
}

abbrev pub IsPostOpFh3 : PostOpFh3 → Type 0
IsPostOpFh3 o =
    IsBool o.handle_follows
    × (if o.handle_follows == bool_true
        then IsNfsFh3 o.handle
        else if o.handle_follows == bool_false
        then Unit
        else ⊥)

abbrev pub wire_post_op_fh3 : PostOpFh3 → List ℕ
wire_post_op_fh3 o =
    wire_uint32 o.handle_follows
    ++ (if o.handle_follows == bool_true
        then wire_nfs_fh3 o.handle
        else if o.handle_follows == bool_false
        then []
        else [])

abbrev pub decoded_post_op_fh3 : PostOpFh3 → PostOpFh3 → PostOpFh3
decoded_post_op_fh3 o old =
    if o.handle_follows == bool_true
    then record old { handle_follows = o.handle_follows; handle = o.handle }
    else if o.handle_follows == bool_false
    then record old { handle_follows = o.handle_follows }
    else record old { handle_follows = o.handle_follows }
