-- ===== src/Wire/Res.antt =====
-- The wire format of the results of the procedures, GETATTR to READLINK (RFC 1813): the bytes of
-- a value, which values have a format, and what decoding makes of the object that was there before:
-- an arm of a union that did not travel is left as it was.
use unfs2go.Common.{ℕ, List, [], ◌++◌, ◌==◌, if◌then◌else◌}
use unfs2go.Types.Constants.{nfs3_ok}
use unfs2go.Types.Res.{
  Getattr3ResOk, Getattr3Res, Setattr3ResOk, Setattr3ResFail, Setattr3Res, Lookup3ResOk,
  Lookup3ResFail,
}
use unfs2go.Types.Res.{
  Lookup3Res, Access3ResOk, Access3ResFail, Access3Res, Readlink3ResOk, Readlink3ResFail,
  Readlink3Res,
}
use unfs2go.Types.Res.{
  setattr3resfail_lens, lookup3resfail_lens, access3resfail_lens, readlink3resfail_lens,
}
use unfs2go.Wire.Basic.{IsU32, IsName, wire_uint32, wire_string}
use unfs2go.Wire.Attr.{
  IsNfsFh3, wire_nfs_fh3, IsFattr3, wire_fattr3, IsPostOpAttr, wire_post_op_attr,
  decoded_post_op_attr,
}
use unfs2go.Wire.Attr.{IsWccData, wire_wcc_data, decoded_wcc_data}

abbrev pub IsGetattr3ResOk : Getattr3ResOk → Type 0
IsGetattr3ResOk o = IsFattr3 o.obj_attributes

abbrev pub wire_getattr3resok : Getattr3ResOk → List ℕ
wire_getattr3resok o = wire_fattr3 o.obj_attributes

abbrev pub IsGetattr3Res : Getattr3Res → Type 0
IsGetattr3Res o = IsU32 o.status × (if o.status == nfs3_ok then IsGetattr3ResOk o.resok else Unit)

abbrev pub wire_getattr3res : Getattr3Res → List ℕ
wire_getattr3res o =
    wire_uint32 o.status ++ (if o.status == nfs3_ok then wire_getattr3resok o.resok else [])

abbrev pub decoded_getattr3res : Getattr3Res → Getattr3Res → Getattr3Res
decoded_getattr3res o old =
    if o.status == nfs3_ok
    then record { status = o.status; resok = o.resok }
    else record old { status = o.status }

abbrev pub IsSetattr3ResOk : Setattr3ResOk → Type 0
IsSetattr3ResOk o = IsWccData o.obj_wcc

abbrev pub wire_setattr3resok : Setattr3ResOk → List ℕ
wire_setattr3resok o = wire_wcc_data o.obj_wcc

abbrev pub decoded_setattr3resok : Setattr3ResOk → Setattr3ResOk → Setattr3ResOk
decoded_setattr3resok o old = record { obj_wcc = (decoded_wcc_data o.obj_wcc old.obj_wcc) }

abbrev pub IsSetattr3ResFail : Setattr3ResFail → Type 0
IsSetattr3ResFail o = IsWccData o.obj_wcc

abbrev pub wire_setattr3resfail : Setattr3ResFail → List ℕ
wire_setattr3resfail o = wire_wcc_data o.obj_wcc

abbrev pub decoded_setattr3resfail : Setattr3ResFail → Setattr3ResFail → Setattr3ResFail
decoded_setattr3resfail o old = record { obj_wcc = (decoded_wcc_data o.obj_wcc old.obj_wcc) }

abbrev pub IsSetattr3Res : Setattr3Res → Type 0
IsSetattr3Res o =
    IsU32 o.status
    × (if o.status == nfs3_ok
        then IsSetattr3ResOk o.resok
        else IsSetattr3ResFail (setattr3resfail_lens.0 o))

abbrev pub wire_setattr3res : Setattr3Res → List ℕ
wire_setattr3res o =
    wire_uint32 o.status
    ++ (if o.status == nfs3_ok
        then wire_setattr3resok o.resok
        else wire_setattr3resfail (setattr3resfail_lens.0 o))

abbrev pub decoded_setattr3res : Setattr3Res → Setattr3Res → Setattr3Res
decoded_setattr3res o old =
    if o.status == nfs3_ok
    then record { status = o.status; resok = (decoded_setattr3resok o.resok old.resok) }
    else setattr3resfail_lens.1
        (decoded_setattr3resfail (setattr3resfail_lens.0 o) (setattr3resfail_lens.0 old))
        (record old { status = o.status })

abbrev pub IsLookup3ResOk : Lookup3ResOk → Type 0
IsLookup3ResOk o =
    IsNfsFh3 o.object × (IsPostOpAttr o.obj_attributes × (IsPostOpAttr o.dir_attributes))

abbrev pub wire_lookup3resok : Lookup3ResOk → List ℕ
wire_lookup3resok o =
    wire_nfs_fh3 o.object
    ++ (wire_post_op_attr o.obj_attributes ++ (wire_post_op_attr o.dir_attributes))

abbrev pub decoded_lookup3resok : Lookup3ResOk → Lookup3ResOk → Lookup3ResOk
decoded_lookup3resok o old = record {
  dir_attributes = (decoded_post_op_attr o.dir_attributes old.dir_attributes);
  object = o.object;
  obj_attributes = (decoded_post_op_attr o.obj_attributes old.obj_attributes);
}

abbrev pub IsLookup3ResFail : Lookup3ResFail → Type 0
IsLookup3ResFail o = IsPostOpAttr o.dir_attributes

abbrev pub wire_lookup3resfail : Lookup3ResFail → List ℕ
wire_lookup3resfail o = wire_post_op_attr o.dir_attributes

abbrev pub decoded_lookup3resfail : Lookup3ResFail → Lookup3ResFail → Lookup3ResFail
decoded_lookup3resfail o old = record {
  dir_attributes = (decoded_post_op_attr o.dir_attributes old.dir_attributes);
}

abbrev pub IsLookup3Res : Lookup3Res → Type 0
IsLookup3Res o =
    IsU32 o.status
    × (if o.status == nfs3_ok
        then IsLookup3ResOk o.resok
        else IsLookup3ResFail (lookup3resfail_lens.0 o))

abbrev pub wire_lookup3res : Lookup3Res → List ℕ
wire_lookup3res o =
    wire_uint32 o.status
    ++ (if o.status == nfs3_ok
        then wire_lookup3resok o.resok
        else wire_lookup3resfail (lookup3resfail_lens.0 o))

abbrev pub decoded_lookup3res : Lookup3Res → Lookup3Res → Lookup3Res
decoded_lookup3res o old =
    if o.status == nfs3_ok
    then record { status = o.status; resok = (decoded_lookup3resok o.resok old.resok) }
    else lookup3resfail_lens.1
        (decoded_lookup3resfail (lookup3resfail_lens.0 o) (lookup3resfail_lens.0 old))
        (record old { status = o.status })

abbrev pub IsAccess3ResOk : Access3ResOk → Type 0
IsAccess3ResOk o = IsPostOpAttr o.obj_attributes × (IsU32 o.access)

abbrev pub wire_access3resok : Access3ResOk → List ℕ
wire_access3resok o = wire_post_op_attr o.obj_attributes ++ (wire_uint32 o.access)

abbrev pub decoded_access3resok : Access3ResOk → Access3ResOk → Access3ResOk
decoded_access3resok o old = record {
  obj_attributes = (decoded_post_op_attr o.obj_attributes old.obj_attributes);
  access = o.access;
}

abbrev pub IsAccess3ResFail : Access3ResFail → Type 0
IsAccess3ResFail o = IsPostOpAttr o.obj_attributes

abbrev pub wire_access3resfail : Access3ResFail → List ℕ
wire_access3resfail o = wire_post_op_attr o.obj_attributes

abbrev pub decoded_access3resfail : Access3ResFail → Access3ResFail → Access3ResFail
decoded_access3resfail o old = record {
  obj_attributes = (decoded_post_op_attr o.obj_attributes old.obj_attributes);
}

abbrev pub IsAccess3Res : Access3Res → Type 0
IsAccess3Res o =
    IsU32 o.status
    × (if o.status == nfs3_ok
        then IsAccess3ResOk o.resok
        else IsAccess3ResFail (access3resfail_lens.0 o))

abbrev pub wire_access3res : Access3Res → List ℕ
wire_access3res o =
    wire_uint32 o.status
    ++ (if o.status == nfs3_ok
        then wire_access3resok o.resok
        else wire_access3resfail (access3resfail_lens.0 o))

abbrev pub decoded_access3res : Access3Res → Access3Res → Access3Res
decoded_access3res o old =
    if o.status == nfs3_ok
    then record { status = o.status; resok = (decoded_access3resok o.resok old.resok) }
    else access3resfail_lens.1
        (decoded_access3resfail (access3resfail_lens.0 o) (access3resfail_lens.0 old))
        (record old { status = o.status })

abbrev pub IsReadlink3ResOk : Readlink3ResOk → Type 0
IsReadlink3ResOk o = IsPostOpAttr o.symlink_attributes × (IsName o.data_path)

abbrev pub wire_readlink3resok : Readlink3ResOk → List ℕ
wire_readlink3resok o = wire_post_op_attr o.symlink_attributes ++ (wire_string o.data_path)

abbrev pub decoded_readlink3resok : Readlink3ResOk → Readlink3ResOk → Readlink3ResOk
decoded_readlink3resok o old = record {
  symlink_attributes = (decoded_post_op_attr o.symlink_attributes old.symlink_attributes);
  data_path = o.data_path;
}

abbrev pub IsReadlink3ResFail : Readlink3ResFail → Type 0
IsReadlink3ResFail o = IsPostOpAttr o.symlink_attributes

abbrev pub wire_readlink3resfail : Readlink3ResFail → List ℕ
wire_readlink3resfail o = wire_post_op_attr o.symlink_attributes

abbrev pub decoded_readlink3resfail : Readlink3ResFail → Readlink3ResFail → Readlink3ResFail
decoded_readlink3resfail o old = record {
  symlink_attributes = (decoded_post_op_attr o.symlink_attributes old.symlink_attributes);
}

abbrev pub IsReadlink3Res : Readlink3Res → Type 0
IsReadlink3Res o =
    IsU32 o.status
    × (if o.status == nfs3_ok
        then IsReadlink3ResOk o.resok
        else IsReadlink3ResFail (readlink3resfail_lens.0 o))

abbrev pub wire_readlink3res : Readlink3Res → List ℕ
wire_readlink3res o =
    wire_uint32 o.status
    ++ (if o.status == nfs3_ok
        then wire_readlink3resok o.resok
        else wire_readlink3resfail (readlink3resfail_lens.0 o))

abbrev pub decoded_readlink3res : Readlink3Res → Readlink3Res → Readlink3Res
decoded_readlink3res o old =
    if o.status == nfs3_ok
    then record { status = o.status; resok = (decoded_readlink3resok o.resok old.resok) }
    else readlink3resfail_lens.1
        (decoded_readlink3resfail (readlink3resfail_lens.0 o) (readlink3resfail_lens.0 old))
        (record old { status = o.status })
