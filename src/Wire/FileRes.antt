-- ===== src/Wire/FileRes.antt =====
-- The wire format of the results of the procedures, READ to MKDIR (RFC 1813): the bytes of
-- a value, which values have a format, and what decoding makes of the object that was there before:
-- an arm of a union that did not travel is left as it was.
use unfs2go.Common.{ℕ, List, ◌++◌, ◌==◌, if◌then◌else◌}
use unfs2go.Types.Constants.{nfs3_ok, u32_max}
use unfs2go.Types.FileRes.{
  Read3ResOk, Read3ResFail, Read3Res, Write3ResOk, Write3ResFail, Write3Res, Create3ResOk,
}
use unfs2go.Types.FileRes.{
  Create3ResFail, Create3Res, Mkdir3ResOk, Mkdir3ResFail, Mkdir3Res, read3resfail_lens,
  write3resfail_lens,
}
use unfs2go.Types.FileRes.{create3resfail_lens, mkdir3resfail_lens}
use unfs2go.Wire.Basic.{IsU32, IsBool, IsVerf, IsOpaque, wire_uint32, wire_opaque, wire_bytes}
use unfs2go.Wire.Attr.{
  IsPostOpAttr, wire_post_op_attr, decoded_post_op_attr, IsWccData, wire_wcc_data, decoded_wcc_data,
  IsPostOpFh3,
}
use unfs2go.Wire.Attr.{wire_post_op_fh3, decoded_post_op_fh3}

abbrev pub IsRead3ResOk : Read3ResOk → Type 0
IsRead3ResOk o =
    IsPostOpAttr o.file_attributes
    × (IsU32 o.count × (IsBool o.eof × (IsOpaque u32_max o.data_buf)))

abbrev pub wire_read3resok : Read3ResOk → List ℕ
wire_read3resok o =
    wire_post_op_attr o.file_attributes
    ++ (wire_uint32 o.count ++ (wire_uint32 o.eof ++ (wire_bytes o.data_buf)))

abbrev pub decoded_read3resok : Read3ResOk → Read3ResOk → Read3ResOk
decoded_read3resok o old = record {
  file_attributes = (decoded_post_op_attr o.file_attributes old.file_attributes);
  count = o.count;
  eof = o.eof;
  data_buf = o.data_buf;
}

abbrev pub IsRead3ResFail : Read3ResFail → Type 0
IsRead3ResFail o = IsPostOpAttr o.file_attributes

abbrev pub wire_read3resfail : Read3ResFail → List ℕ
wire_read3resfail o = wire_post_op_attr o.file_attributes

abbrev pub decoded_read3resfail : Read3ResFail → Read3ResFail → Read3ResFail
decoded_read3resfail o old = record {
  file_attributes = (decoded_post_op_attr o.file_attributes old.file_attributes);
}

abbrev pub IsRead3Res : Read3Res → Type 0
IsRead3Res o =
    IsU32 o.status
    × (if o.status == nfs3_ok then IsRead3ResOk o.resok else IsRead3ResFail (read3resfail_lens.0 o))

abbrev pub wire_read3res : Read3Res → List ℕ
wire_read3res o =
    wire_uint32 o.status
    ++ (if o.status == nfs3_ok
        then wire_read3resok o.resok
        else wire_read3resfail (read3resfail_lens.0 o))

abbrev pub decoded_read3res : Read3Res → Read3Res → Read3Res
decoded_read3res o old =
    if o.status == nfs3_ok
    then record { status = o.status; resok = (decoded_read3resok o.resok old.resok) }
    else read3resfail_lens.1
        (decoded_read3resfail (read3resfail_lens.0 o) (read3resfail_lens.0 old))
        (record old { status = o.status })

abbrev pub IsWrite3ResOk : Write3ResOk → Type 0
IsWrite3ResOk o = IsWccData o.file_wcc × (IsU32 o.count × (IsU32 o.committed × (IsVerf o.verf)))

abbrev pub wire_write3resok : Write3ResOk → List ℕ
wire_write3resok o =
    wire_wcc_data o.file_wcc
    ++ (wire_uint32 o.count ++ (wire_uint32 o.committed ++ (wire_opaque o.verf)))

abbrev pub decoded_write3resok : Write3ResOk → Write3ResOk → Write3ResOk
decoded_write3resok o old = record {
  file_wcc = (decoded_wcc_data o.file_wcc old.file_wcc);
  count = o.count;
  committed = o.committed;
  verf = o.verf;
}

abbrev pub IsWrite3ResFail : Write3ResFail → Type 0
IsWrite3ResFail o = IsWccData o.file_wcc

abbrev pub wire_write3resfail : Write3ResFail → List ℕ
wire_write3resfail o = wire_wcc_data o.file_wcc

abbrev pub decoded_write3resfail : Write3ResFail → Write3ResFail → Write3ResFail
decoded_write3resfail o old = record { file_wcc = (decoded_wcc_data o.file_wcc old.file_wcc) }

abbrev pub IsWrite3Res : Write3Res → Type 0
IsWrite3Res o =
    IsU32 o.status
    × (if o.status == nfs3_ok
        then IsWrite3ResOk o.resok
        else IsWrite3ResFail (write3resfail_lens.0 o))

abbrev pub wire_write3res : Write3Res → List ℕ
wire_write3res o =
    wire_uint32 o.status
    ++ (if o.status == nfs3_ok
        then wire_write3resok o.resok
        else wire_write3resfail (write3resfail_lens.0 o))

abbrev pub decoded_write3res : Write3Res → Write3Res → Write3Res
decoded_write3res o old =
    if o.status == nfs3_ok
    then record { status = o.status; resok = (decoded_write3resok o.resok old.resok) }
    else write3resfail_lens.1
        (decoded_write3resfail (write3resfail_lens.0 o) (write3resfail_lens.0 old))
        (record old { status = o.status })

abbrev pub IsCreate3ResOk : Create3ResOk → Type 0
IsCreate3ResOk o = IsPostOpFh3 o.obj × (IsPostOpAttr o.obj_attributes × (IsWccData o.dir_wcc))

abbrev pub wire_create3resok : Create3ResOk → List ℕ
wire_create3resok o =
    wire_post_op_fh3 o.obj ++ (wire_post_op_attr o.obj_attributes ++ (wire_wcc_data o.dir_wcc))

abbrev pub decoded_create3resok : Create3ResOk → Create3ResOk → Create3ResOk
decoded_create3resok o old = record {
  dir_wcc = (decoded_wcc_data o.dir_wcc old.dir_wcc);
  obj = (decoded_post_op_fh3 o.obj old.obj);
  obj_attributes = (decoded_post_op_attr o.obj_attributes old.obj_attributes);
}

abbrev pub IsCreate3ResFail : Create3ResFail → Type 0
IsCreate3ResFail o = IsWccData o.dir_wcc

abbrev pub wire_create3resfail : Create3ResFail → List ℕ
wire_create3resfail o = wire_wcc_data o.dir_wcc

abbrev pub decoded_create3resfail : Create3ResFail → Create3ResFail → Create3ResFail
decoded_create3resfail o old = record { dir_wcc = (decoded_wcc_data o.dir_wcc old.dir_wcc) }

abbrev pub IsCreate3Res : Create3Res → Type 0
IsCreate3Res o =
    IsU32 o.status
    × (if o.status == nfs3_ok
        then IsCreate3ResOk o.resok
        else IsCreate3ResFail (create3resfail_lens.0 o))

abbrev pub wire_create3res : Create3Res → List ℕ
wire_create3res o =
    wire_uint32 o.status
    ++ (if o.status == nfs3_ok
        then wire_create3resok o.resok
        else wire_create3resfail (create3resfail_lens.0 o))

abbrev pub decoded_create3res : Create3Res → Create3Res → Create3Res
decoded_create3res o old =
    if o.status == nfs3_ok
    then record { status = o.status; resok = (decoded_create3resok o.resok old.resok) }
    else create3resfail_lens.1
        (decoded_create3resfail (create3resfail_lens.0 o) (create3resfail_lens.0 old))
        (record old { status = o.status })

abbrev pub IsMkdir3ResOk : Mkdir3ResOk → Type 0
IsMkdir3ResOk o = IsPostOpFh3 o.obj × (IsPostOpAttr o.obj_attributes × (IsWccData o.dir_wcc))

abbrev pub wire_mkdir3resok : Mkdir3ResOk → List ℕ
wire_mkdir3resok o =
    wire_post_op_fh3 o.obj ++ (wire_post_op_attr o.obj_attributes ++ (wire_wcc_data o.dir_wcc))

abbrev pub decoded_mkdir3resok : Mkdir3ResOk → Mkdir3ResOk → Mkdir3ResOk
decoded_mkdir3resok o old = record {
  dir_wcc = (decoded_wcc_data o.dir_wcc old.dir_wcc);
  obj = (decoded_post_op_fh3 o.obj old.obj);
  obj_attributes = (decoded_post_op_attr o.obj_attributes old.obj_attributes);
}

abbrev pub IsMkdir3ResFail : Mkdir3ResFail → Type 0
IsMkdir3ResFail o = IsWccData o.dir_wcc

abbrev pub wire_mkdir3resfail : Mkdir3ResFail → List ℕ
wire_mkdir3resfail o = wire_wcc_data o.dir_wcc

abbrev pub decoded_mkdir3resfail : Mkdir3ResFail → Mkdir3ResFail → Mkdir3ResFail
decoded_mkdir3resfail o old = record { dir_wcc = (decoded_wcc_data o.dir_wcc old.dir_wcc) }

abbrev pub IsMkdir3Res : Mkdir3Res → Type 0
IsMkdir3Res o =
    IsU32 o.status
    × (if o.status == nfs3_ok
        then IsMkdir3ResOk o.resok
        else IsMkdir3ResFail (mkdir3resfail_lens.0 o))

abbrev pub wire_mkdir3res : Mkdir3Res → List ℕ
wire_mkdir3res o =
    wire_uint32 o.status
    ++ (if o.status == nfs3_ok
        then wire_mkdir3resok o.resok
        else wire_mkdir3resfail (mkdir3resfail_lens.0 o))

abbrev pub decoded_mkdir3res : Mkdir3Res → Mkdir3Res → Mkdir3Res
decoded_mkdir3res o old =
    if o.status == nfs3_ok
    then record { status = o.status; resok = (decoded_mkdir3resok o.resok old.resok) }
    else mkdir3resfail_lens.1
        (decoded_mkdir3resfail (mkdir3resfail_lens.0 o) (mkdir3resfail_lens.0 old))
        (record old { status = o.status })
