-- ===== src/Wire/LinkRes.antt =====
-- The wire format of the results of the procedures, SYMLINK to LINK (RFC 1813): the bytes of
-- a value, which values have a format, and what decoding makes of the object that was there before:
-- an arm of a union that did not travel is left as it was.
use unfs2go.Common.{ℕ, List, ◌++◌, ◌==◌, if◌then◌else◌}
use unfs2go.Types.Constants.{nfs3_ok}
use unfs2go.Types.LinkRes.{
  Symlink3ResOk, Symlink3ResFail, Symlink3Res, Mknod3ResOk, Mknod3ResFail, Mknod3Res, Remove3ResOk,
}
use unfs2go.Types.LinkRes.{
  Remove3ResFail, Remove3Res, Rmdir3ResOk, Rmdir3ResFail, Rmdir3Res, Rename3ResOk, Rename3ResFail,
}
use unfs2go.Types.LinkRes.{
  Rename3Res, Link3ResOk, Link3ResFail, Link3Res, symlink3resfail_lens, mknod3resfail_lens,
  remove3resfail_lens,
}
use unfs2go.Types.LinkRes.{rmdir3resfail_lens, rename3resfail_lens, link3resfail_lens}
use unfs2go.Wire.Basic.{IsU32, wire_uint32}
use unfs2go.Wire.Attr.{
  IsPostOpAttr, wire_post_op_attr, decoded_post_op_attr, IsWccData, wire_wcc_data, decoded_wcc_data,
  IsPostOpFh3,
}
use unfs2go.Wire.Attr.{wire_post_op_fh3, decoded_post_op_fh3}

abbrev pub IsSymlink3ResOk : Symlink3ResOk → Type 0
IsSymlink3ResOk o = IsPostOpFh3 o.obj × (IsPostOpAttr o.obj_attributes × (IsWccData o.dir_wcc))

abbrev pub wire_symlink3resok : Symlink3ResOk → List ℕ
wire_symlink3resok o =
    wire_post_op_fh3 o.obj ++ (wire_post_op_attr o.obj_attributes ++ (wire_wcc_data o.dir_wcc))

abbrev pub decoded_symlink3resok : Symlink3ResOk → Symlink3ResOk → Symlink3ResOk
decoded_symlink3resok o old = record {
  dir_wcc = (decoded_wcc_data o.dir_wcc old.dir_wcc);
  obj = (decoded_post_op_fh3 o.obj old.obj);
  obj_attributes = (decoded_post_op_attr o.obj_attributes old.obj_attributes);
}

abbrev pub IsSymlink3ResFail : Symlink3ResFail → Type 0
IsSymlink3ResFail o = IsWccData o.dir_wcc

abbrev pub wire_symlink3resfail : Symlink3ResFail → List ℕ
wire_symlink3resfail o = wire_wcc_data o.dir_wcc

abbrev pub decoded_symlink3resfail : Symlink3ResFail → Symlink3ResFail → Symlink3ResFail
decoded_symlink3resfail o old = record { dir_wcc = (decoded_wcc_data o.dir_wcc old.dir_wcc) }

abbrev pub IsSymlink3Res : Symlink3Res → Type 0
IsSymlink3Res o =
    IsU32 o.status
    × (if o.status == nfs3_ok
        then IsSymlink3ResOk o.resok
        else IsSymlink3ResFail (symlink3resfail_lens.0 o))

abbrev pub wire_symlink3res : Symlink3Res → List ℕ
wire_symlink3res o =
    wire_uint32 o.status
    ++ (if o.status == nfs3_ok
        then wire_symlink3resok o.resok
        else wire_symlink3resfail (symlink3resfail_lens.0 o))

abbrev pub decoded_symlink3res : Symlink3Res → Symlink3Res → Symlink3Res
decoded_symlink3res o old =
    if o.status == nfs3_ok
    then record { status = o.status; resok = (decoded_symlink3resok o.resok old.resok) }
    else symlink3resfail_lens.1
        (decoded_symlink3resfail (symlink3resfail_lens.0 o) (symlink3resfail_lens.0 old))
        (record old { status = o.status })

abbrev pub IsMknod3ResOk : Mknod3ResOk → Type 0
IsMknod3ResOk o = IsPostOpFh3 o.obj × (IsPostOpAttr o.obj_attributes × (IsWccData o.dir_wcc))

abbrev pub wire_mknod3resok : Mknod3ResOk → List ℕ
wire_mknod3resok o =
    wire_post_op_fh3 o.obj ++ (wire_post_op_attr o.obj_attributes ++ (wire_wcc_data o.dir_wcc))

abbrev pub decoded_mknod3resok : Mknod3ResOk → Mknod3ResOk → Mknod3ResOk
decoded_mknod3resok o old = record {
  dir_wcc = (decoded_wcc_data o.dir_wcc old.dir_wcc);
  obj = (decoded_post_op_fh3 o.obj old.obj);
  obj_attributes = (decoded_post_op_attr o.obj_attributes old.obj_attributes);
}

abbrev pub IsMknod3ResFail : Mknod3ResFail → Type 0
IsMknod3ResFail o = IsWccData o.dir_wcc

abbrev pub wire_mknod3resfail : Mknod3ResFail → List ℕ
wire_mknod3resfail o = wire_wcc_data o.dir_wcc

abbrev pub decoded_mknod3resfail : Mknod3ResFail → Mknod3ResFail → Mknod3ResFail
decoded_mknod3resfail o old = record { dir_wcc = (decoded_wcc_data o.dir_wcc old.dir_wcc) }

abbrev pub IsMknod3Res : Mknod3Res → Type 0
IsMknod3Res o =
    IsU32 o.status
    × (if o.status == nfs3_ok
        then IsMknod3ResOk o.resok
        else IsMknod3ResFail (mknod3resfail_lens.0 o))

abbrev pub wire_mknod3res : Mknod3Res → List ℕ
wire_mknod3res o =
    wire_uint32 o.status
    ++ (if o.status == nfs3_ok
        then wire_mknod3resok o.resok
        else wire_mknod3resfail (mknod3resfail_lens.0 o))

abbrev pub decoded_mknod3res : Mknod3Res → Mknod3Res → Mknod3Res
decoded_mknod3res o old =
    if o.status == nfs3_ok
    then record { status = o.status; resok = (decoded_mknod3resok o.resok old.resok) }
    else mknod3resfail_lens.1
        (decoded_mknod3resfail (mknod3resfail_lens.0 o) (mknod3resfail_lens.0 old))
        (record old { status = o.status })

abbrev pub IsRemove3ResOk : Remove3ResOk → Type 0
IsRemove3ResOk o = IsWccData o.dir_wcc

abbrev pub wire_remove3resok : Remove3ResOk → List ℕ
wire_remove3resok o = wire_wcc_data o.dir_wcc

abbrev pub decoded_remove3resok : Remove3ResOk → Remove3ResOk → Remove3ResOk
decoded_remove3resok o old = record { dir_wcc = (decoded_wcc_data o.dir_wcc old.dir_wcc) }

abbrev pub IsRemove3ResFail : Remove3ResFail → Type 0
IsRemove3ResFail o = IsWccData o.dir_wcc

abbrev pub wire_remove3resfail : Remove3ResFail → List ℕ
wire_remove3resfail o = wire_wcc_data o.dir_wcc

abbrev pub decoded_remove3resfail : Remove3ResFail → Remove3ResFail → Remove3ResFail
decoded_remove3resfail o old = record { dir_wcc = (decoded_wcc_data o.dir_wcc old.dir_wcc) }

abbrev pub IsRemove3Res : Remove3Res → Type 0
IsRemove3Res o =
    IsU32 o.status
    × (if o.status == nfs3_ok
        then IsRemove3ResOk o.resok
        else IsRemove3ResFail (remove3resfail_lens.0 o))

abbrev pub wire_remove3res : Remove3Res → List ℕ
wire_remove3res o =
    wire_uint32 o.status
    ++ (if o.status == nfs3_ok
        then wire_remove3resok o.resok
        else wire_remove3resfail (remove3resfail_lens.0 o))

abbrev pub decoded_remove3res : Remove3Res → Remove3Res → Remove3Res
decoded_remove3res o old =
    if o.status == nfs3_ok
    then record { status = o.status; resok = (decoded_remove3resok o.resok old.resok) }
    else remove3resfail_lens.1
        (decoded_remove3resfail (remove3resfail_lens.0 o) (remove3resfail_lens.0 old))
        (record old { status = o.status })

abbrev pub IsRmdir3ResOk : Rmdir3ResOk → Type 0
IsRmdir3ResOk o = IsWccData o.dir_wcc

abbrev pub wire_rmdir3resok : Rmdir3ResOk → List ℕ
wire_rmdir3resok o = wire_wcc_data o.dir_wcc

abbrev pub decoded_rmdir3resok : Rmdir3ResOk → Rmdir3ResOk → Rmdir3ResOk
decoded_rmdir3resok o old = record { dir_wcc = (decoded_wcc_data o.dir_wcc old.dir_wcc) }

abbrev pub IsRmdir3ResFail : Rmdir3ResFail → Type 0
IsRmdir3ResFail o = IsWccData o.dir_wcc

abbrev pub wire_rmdir3resfail : Rmdir3ResFail → List ℕ
wire_rmdir3resfail o = wire_wcc_data o.dir_wcc

abbrev pub decoded_rmdir3resfail : Rmdir3ResFail → Rmdir3ResFail → Rmdir3ResFail
decoded_rmdir3resfail o old = record { dir_wcc = (decoded_wcc_data o.dir_wcc old.dir_wcc) }

abbrev pub IsRmdir3Res : Rmdir3Res → Type 0
IsRmdir3Res o =
    IsU32 o.status
    × (if o.status == nfs3_ok
        then IsRmdir3ResOk o.resok
        else IsRmdir3ResFail (rmdir3resfail_lens.0 o))

abbrev pub wire_rmdir3res : Rmdir3Res → List ℕ
wire_rmdir3res o =
    wire_uint32 o.status
    ++ (if o.status == nfs3_ok
        then wire_rmdir3resok o.resok
        else wire_rmdir3resfail (rmdir3resfail_lens.0 o))

abbrev pub decoded_rmdir3res : Rmdir3Res → Rmdir3Res → Rmdir3Res
decoded_rmdir3res o old =
    if o.status == nfs3_ok
    then record { status = o.status; resok = (decoded_rmdir3resok o.resok old.resok) }
    else rmdir3resfail_lens.1
        (decoded_rmdir3resfail (rmdir3resfail_lens.0 o) (rmdir3resfail_lens.0 old))
        (record old { status = o.status })

abbrev pub IsRename3ResOk : Rename3ResOk → Type 0
IsRename3ResOk o = IsWccData o.fromdir_wcc × (IsWccData o.todir_wcc)

abbrev pub wire_rename3resok : Rename3ResOk → List ℕ
wire_rename3resok o = wire_wcc_data o.fromdir_wcc ++ (wire_wcc_data o.todir_wcc)

abbrev pub decoded_rename3resok : Rename3ResOk → Rename3ResOk → Rename3ResOk
decoded_rename3resok o old = record {
  fromdir_wcc = (decoded_wcc_data o.fromdir_wcc old.fromdir_wcc);
  todir_wcc = (decoded_wcc_data o.todir_wcc old.todir_wcc);
}

abbrev pub IsRename3ResFail : Rename3ResFail → Type 0
IsRename3ResFail o = IsWccData o.fromdir_wcc × (IsWccData o.todir_wcc)

abbrev pub wire_rename3resfail : Rename3ResFail → List ℕ
wire_rename3resfail o = wire_wcc_data o.fromdir_wcc ++ (wire_wcc_data o.todir_wcc)

abbrev pub decoded_rename3resfail : Rename3ResFail → Rename3ResFail → Rename3ResFail
decoded_rename3resfail o old = record {
  fromdir_wcc = (decoded_wcc_data o.fromdir_wcc old.fromdir_wcc);
  todir_wcc = (decoded_wcc_data o.todir_wcc old.todir_wcc);
}

abbrev pub IsRename3Res : Rename3Res → Type 0
IsRename3Res o =
    IsU32 o.status
    × (if o.status == nfs3_ok
        then IsRename3ResOk o.resok
        else IsRename3ResFail (rename3resfail_lens.0 o))

abbrev pub wire_rename3res : Rename3Res → List ℕ
wire_rename3res o =
    wire_uint32 o.status
    ++ (if o.status == nfs3_ok
        then wire_rename3resok o.resok
        else wire_rename3resfail (rename3resfail_lens.0 o))

abbrev pub decoded_rename3res : Rename3Res → Rename3Res → Rename3Res
decoded_rename3res o old =
    if o.status == nfs3_ok
    then record { status = o.status; resok = (decoded_rename3resok o.resok old.resok) }
    else rename3resfail_lens.1
        (decoded_rename3resfail (rename3resfail_lens.0 o) (rename3resfail_lens.0 old))
        (record old { status = o.status })

abbrev pub IsLink3ResOk : Link3ResOk → Type 0
IsLink3ResOk o = IsPostOpAttr o.file_attributes × (IsWccData o.linkdir_wcc)

abbrev pub wire_link3resok : Link3ResOk → List ℕ
wire_link3resok o = wire_post_op_attr o.file_attributes ++ (wire_wcc_data o.linkdir_wcc)

abbrev pub decoded_link3resok : Link3ResOk → Link3ResOk → Link3ResOk
decoded_link3resok o old = record {
  file_attributes = (decoded_post_op_attr o.file_attributes old.file_attributes);
  linkdir_wcc = (decoded_wcc_data o.linkdir_wcc old.linkdir_wcc);
}

abbrev pub IsLink3ResFail : Link3ResFail → Type 0
IsLink3ResFail o = IsPostOpAttr o.file_attributes × (IsWccData o.linkdir_wcc)

abbrev pub wire_link3resfail : Link3ResFail → List ℕ
wire_link3resfail o = wire_post_op_attr o.file_attributes ++ (wire_wcc_data o.linkdir_wcc)

abbrev pub decoded_link3resfail : Link3ResFail → Link3ResFail → Link3ResFail
decoded_link3resfail o old = record {
  file_attributes = (decoded_post_op_attr o.file_attributes old.file_attributes);
  linkdir_wcc = (decoded_wcc_data o.linkdir_wcc old.linkdir_wcc);
}

abbrev pub IsLink3Res : Link3Res → Type 0
IsLink3Res o =
    IsU32 o.status
    × (if o.status == nfs3_ok then IsLink3ResOk o.resok else IsLink3ResFail (link3resfail_lens.0 o))

abbrev pub wire_link3res : Link3Res → List ℕ
wire_link3res o =
    wire_uint32 o.status
    ++ (if o.status == nfs3_ok
        then wire_link3resok o.resok
        else wire_link3resfail (link3resfail_lens.0 o))

abbrev pub decoded_link3res : Link3Res → Link3Res → Link3Res
decoded_link3res o old =
    if o.status == nfs3_ok
    then record { status = o.status; resok = (decoded_link3resok o.resok old.resok) }
    else link3resfail_lens.1
        (decoded_link3resfail (link3resfail_lens.0 o) (link3resfail_lens.0 old))
        (record old { status = o.status })
