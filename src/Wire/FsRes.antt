-- ===== src/Wire/FsRes.antt =====
-- The wire format of the results of the procedures, FSSTAT to COMMIT (RFC 1813): the bytes of
-- a value, which values have a format, and what decoding makes of the object that was there before:
-- an arm of a union that did not travel is left as it was.
use unfs2go.Common.{ℕ, List, ◌++◌, ◌==◌, if◌then◌else◌}
use unfs2go.Types.Constants.{nfs3_ok}
use unfs2go.Types.FsRes.{
  Fsstat3ResOk, Fsstat3ResFail, Fsstat3Res, Fsinfo3ResOk, Fsinfo3ResFail, Fsinfo3Res,
  Pathconf3ResOk,
}
use unfs2go.Types.FsRes.{
  Pathconf3ResFail, Pathconf3Res, Commit3ResOk, Commit3ResFail, Commit3Res, fsstat3resfail_lens,
  fsinfo3resfail_lens,
}
use unfs2go.Types.FsRes.{pathconf3resfail_lens, commit3resfail_lens}
use unfs2go.Wire.Basic.{IsU32, IsU64, IsBool, IsVerf, wire_uint32, wire_uint64, wire_opaque}
use unfs2go.Wire.Attr.{
  IsNfstime3, wire_nfstime3, IsPostOpAttr, wire_post_op_attr, decoded_post_op_attr, IsWccData,
  wire_wcc_data,
}
use unfs2go.Wire.Attr.{decoded_wcc_data}

abbrev pub IsFsstat3ResOk : Fsstat3ResOk → Type 0
IsFsstat3ResOk o =
    IsPostOpAttr o.obj_attributes
    × (IsU64 o.tbytes
        × (IsU64 o.fbytes
            × (IsU64 o.abytes
                × (IsU64 o.tfiles × (IsU64 o.ffiles × (IsU64 o.afiles × (IsU32 o.invarsec)))))))

abbrev pub wire_fsstat3resok : Fsstat3ResOk → List ℕ
wire_fsstat3resok o =
    wire_post_op_attr o.obj_attributes
    ++ (wire_uint64 o.tbytes
        ++ (wire_uint64 o.fbytes
            ++ (wire_uint64 o.abytes
                ++ (wire_uint64 o.tfiles
                    ++ (wire_uint64 o.ffiles
                        ++ (wire_uint64 o.afiles ++ (wire_uint32 o.invarsec)))))))

abbrev pub decoded_fsstat3resok : Fsstat3ResOk → Fsstat3ResOk → Fsstat3ResOk
decoded_fsstat3resok o old = record {
  obj_attributes = (decoded_post_op_attr o.obj_attributes old.obj_attributes);
  tbytes = o.tbytes;
  fbytes = o.fbytes;
  abytes = o.abytes;
  tfiles = o.tfiles;
  ffiles = o.ffiles;
  afiles = o.afiles;
  invarsec = o.invarsec;
}

abbrev pub IsFsstat3ResFail : Fsstat3ResFail → Type 0
IsFsstat3ResFail o = IsPostOpAttr o.obj_attributes

abbrev pub wire_fsstat3resfail : Fsstat3ResFail → List ℕ
wire_fsstat3resfail o = wire_post_op_attr o.obj_attributes

abbrev pub decoded_fsstat3resfail : Fsstat3ResFail → Fsstat3ResFail → Fsstat3ResFail
decoded_fsstat3resfail o old = record {
  obj_attributes = (decoded_post_op_attr o.obj_attributes old.obj_attributes);
}

abbrev pub IsFsstat3Res : Fsstat3Res → Type 0
IsFsstat3Res o =
    IsU32 o.status
    × (if o.status == nfs3_ok
        then IsFsstat3ResOk o.resok
        else IsFsstat3ResFail (fsstat3resfail_lens.0 o))

abbrev pub wire_fsstat3res : Fsstat3Res → List ℕ
wire_fsstat3res o =
    wire_uint32 o.status
    ++ (if o.status == nfs3_ok
        then wire_fsstat3resok o.resok
        else wire_fsstat3resfail (fsstat3resfail_lens.0 o))

abbrev pub decoded_fsstat3res : Fsstat3Res → Fsstat3Res → Fsstat3Res
decoded_fsstat3res o old =
    if o.status == nfs3_ok
    then record { status = o.status; resok = (decoded_fsstat3resok o.resok old.resok) }
    else fsstat3resfail_lens.1
        (decoded_fsstat3resfail (fsstat3resfail_lens.0 o) (fsstat3resfail_lens.0 old))
        (record old { status = o.status })

abbrev pub IsFsinfo3ResOk : Fsinfo3ResOk → Type 0
IsFsinfo3ResOk o =
    IsPostOpAttr o.obj_attributes
    × (IsU32 o.rtmax
        × (IsU32 o.rtpref
            × (IsU32 o.rtmult
                × (IsU32 o.wtmax
                    × (IsU32 o.wtpref
                        × (IsU32 o.wtmult
                            × (IsU32 o.dtpref
                                × (IsU64 o.maxfilesize
                                    × (IsNfstime3 o.time_delta × (IsU32 o.properties))))))))))

abbrev pub wire_fsinfo3resok : Fsinfo3ResOk → List ℕ
wire_fsinfo3resok o =
    wire_post_op_attr o.obj_attributes
    ++ (wire_uint32 o.rtmax
        ++ (wire_uint32 o.rtpref
            ++ (wire_uint32 o.rtmult
                ++ (wire_uint32 o.wtmax
                    ++ (wire_uint32 o.wtpref
                        ++ (wire_uint32 o.wtmult
                            ++ (wire_uint32 o.dtpref
                                ++ (wire_uint64 o.maxfilesize
                                    ++ (wire_nfstime3 o.time_delta
                                        ++ (wire_uint32 o.properties))))))))))

abbrev pub decoded_fsinfo3resok : Fsinfo3ResOk → Fsinfo3ResOk → Fsinfo3ResOk
decoded_fsinfo3resok o old = record {
  obj_attributes = (decoded_post_op_attr o.obj_attributes old.obj_attributes);
  rtmax = o.rtmax;
  rtpref = o.rtpref;
  rtmult = o.rtmult;
  wtmax = o.wtmax;
  wtpref = o.wtpref;
  wtmult = o.wtmult;
  dtpref = o.dtpref;
  maxfilesize = o.maxfilesize;
  time_delta = o.time_delta;
  properties = o.properties;
}

abbrev pub IsFsinfo3ResFail : Fsinfo3ResFail → Type 0
IsFsinfo3ResFail o = IsPostOpAttr o.obj_attributes

abbrev pub wire_fsinfo3resfail : Fsinfo3ResFail → List ℕ
wire_fsinfo3resfail o = wire_post_op_attr o.obj_attributes

abbrev pub decoded_fsinfo3resfail : Fsinfo3ResFail → Fsinfo3ResFail → Fsinfo3ResFail
decoded_fsinfo3resfail o old = record {
  obj_attributes = (decoded_post_op_attr o.obj_attributes old.obj_attributes);
}

abbrev pub IsFsinfo3Res : Fsinfo3Res → Type 0
IsFsinfo3Res o =
    IsU32 o.status
    × (if o.status == nfs3_ok
        then IsFsinfo3ResOk o.resok
        else IsFsinfo3ResFail (fsinfo3resfail_lens.0 o))

abbrev pub wire_fsinfo3res : Fsinfo3Res → List ℕ
wire_fsinfo3res o =
    wire_uint32 o.status
    ++ (if o.status == nfs3_ok
        then wire_fsinfo3resok o.resok
        else wire_fsinfo3resfail (fsinfo3resfail_lens.0 o))

abbrev pub decoded_fsinfo3res : Fsinfo3Res → Fsinfo3Res → Fsinfo3Res
decoded_fsinfo3res o old =
    if o.status == nfs3_ok
    then record { status = o.status; resok = (decoded_fsinfo3resok o.resok old.resok) }
    else fsinfo3resfail_lens.1
        (decoded_fsinfo3resfail (fsinfo3resfail_lens.0 o) (fsinfo3resfail_lens.0 old))
        (record old { status = o.status })

abbrev pub IsPathconf3ResOk : Pathconf3ResOk → Type 0
IsPathconf3ResOk o =
    IsPostOpAttr o.obj_attributes
    × (IsU32 o.linkmax
        × (IsU32 o.name_max
            × (IsBool o.no_trunc
                × (IsBool o.chown_restricted
                    × (IsBool o.case_insensitive × (IsBool o.case_preserving))))))

abbrev pub wire_pathconf3resok : Pathconf3ResOk → List ℕ
wire_pathconf3resok o =
    wire_post_op_attr o.obj_attributes
    ++ (wire_uint32 o.linkmax
        ++ (wire_uint32 o.name_max
            ++ (wire_uint32 o.no_trunc
                ++ (wire_uint32 o.chown_restricted
                    ++ (wire_uint32 o.case_insensitive ++ (wire_uint32 o.case_preserving))))))

abbrev pub decoded_pathconf3resok : Pathconf3ResOk → Pathconf3ResOk → Pathconf3ResOk
decoded_pathconf3resok o old = record {
  obj_attributes = (decoded_post_op_attr o.obj_attributes old.obj_attributes);
  linkmax = o.linkmax;
  name_max = o.name_max;
  no_trunc = o.no_trunc;
  chown_restricted = o.chown_restricted;
  case_insensitive = o.case_insensitive;
  case_preserving = o.case_preserving;
}

abbrev pub IsPathconf3ResFail : Pathconf3ResFail → Type 0
IsPathconf3ResFail o = IsPostOpAttr o.obj_attributes

abbrev pub wire_pathconf3resfail : Pathconf3ResFail → List ℕ
wire_pathconf3resfail o = wire_post_op_attr o.obj_attributes

abbrev pub decoded_pathconf3resfail : Pathconf3ResFail → Pathconf3ResFail → Pathconf3ResFail
decoded_pathconf3resfail o old = record {
  obj_attributes = (decoded_post_op_attr o.obj_attributes old.obj_attributes);
}

abbrev pub IsPathconf3Res : Pathconf3Res → Type 0
IsPathconf3Res o =
    IsU32 o.status
    × (if o.status == nfs3_ok
        then IsPathconf3ResOk o.resok
        else IsPathconf3ResFail (pathconf3resfail_lens.0 o))

abbrev pub wire_pathconf3res : Pathconf3Res → List ℕ
wire_pathconf3res o =
    wire_uint32 o.status
    ++ (if o.status == nfs3_ok
        then wire_pathconf3resok o.resok
        else wire_pathconf3resfail (pathconf3resfail_lens.0 o))

abbrev pub decoded_pathconf3res : Pathconf3Res → Pathconf3Res → Pathconf3Res
decoded_pathconf3res o old =
    if o.status == nfs3_ok
    then record { status = o.status; resok = (decoded_pathconf3resok o.resok old.resok) }
    else pathconf3resfail_lens.1
        (decoded_pathconf3resfail (pathconf3resfail_lens.0 o) (pathconf3resfail_lens.0 old))
        (record old { status = o.status })

abbrev pub IsCommit3ResOk : Commit3ResOk → Type 0
IsCommit3ResOk o = IsWccData o.file_wcc × (IsVerf o.verf)

abbrev pub wire_commit3resok : Commit3ResOk → List ℕ
wire_commit3resok o = wire_wcc_data o.file_wcc ++ (wire_opaque o.verf)

abbrev pub decoded_commit3resok : Commit3ResOk → Commit3ResOk → Commit3ResOk
decoded_commit3resok o old = record {
  file_wcc = (decoded_wcc_data o.file_wcc old.file_wcc);
  verf = o.verf;
}

abbrev pub IsCommit3ResFail : Commit3ResFail → Type 0
IsCommit3ResFail o = IsWccData o.file_wcc

abbrev pub wire_commit3resfail : Commit3ResFail → List ℕ
wire_commit3resfail o = wire_wcc_data o.file_wcc

abbrev pub decoded_commit3resfail : Commit3ResFail → Commit3ResFail → Commit3ResFail
decoded_commit3resfail o old = record { file_wcc = (decoded_wcc_data o.file_wcc old.file_wcc) }

abbrev pub IsCommit3Res : Commit3Res → Type 0
IsCommit3Res o =
    IsU32 o.status
    × (if o.status == nfs3_ok
        then IsCommit3ResOk o.resok
        else IsCommit3ResFail (commit3resfail_lens.0 o))

abbrev pub wire_commit3res : Commit3Res → List ℕ
wire_commit3res o =
    wire_uint32 o.status
    ++ (if o.status == nfs3_ok
        then wire_commit3resok o.resok
        else wire_commit3resfail (commit3resfail_lens.0 o))

abbrev pub decoded_commit3res : Commit3Res → Commit3Res → Commit3Res
decoded_commit3res o old =
    if o.status == nfs3_ok
    then record { status = o.status; resok = (decoded_commit3resok o.resok old.resok) }
    else commit3resfail_lens.1
        (decoded_commit3resfail (commit3resfail_lens.0 o) (commit3resfail_lens.0 old))
        (record old { status = o.status })
