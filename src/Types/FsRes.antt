-- ===== src/Types/FsRes.antt =====
-- unfs3/nfs.h: the results of the procedures, FSSTAT to COMMIT.
use unfs2go.Types.Names.{Uint32, Writeverf3, Size3, Nfsstat3, BoolT}
use unfs2go.Types.Attr.{Nfstime3, PostOpAttr, WccData}

pub record Fsstat3ResOk : Type 0 where
  pub obj_attributes : PostOpAttr
  pub tbytes : Size3
  pub fbytes : Size3
  pub abytes : Size3
  pub tfiles : Size3
  pub ffiles : Size3
  pub afiles : Size3
  pub invarsec : Uint32

pub record Fsstat3ResFail : Type 0 where
  pub obj_attributes : PostOpAttr

pub record Fsstat3Res : Type 0 where
  pub status : Nfsstat3
  pub resok : Fsstat3ResOk

-- The arm `resfail` lies over the first members of `resok`.
abbrev pub fsstat3resfail_lens :
    (Fsstat3Res → Fsstat3ResFail) × (Fsstat3ResFail → Fsstat3Res → Fsstat3Res)
fsstat3resfail_lens = (
  λ o. record { obj_attributes = o.resok.obj_attributes },
  λ v o. record o { resok = record o.resok { obj_attributes = v.obj_attributes } },
)

pub record Fsinfo3ResOk : Type 0 where
  pub obj_attributes : PostOpAttr
  pub rtmax : Uint32
  pub rtpref : Uint32
  pub rtmult : Uint32
  pub wtmax : Uint32
  pub wtpref : Uint32
  pub wtmult : Uint32
  pub dtpref : Uint32
  pub maxfilesize : Size3
  pub time_delta : Nfstime3
  pub properties : Uint32

pub record Fsinfo3ResFail : Type 0 where
  pub obj_attributes : PostOpAttr

pub record Fsinfo3Res : Type 0 where
  pub status : Nfsstat3
  pub resok : Fsinfo3ResOk

-- The arm `resfail` lies over the first members of `resok`.
abbrev pub fsinfo3resfail_lens :
    (Fsinfo3Res → Fsinfo3ResFail) × (Fsinfo3ResFail → Fsinfo3Res → Fsinfo3Res)
fsinfo3resfail_lens = (
  λ o. record { obj_attributes = o.resok.obj_attributes },
  λ v o. record o { resok = record o.resok { obj_attributes = v.obj_attributes } },
)

pub record Pathconf3ResOk : Type 0 where
  pub obj_attributes : PostOpAttr
  pub linkmax : Uint32
  pub name_max : Uint32
  pub no_trunc : BoolT
  pub chown_restricted : BoolT
  pub case_insensitive : BoolT
  pub case_preserving : BoolT

pub record Pathconf3ResFail : Type 0 where
  pub obj_attributes : PostOpAttr

pub record Pathconf3Res : Type 0 where
  pub status : Nfsstat3
  pub resok : Pathconf3ResOk

-- The arm `resfail` lies over the first members of `resok`.
abbrev pub pathconf3resfail_lens :
    (Pathconf3Res → Pathconf3ResFail) × (Pathconf3ResFail → Pathconf3Res → Pathconf3Res)
pathconf3resfail_lens = (
  λ o. record { obj_attributes = o.resok.obj_attributes },
  λ v o. record o { resok = record o.resok { obj_attributes = v.obj_attributes } },
)

pub record Commit3ResOk : Type 0 where
  pub file_wcc : WccData
  pub verf : Writeverf3

pub record Commit3ResFail : Type 0 where
  pub file_wcc : WccData

pub record Commit3Res : Type 0 where
  pub status : Nfsstat3
  pub resok : Commit3ResOk

-- The arm `resfail` lies over the first members of `resok`.
abbrev pub commit3resfail_lens :
    (Commit3Res → Commit3ResFail) × (Commit3ResFail → Commit3Res → Commit3Res)
commit3resfail_lens = (
  λ o. record { file_wcc = o.resok.file_wcc },
  λ v o. record o { resok = record o.resok { file_wcc = v.file_wcc } },
)
