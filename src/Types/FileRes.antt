-- ===== src/Types/FileRes.antt =====
-- unfs3/nfs.h: the results of the procedures, READ to MKDIR.
use unfs2go.Xdr.Stream.{Opaque}
use unfs2go.Types.Names.{Writeverf3, Count3, Nfsstat3, StableHow, BoolT}
use unfs2go.Types.Attr.{PostOpAttr, WccData, PostOpFh3}

pub record Read3ResOk : Type 0 where
  pub file_attributes : PostOpAttr
  pub count : Count3
  pub eof : BoolT
  pub data_buf : Opaque

pub record Read3ResFail : Type 0 where
  pub file_attributes : PostOpAttr

pub record Read3Res : Type 0 where
  pub status : Nfsstat3
  pub resok : Read3ResOk

-- The arm `resfail` lies over the first members of `resok`.
abbrev pub read3resfail_lens : (Read3Res → Read3ResFail) × (Read3ResFail → Read3Res → Read3Res)
read3resfail_lens = (
  λ o. record { file_attributes = o.resok.file_attributes },
  λ v o. record o { resok = record o.resok { file_attributes = v.file_attributes } },
)

pub record Write3ResOk : Type 0 where
  pub file_wcc : WccData
  pub count : Count3
  pub committed : StableHow
  pub verf : Writeverf3

pub record Write3ResFail : Type 0 where
  pub file_wcc : WccData

pub record Write3Res : Type 0 where
  pub status : Nfsstat3
  pub resok : Write3ResOk

-- The arm `resfail` lies over the first members of `resok`.
abbrev pub write3resfail_lens :
    (Write3Res → Write3ResFail) × (Write3ResFail → Write3Res → Write3Res)
write3resfail_lens = (
  λ o. record { file_wcc = o.resok.file_wcc },
  λ v o. record o { resok = record o.resok { file_wcc = v.file_wcc } },
)

pub record Create3ResOk : Type 0 where
  pub dir_wcc : WccData
  pub obj : PostOpFh3
  pub obj_attributes : PostOpAttr

pub record Create3ResFail : Type 0 where
  pub dir_wcc : WccData

pub record Create3Res : Type 0 where
  pub status : Nfsstat3
  pub resok : Create3ResOk

-- The arm `resfail` lies over the first members of `resok`.
abbrev pub create3resfail_lens :
    (Create3Res → Create3ResFail) × (Create3ResFail → Create3Res → Create3Res)
create3resfail_lens = (
  λ o. record { dir_wcc = o.resok.dir_wcc },
  λ v o. record o { resok = record o.resok { dir_wcc = v.dir_wcc } },
)

pub record Mkdir3ResOk : Type 0 where
  pub dir_wcc : WccData
  pub obj : PostOpFh3
  pub obj_attributes : PostOpAttr

pub record Mkdir3ResFail : Type 0 where
  pub dir_wcc : WccData

pub record Mkdir3Res : Type 0 where
  pub status : Nfsstat3
  pub resok : Mkdir3ResOk

-- The arm `resfail` lies over the first members of `resok`.
abbrev pub mkdir3resfail_lens :
    (Mkdir3Res → Mkdir3ResFail) × (Mkdir3ResFail → Mkdir3Res → Mkdir3Res)
mkdir3resfail_lens = (
  λ o. record { dir_wcc = o.resok.dir_wcc },
  λ v o. record o { resok = record o.resok { dir_wcc = v.dir_wcc } },
)
