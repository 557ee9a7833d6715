-- ===== src/Types/Res.antt =====
-- unfs3/nfs.h: the results of the procedures, GETATTR to READLINK.
use unfs2go.Types.Names.{Uint32, Nfspath3, Nfsstat3}
use unfs2go.Types.Attr.{NfsFh3, Fattr3, PostOpAttr, WccData}

pub record Getattr3ResOk : Type 0 where
  pub obj_attributes : Fattr3

pub record Getattr3Res : Type 0 where
  pub status : Nfsstat3
  pub resok : Getattr3ResOk

pub record Setattr3ResOk : Type 0 where
  pub obj_wcc : WccData

pub record Setattr3ResFail : Type 0 where
  pub obj_wcc : WccData

pub record Setattr3Res : Type 0 where
  pub status : Nfsstat3
  pub resok : Setattr3ResOk

-- The arm `resfail` lies over the first members of `resok`.
abbrev pub setattr3resfail_lens :
    (Setattr3Res → Setattr3ResFail) × (Setattr3ResFail → Setattr3Res → Setattr3Res)
setattr3resfail_lens = (
  λ o. record { obj_wcc = o.resok.obj_wcc },
  λ v o. record o { resok = record o.resok { obj_wcc = v.obj_wcc } },
)

pub record Lookup3ResOk : Type 0 where
  pub dir_attributes : PostOpAttr
  pub object : NfsFh3
  pub obj_attributes : PostOpAttr

pub record Lookup3ResFail : Type 0 where
  pub dir_attributes : PostOpAttr

pub record Lookup3Res : Type 0 where
  pub status : Nfsstat3
  pub resok : Lookup3ResOk

-- The arm `resfail` lies over the first members of `resok`.
abbrev pub lookup3resfail_lens :
    (Lookup3Res → Lookup3ResFail) × (Lookup3ResFail → Lookup3Res → Lookup3Res)
lookup3resfail_lens = (
  λ o. record { dir_attributes = o.resok.dir_attributes },
  λ v o. record o { resok = record o.resok { dir_attributes = v.dir_attributes } },
)

pub record Access3ResOk : Type 0 where
  pub obj_attributes : PostOpAttr
  pub access : Uint32

pub record Access3ResFail : Type 0 where
  pub obj_attributes : PostOpAttr

pub record Access3Res : Type 0 where
  pub status : Nfsstat3
  pub resok : Access3ResOk

-- The arm `resfail` lies over the first members of `resok`.
abbrev pub access3resfail_lens :
    (Access3Res → Access3ResFail) × (Access3ResFail → Access3Res → Access3Res)
access3resfail_lens = (
  λ o. record { obj_attributes = o.resok.obj_attributes },
  λ v o. record o { resok = record o.resok { obj_attributes = v.obj_attributes } },
)

pub record Readlink3ResOk : Type 0 where
  pub symlink_attributes : PostOpAttr
  pub data_path : Nfspath3

pub record Readlink3ResFail : Type 0 where
  pub symlink_attributes : PostOpAttr

pub record Readlink3Res : Type 0 where
  pub status : Nfsstat3
  pub resok : Readlink3ResOk

-- The arm `resfail` lies over the first members of `resok`.
abbrev pub readlink3resfail_lens :
    (Readlink3Res → Readlink3ResFail) × (Readlink3ResFail → Readlink3Res → Readlink3Res)
readlink3resfail_lens = (
  λ o. record { symlink_attributes = o.resok.symlink_attributes },
  λ v o. record o { resok = record o.resok { symlink_attributes = v.symlink_attributes } },
)
