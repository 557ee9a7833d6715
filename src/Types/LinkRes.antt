-- ===== src/Types/LinkRes.antt =====
-- unfs3/nfs.h: the results of the procedures, SYMLINK to LINK.
use unfs2go.Types.Names.{Nfsstat3}
use unfs2go.Types.Attr.{PostOpAttr, WccData, PostOpFh3}

pub record Symlink3ResOk : Type 0 where
  pub dir_wcc : WccData
  pub obj : PostOpFh3
  pub obj_attributes : PostOpAttr

pub record Symlink3ResFail : Type 0 where
  pub dir_wcc : WccData

pub record Symlink3Res : Type 0 where
  pub status : Nfsstat3
  pub resok : Symlink3ResOk

-- The arm `resfail` lies over the first members of `resok`.
abbrev pub symlink3resfail_lens :
    (Symlink3Res → Symlink3ResFail) × (Symlink3ResFail → Symlink3Res → Symlink3Res)
symlink3resfail_lens = (
  λ o. record { dir_wcc = o.resok.dir_wcc },
  λ v o. record o { resok = record o.resok { dir_wcc = v.dir_wcc } },
)

pub record Mknod3ResOk : Type 0 where
  pub dir_wcc : WccData
  pub obj : PostOpFh3
  pub obj_attributes : PostOpAttr

pub record Mknod3ResFail : Type 0 where
  pub dir_wcc : WccData

pub record Mknod3Res : Type 0 where
  pub status : Nfsstat3
  pub resok : Mknod3ResOk

-- The arm `resfail` lies over the first members of `resok`.
abbrev pub mknod3resfail_lens :
    (Mknod3Res → Mknod3ResFail) × (Mknod3ResFail → Mknod3Res → Mknod3Res)
mknod3resfail_lens = (
  λ o. record { dir_wcc = o.resok.dir_wcc },
  λ v o. record o { resok = record o.resok { dir_wcc = v.dir_wcc } },
)

pub record Remove3ResOk : Type 0 where
  pub dir_wcc : WccData

pub record Remove3ResFail : Type 0 where
  pub dir_wcc : WccData

pub record Remove3Res : Type 0 where
  pub status : Nfsstat3
  pub resok : Remove3ResOk

-- The arm `resfail` lies over the first members of `resok`.
abbrev pub remove3resfail_lens :
    (Remove3Res → Remove3ResFail) × (Remove3ResFail → Remove3Res → Remove3Res)
remove3resfail_lens = (
  λ o. record { dir_wcc = o.resok.dir_wcc },
  λ v o. record o { resok = record o.resok { dir_wcc = v.dir_wcc } },
)

pub record Rmdir3ResOk : Type 0 where
  pub dir_wcc : WccData

pub record Rmdir3ResFail : Type 0 where
  pub dir_wcc : WccData

pub record Rmdir3Res : Type 0 where
  pub status : Nfsstat3
  pub resok : Rmdir3ResOk

-- The arm `resfail` lies over the first members of `resok`.
abbrev pub rmdir3resfail_lens :
    (Rmdir3Res → Rmdir3ResFail) × (Rmdir3ResFail → Rmdir3Res → Rmdir3Res)
rmdir3resfail_lens = (
  λ o. record { dir_wcc = o.resok.dir_wcc },
  λ v o. record o { resok = record o.resok { dir_wcc = v.dir_wcc } },
)

pub record Rename3ResOk : Type 0 where
  pub fromdir_wcc : WccData
  pub todir_wcc : WccData

pub record Rename3ResFail : Type 0 where
  pub fromdir_wcc : WccData
  pub todir_wcc : WccData

pub record Rename3Res : Type 0 where
  pub status : Nfsstat3
  pub resok : Rename3ResOk

-- The arm `resfail` lies over the first members of `resok`.
abbrev pub rename3resfail_lens :
    (Rename3Res → Rename3ResFail) × (Rename3ResFail → Rename3Res → Rename3Res)
rename3resfail_lens = (
  λ o. record { fromdir_wcc = o.resok.fromdir_wcc; todir_wcc = o.resok.todir_wcc },
  λ v o. record o {
    resok = record o.resok { fromdir_wcc = v.fromdir_wcc; todir_wcc = v.todir_wcc };
  },
)

pub record Link3ResOk : Type 0 where
  pub file_attributes : PostOpAttr
  pub linkdir_wcc : WccData

pub record Link3ResFail : Type 0 where
  pub file_attributes : PostOpAttr
  pub linkdir_wcc : WccData

pub record Link3Res : Type 0 where
  pub status : Nfsstat3
  pub resok : Link3ResOk

-- The arm `resfail` lies over the first members of `resok`.
abbrev pub link3resfail_lens : (Link3Res → Link3ResFail) × (Link3ResFail → Link3Res → Link3Res)
link3resfail_lens = (
  λ o. record { file_attributes = o.resok.file_attributes; linkdir_wcc = o.resok.linkdir_wcc },
  λ v o. record o {
    resok = record o.resok { file_attributes = v.file_attributes; linkdir_wcc = v.linkdir_wcc };
  },
)
