-- ===== src/Types/DirRes.antt =====
-- unfs3/nfs.h: the results of READDIR and READDIRPLUS.
use unfs2go.Common.{List}
use unfs2go.Types.Names.{Cookieverf3, Nfsstat3, BoolT}
use unfs2go.Types.Attr.{PostOpAttr}
use unfs2go.Types.Entries.{Entry3Item, Entryplus3Item}

pub record Dirlist3 : Type 0 where
  pub entries : List Entry3Item
  pub eof : BoolT

pub record Readdir3ResOk : Type 0 where
  pub dir_attributes : PostOpAttr
  pub cookieverf : Cookieverf3
  pub reply : Dirlist3

pub record Readdir3ResFail : Type 0 where
  pub dir_attributes : PostOpAttr

pub record Readdir3Res : Type 0 where
  pub status : Nfsstat3
  pub resok : Readdir3ResOk

-- The arm `resfail` lies over the first members of `resok`.
abbrev pub readdir3resfail_lens :
    (Readdir3Res → Readdir3ResFail) × (Readdir3ResFail → Readdir3Res → Readdir3Res)
readdir3resfail_lens = (
  λ o. record { dir_attributes = o.resok.dir_attributes },
  λ v o. record o { resok = record o.resok { dir_attributes = v.dir_attributes } },
)

pub record Dirlistplus3 : Type 0 where
  pub entries : List Entryplus3Item
  pub eof : BoolT

pub record Readdirplus3ResOk : Type 0 where
  pub dir_attributes : PostOpAttr
  pub cookieverf : Cookieverf3
  pub reply : Dirlistplus3

pub record Readdirplus3ResFail : Type 0 where
  pub dir_attributes : PostOpAttr

pub record Readdirplus3Res : Type 0 where
  pub status : Nfsstat3
  pub resok : Readdirplus3ResOk

-- The arm `resfail` lies over the first members of `resok`.
abbrev pub readdirplus3resfail_lens :
    (Readdirplus3Res → Readdirplus3ResFail)
    × (Readdirplus3ResFail → Readdirplus3Res → Readdirplus3Res)
readdirplus3resfail_lens = (
  λ o. record { dir_attributes = o.resok.dir_attributes },
  λ v o. record o { resok = record o.resok { dir_attributes = v.dir_attributes } },
)
