-- ===== src/Types/Entries.antt =====
-- unfs3/nfs.h: directory entries.
use unfs2go.Types.Names.{Filename3, Fileid3, Cookie3}
use unfs2go.Types.Attr.{PostOpAttr, PostOpFh3}

pub record Entry3Item : Type 0 where
  pub fileid : Fileid3
  pub name : Filename3
  pub cookie : Cookie3

pub record Entryplus3Item : Type 0 where
  pub fileid : Fileid3
  pub name : Filename3
  pub cookie : Cookie3
  pub name_attributes : PostOpAttr
  pub name_handle : PostOpFh3
