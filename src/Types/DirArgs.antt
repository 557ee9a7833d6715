-- ===== src/Types/DirArgs.antt =====
-- unfs3/nfs.h: the arguments of the procedures, MKNOD to COMMIT.
use unfs2go.Types.Names.{Cookie3, Cookieverf3, Offset3, Count3, Ftype3}
use unfs2go.Types.Attr.{Specdata3, NfsFh3}
use unfs2go.Types.Sattr.{Sattr3, Diropargs3}

pub record Devicedata3 : Type 0 where
  pub dev_attributes : Sattr3
  pub spec : Specdata3

pub record Mknoddata3 : Type 0 where
  pub type : Ftype3
  pub device : Devicedata3

-- The arm `pipe_attributes` lies over the first member of `device`.
abbrev pub pipe_attributes : (Mknoddata3 → Sattr3) × (Sattr3 → Mknoddata3 → Mknoddata3)
pipe_attributes = (
  λ o. o.device.dev_attributes,
  λ v o. record o { device = record o.device { dev_attributes = v } },
)

pub record Mknod3Args : Type 0 where
  pub where_args : Diropargs3
  pub what : Mknoddata3

pub record Remove3Args : Type 0 where
  pub object : Diropargs3

pub record Rmdir3Args : Type 0 where
  pub object : Diropargs3

pub record Rename3Args : Type 0 where
  pub from : Diropargs3
  pub to : Diropargs3

pub record Link3Args : Type 0 where
  pub file : NfsFh3
  pub link : Diropargs3

pub record Readdir3Args : Type 0 where
  pub dir : NfsFh3
  pub cookie : Cookie3
  pub cookieverf : Cookieverf3
  pub count : Count3

pub record Readdirplus3Args : Type 0 where
  pub dir : NfsFh3
  pub cookie : Cookie3
  pub cookieverf : Cookieverf3
  pub dircount : Count3
  pub maxcount : Count3

pub record Fsstat3Args : Type 0 where
  pub fsroot : NfsFh3

pub record Fsinfo3Args : Type 0 where
  pub fsroot : NfsFh3

pub record Pathconf3Args : Type 0 where
  pub object : NfsFh3

pub record Commit3Args : Type 0 where
  pub file : NfsFh3
  pub offset : Offset3
  pub count : Count3
