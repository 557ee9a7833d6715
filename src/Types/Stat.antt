-- ===== src/Types/Stat.antt =====
-- gosupport.h: file modes and `go_statstruct`. A `short` and a `time_t` are their bit patterns, of 16
-- and of 64 bits.
use unfs2go.Common.{ℕ, Bool, bit_and, ◌==◌}

abbrev pub s_ifmt : ℕ
s_ifmt = 0o170000

abbrev pub s_ifsock : ℕ
s_ifsock = 0o140000

abbrev pub s_iflnk : ℕ
s_iflnk = 0o120000

abbrev pub s_ifreg : ℕ
s_ifreg = 0o100000

abbrev pub s_ifblk : ℕ
s_ifblk = 0o060000

abbrev pub s_ifdir : ℕ
s_ifdir = 0o040000

abbrev pub s_ifchr : ℕ
s_ifchr = 0o020000

abbrev pub s_ififo : ℕ
s_ififo = 0o010000

abbrev pub s_irusr : ℕ
s_irusr = 0o400

abbrev pub s_iwusr : ℕ
s_iwusr = 0o200

abbrev pub s_ixusr : ℕ
s_ixusr = 0o100

abbrev pub s_irgrp : ℕ
s_irgrp = 0o040

abbrev pub s_iwgrp : ℕ
s_iwgrp = 0o020

abbrev pub s_ixgrp : ℕ
s_ixgrp = 0o010

abbrev pub s_iroth : ℕ
s_iroth = 0o004

abbrev pub s_ixoth : ℕ
s_ixoth = 0o001

abbrev pub s_islnk : ℕ → Bool
s_islnk m = bit_and m s_ifmt == s_iflnk

abbrev pub s_isreg : ℕ → Bool
s_isreg m = bit_and m s_ifmt == s_ifreg

abbrev pub s_isdir : ℕ → Bool
s_isdir m = bit_and m s_ifmt == s_ifdir

abbrev pub s_ischr : ℕ → Bool
s_ischr m = bit_and m s_ifmt == s_ifchr

abbrev pub s_isblk : ℕ → Bool
s_isblk m = bit_and m s_ifmt == s_ifblk

abbrev pub s_isfifo : ℕ → Bool
s_isfifo m = bit_and m s_ifmt == s_ififo

abbrev pub s_issock : ℕ → Bool
s_issock m = bit_and m s_ifmt == s_ifsock

pub record GoStatstruct : Type 0 where
  pub st_dev : ℕ
  pub st_ino : ℕ
  pub st_mode : ℕ
  pub st_nlink : ℕ
  pub st_uid : ℕ
  pub st_gid : ℕ
  pub st_rdev : ℕ
  pub st_size : ℕ
  pub st_blksize : ℕ
  pub st_blocks : ℕ
  pub st_atime : ℕ
  pub st_mtime : ℕ
  pub st_ctime : ℕ
