-- ===== src/Attributes.antt =====
-- unfs3/attr.c: attributes for replies.
pub mod Laws
use unfs2go.Common.{
  ℕ, ◌+◌, ◌-◌, ◌*◌, ◌/◌, ◌%◌, ◌^◌, Bool, not, ◌&&◌, bit_and, bit_or, ltb, ◌==◌, if◌then◌else◌,
}
use unfs2go.Xdr.Stream.{CharPtr}
use unfs2go.Types.Stat.{
  GoStatstruct, s_irusr, s_iwusr, s_ixusr, s_irgrp, s_iwgrp, s_ixgrp, s_iroth, s_ixoth, s_islnk,
  s_isreg, s_isdir, s_ischr, s_isblk, s_isfifo, s_issock,
}
use unfs2go.Types.Attr.{Nfstime3, Fattr3, PostOpAttr, WccAttr, PreOpAttr}
use unfs2go.Types.Sattr.{Sattr3}
use unfs2go.Types.Names.{BoolT, Ftype3}
use unfs2go.Types.Constants.{
  bool_true, bool_false, nfs3_ok, nf3reg, nf3dir, nf3blk, nf3chr, nf3lnk, nf3sock, nf3fifo,
}
use unfs2go.Types.Zero.{zero_fattr3}
use unfs2go.Backend.{Backend, Server}

-- A static object: its union is zero.
abbrev pub error_attr : PostOpAttr
error_attr = record { attributes_follow = bool_false; attributes = zero_fattr3 }

unfoldable pub get_post_err : PostOpAttr
get_post_err = error_attr

-- `seconds` is a `uint32`, a `time_t` has 64 bits.
abbrev pub time_of : ℕ → Nfstime3
time_of t = record { seconds = t % 2 ^ 32; nseconds = 0 }

abbrev wcc_of : GoStatstruct → WccAttr
wcc_of buf = record {
  size = buf.st_size;
  mtime = time_of buf.st_mtime;
  ctime = time_of buf.st_ctime;
}

unfoldable pub get_pre_buf : GoStatstruct → PreOpAttr
get_pre_buf buf = record { attributes_follow = bool_true; attributes = wcc_of buf }

-- The ladder of tests on the mode.
unfoldable pub type_of_mode : ℕ → Ftype3
type_of_mode m =
    if s_isdir m
    then nf3dir
    else if s_isblk m
    then nf3blk
    else if s_ischr m
    then nf3chr
    else if s_islnk m
    then nf3lnk
    else if s_issock m
    then nf3sock
    else if s_isfifo m
    then nf3fifo
    else nf3reg

-- `if (mode & x) mode |= r;`
abbrev readable_if : ℕ → ℕ → ℕ → ℕ
readable_if x r m = if not (bit_and m x == 0) then bit_or m r else m

unfoldable pub adapt_mode : BoolT → ℕ → ℕ
adapt_mode opt m =
    if not (opt == bool_false) && s_isreg m
    then readable_if s_ixoth s_iroth (readable_if s_ixgrp s_irgrp (readable_if s_ixusr s_irusr m))
    else m

-- A `short` that becomes a `uint32`.
unfoldable pub sign_extend : ℕ → ℕ
sign_extend n = if ltb n (2 ^ 15) then n else n + (2 ^ 32 - 2 ^ 16)

-- `st_blocks * 512` is computed in 32 bits.
unfoldable pub attributes_of : BoolT → GoStatstruct → Fattr3
unfolding type_of_mode adapt_mode sign_extend
attributes_of opt buf = record {
  type = type_of_mode buf.st_mode;
  mode = bit_and (adapt_mode opt buf.st_mode) 0xffff;
  nlink = sign_extend buf.st_nlink;
  uid = buf.st_uid;
  gid = buf.st_gid;
  size = buf.st_size;
  used = buf.st_blocks * 512 % 2 ^ 32;
  rdev = record {
    specdata1 = bit_and (buf.st_rdev / 2 ^ 8) 0xff;
    specdata2 = bit_and buf.st_rdev 0xff;
  };
  fsid = bit_and buf.st_dev 0xffff_ffff;
  fileid = buf.st_ino;
  atime = time_of buf.st_atime;
  mtime = time_of buf.st_mtime;
  ctime = time_of buf.st_ctime;
}

-- Read, write and search for the owner and the group, read and search for others.
abbrev default_mode : ℕ
default_mode = bit_or s_irusr (
    bit_or s_iwusr
      (bit_or s_ixusr (bit_or s_irgrp (bit_or s_iwgrp (bit_or s_ixgrp (bit_or s_iroth s_ixoth))))))

unfoldable pub create_mode : Sattr3 → ℕ
create_mode new = if new.mode.set_it == bool_true then new.mode.mode else default_mode

module _ (srv : Server) where
  open srv use {backend.{State, go_lstat}, stack, opt_readable_executables}

  unfoldable pub get_post_buf : GoStatstruct → PostOpAttr
  unfolding attributes_of
  get_post_buf buf = record {
    attributes_follow = bool_true;
    attributes = attributes_of opt_readable_executables buf;
  }

  unfoldable pub get_post : CharPtr → State → PostOpAttr × State
  unfolding get_post_buf
  get_post path s =
      let (status, buf, s') = go_lstat path stack.buf s in
      if not (status == nfs3_ok) then (error_attr, s') else (get_post_buf buf, s')

  unfoldable pub get_pre : CharPtr → State → PreOpAttr × State
  get_pre path s =
      let (status, buf, s') = go_lstat path stack.buf s in
      if not (status == nfs3_ok)
      then (record { attributes_follow = bool_false; attributes = stack.wcc }, s')
      else (record { attributes_follow = bool_true; attributes = wcc_of buf }, s')
