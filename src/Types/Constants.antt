-- ===== src/Types/Constants.antt =====
-- unfs3/nfs.h: the constants.
use unfs2go.Common.{ℕ}
use unfs2go.Types.Names.{Nfsstat3, Ftype3, TimeHow, StableHow, Createmode3, BoolT}

abbrev pub nfs3_ok : Nfsstat3
nfs3_ok = 0

abbrev pub nfs3err_perm : Nfsstat3
nfs3err_perm = 1

abbrev pub nfs3err_noent : Nfsstat3
nfs3err_noent = 2

abbrev pub nfs3err_io : Nfsstat3
nfs3err_io = 5

abbrev pub nfs3err_nxio : Nfsstat3
nfs3err_nxio = 6

abbrev pub nfs3err_acces : Nfsstat3
nfs3err_acces = 13

abbrev pub nfs3err_exist : Nfsstat3
nfs3err_exist = 17

abbrev pub nfs3err_xdev : Nfsstat3
nfs3err_xdev = 18

abbrev pub nfs3err_nodev : Nfsstat3
nfs3err_nodev = 19

abbrev pub nfs3err_notdir : Nfsstat3
nfs3err_notdir = 20

abbrev pub nfs3err_isdir : Nfsstat3
nfs3err_isdir = 21

abbrev pub nfs3err_inval : Nfsstat3
nfs3err_inval = 22

abbrev pub nfs3err_fbig : Nfsstat3
nfs3err_fbig = 27

abbrev pub nfs3err_nospc : Nfsstat3
nfs3err_nospc = 28

abbrev pub nfs3err_rofs : Nfsstat3
nfs3err_rofs = 30

abbrev pub nfs3err_mlink : Nfsstat3
nfs3err_mlink = 31

abbrev pub nfs3err_nametoolong : Nfsstat3
nfs3err_nametoolong = 63

abbrev pub nfs3err_notempty : Nfsstat3
nfs3err_notempty = 66

abbrev pub nfs3err_dquot : Nfsstat3
nfs3err_dquot = 69

abbrev pub nfs3err_stale : Nfsstat3
nfs3err_stale = 70

abbrev pub nfs3err_remote : Nfsstat3
nfs3err_remote = 71

abbrev pub nfs3err_badhandle : Nfsstat3
nfs3err_badhandle = 10001

abbrev pub nfs3err_not_sync : Nfsstat3
nfs3err_not_sync = 10002

abbrev pub nfs3err_bad_cookie : Nfsstat3
nfs3err_bad_cookie = 10003

abbrev pub nfs3err_notsupp : Nfsstat3
nfs3err_notsupp = 10004

abbrev pub nfs3err_toosmall : Nfsstat3
nfs3err_toosmall = 10005

abbrev pub nfs3err_serverfault : Nfsstat3
nfs3err_serverfault = 10006

abbrev pub nfs3err_badtype : Nfsstat3
nfs3err_badtype = 10007

abbrev pub nfs3err_jukebox : Nfsstat3
nfs3err_jukebox = 10008

abbrev pub nf3reg : Ftype3
nf3reg = 1

abbrev pub nf3dir : Ftype3
nf3dir = 2

abbrev pub nf3blk : Ftype3
nf3blk = 3

abbrev pub nf3chr : Ftype3
nf3chr = 4

abbrev pub nf3lnk : Ftype3
nf3lnk = 5

abbrev pub nf3sock : Ftype3
nf3sock = 6

abbrev pub nf3fifo : Ftype3
nf3fifo = 7

abbrev pub dont_change : TimeHow
dont_change = 0

abbrev pub set_to_server_time : TimeHow
set_to_server_time = 1

abbrev pub set_to_client_time : TimeHow
set_to_client_time = 2

abbrev pub unstable : StableHow
unstable = 0

abbrev pub data_sync : StableHow
data_sync = 1

abbrev pub file_sync : StableHow
file_sync = 2

abbrev pub unchecked : Createmode3
unchecked = 0

abbrev pub guarded : Createmode3
guarded = 1

abbrev pub exclusive : Createmode3
exclusive = 2

abbrev pub bool_true : BoolT
bool_true = 1

abbrev pub bool_false : BoolT
bool_false = 0

-- `~0` as a `u_int`.
abbrev pub u32_max : ℕ
u32_max = 4_294_967_295

abbrev pub nfs3_fhsize : ℕ
nfs3_fhsize = 64

abbrev pub nfs3_cookieverfsize : ℕ
nfs3_cookieverfsize = 8

abbrev pub nfs3_createverfsize : ℕ
nfs3_createverfsize = 8

abbrev pub nfs3_writeverfsize : ℕ
nfs3_writeverfsize = 8

abbrev pub nfs_maxdata_tcp : ℕ
nfs_maxdata_tcp = 524288

abbrev pub nfs_maxdata_udp : ℕ
nfs_maxdata_udp = 32768

abbrev pub nfs_maxpathlen : ℕ
nfs_maxpathlen = 1024

abbrev pub access3_read : ℕ
access3_read = 0x0001

abbrev pub access3_lookup : ℕ
access3_lookup = 0x0002

abbrev pub access3_modify : ℕ
access3_modify = 0x0004

abbrev pub access3_extend : ℕ
access3_extend = 0x0008

abbrev pub access3_delete : ℕ
access3_delete = 0x0010

abbrev pub access3_execute : ℕ
access3_execute = 0x0020

abbrev pub fsf3_link : ℕ
fsf3_link = 0x0001

abbrev pub fsf3_symlink : ℕ
fsf3_symlink = 0x0002

abbrev pub fsf3_homogeneous : ℕ
fsf3_homogeneous = 0x0008

abbrev pub fsf3_cansettime : ℕ
fsf3_cansettime = 0x0010

abbrev pub max_entries : ℕ
max_entries = 170

abbrev pub resok_size : ℕ
resok_size = 104
