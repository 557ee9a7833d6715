-- ===== src/Request.antt =====
-- What the procedures see of a call (`struct svc_req`), with the answers of the system that they ask
-- for while they serve it: unfs3/daemon.c `get_remote`, `get_socket_type`, and `time`.
use unfs2go.Common.{ℕ, Option, none, some, ◌==◌, if◌then◌else◌, Bool, false}
use unfs2go.Common.Int.{ℤ, pos, negsuc}
use unfs2go.Types.Constants.{nfs_maxdata_tcp, nfs_maxdata_udp}

pub record SvcReq : Type 0 where
  pub rq_vers : ℕ
  pub rq_proc : ℕ
  -- `svc_getcaller(rq_xprt)->sin_addr`
  pub sin_addr : ℕ
  -- What `getsockopt(SO_TYPE)` answers; `none` if it fails.
  pub so_type : Option ℕ
  -- `time(NULL)`
  pub now : ℕ

-- sys/socket.h
abbrev pub sock_stream : ℕ
sock_stream = 1

unfoldable pub get_remote : SvcReq → ℕ
get_remote rqstp = rqstp.sin_addr

unfoldable pub get_socket_type : SvcReq → ℤ
get_socket_type rqstp = elim rqstp.so_type [ none ↦ negsuc 0 | some v ↦ pos v ]

abbrev is_stream : ℤ → Bool
is_stream (pos v) = v == sock_stream
is_stream (negsuc n) = false

-- `maxdata` of READ and FSINFO.
unfoldable pub maxdata : SvcReq → ℕ
unfolding get_socket_type
maxdata rqstp = if is_stream (get_socket_type rqstp) then nfs_maxdata_tcp else nfs_maxdata_udp
