-- ===== src/Tests/Runtime.antt =====
-- A runtime that runs the XDR routines over streams in memory, and calls to serve.
use unfs2go.Common.{ℕ, refl, List, [], ◌∷◌, none, some, true}
use unfs2go.Xdr.Stream.{encoding, decoding}
use unfs2go.Xdr.Memory.{memory}
use unfs2go.Types.Attr.{NfsFh3}
use unfs2go.Types.Sattr.{Diropargs3}
use unfs2go.Types.Constants.{max_entries}
use unfs2go.Request.{SvcReq}
use unfs2go.Handle.{fh_comp, handle_of}
use unfs2go.Daemon.Statics.{zero_statics}
use unfs2go.Daemon.Program.{Svc, IsSvc, World}
use unfs2go.Tests.Disk.{root, server}

abbrev pub runtime : Svc
runtime = record {
  svc_getargs =
      λ A f body old. elim (f (decoding body) old) [ none ↦ none | some (xdrs, x) ↦ some x ];
  svc_sendreply =
      λ A f x. elim (f (encoding []) x) [ none ↦ none | some (xdrs, y) ↦ some xdrs.stream ];
  transport_takes = λ body. true;
}

pub runtime-IsSvc : IsSvc runtime
runtime-IsSvc = record {
  getargs_some = λ A f body old new xdrs h. rw h refl;
  sendreply = λ A f x y out h. rw h refl;
}

-- A call of a procedure, over TCP.
abbrev pub call_of : ℕ → SvcReq
call_of proc = record { rq_vers = 3; rq_proc = proc; sin_addr = 0; so_type = some 1; now = 7 }

-- The file `a` of the root directory, under the path that `cat_name` gives it.
abbrev pub a_path : List ℕ
a_path = b'/' ∷ b'/' ∷ b'a' ∷ []

abbrev pub files : List (List ℕ)
files = a_path ∷ []

abbrev pub world : World memory runtime server max_entries
world = record { statics = zero_statics; state = files }

abbrev pub root_handle : NfsFh3
root_handle = handle_of server (fh_comp 1 (some root))

abbrev pub named : List ℕ → Diropargs3
named name = record { dir = root_handle; name = some name }
