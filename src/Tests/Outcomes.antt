-- ===== src/Tests/Outcomes.antt =====
-- WRITE and READDIR at concrete calls.
use Prim.Native.Nat.{min}
use unfs2go.Common.{◌-◌, arith, ◌≡◌, [], ◌∷◌, none}
use unfs2go.Types.Args.{Write3Args}
use unfs2go.Types.DirArgs.{Readdir3Args}
use unfs2go.Types.Zero.{zero_readdir3args, zero_write3args}
use unfs2go.Types.ZeroRes.{zero_write3res, zero_readdir3res}
use unfs2go.Handle.{fh_comp, handle_of, fh_decomp}
use unfs2go.Nfs.Data.{nfsproc3_write_3_svc}
use unfs2go.Nfs.Readdir.{nfsproc3_readdir_3_svc}
use unfs2go.Types.Constants.{resok_size}
use unfs2go.Nfs.Laws.Looked.{looked, IsBefore, IsAfter}
use unfs2go.Nfs.Laws.Outcome.{IsTransferred, IsListed, write-outcome, readdir-outcome}
use unfs2go.Tests.Disk.{server, server-IsServer}
use unfs2go.Tests.Runtime.{call_of, files, root_handle}

abbrev write_two : Write3Args
write_two = record zero_write3args {
  file = handle_of server (fh_comp 2 none);
  count = 2;
  data_buf = record { data_len = 2; data_val = 1 ∷ 2 ∷ [] };
}

IsTransferred-write_two :
    let path = fh_decomp server write_two.file files in
    let s₁ = looked server path files in
    let (res, s₂) = server.backend.go_pwrite path write_two.data_buf write_two.offset s₁ in
    let r = nfsproc3_write_3_svc server write_two (call_of 7) zero_write3res files in
    (r.1 ≡ looked server path s₂)
    × IsBefore server path files r.0.resok.file_wcc.before
    × IsAfter server path s₂ r.0.resok.file_wcc.after
    × IsTransferred res r.0
IsTransferred-write_two = write-outcome server write_two (call_of 7) zero_write3res files

abbrev list_root : Readdir3Args
list_root = record zero_readdir3args { dir = root_handle; count = 512 }

IsListed-root :
    let path = fh_decomp server list_root.dir files in
    let (res, entries, s') =
      server.backend.go_readdir_full path list_root.cookie (min 4096 512 - resok_size) files in
    let r = nfsproc3_readdir_3_svc server list_root (call_of 16) zero_readdir3res files in
    (r.1 ≡ looked server path s') × (r.0.resok.reply.entries ≡ entries) × IsListed res r.0
IsListed-root =
    readdir-outcome server list_root (call_of 16) zero_readdir3res files server-IsServer
      (omega arith) (omega arith)
