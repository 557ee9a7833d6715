-- ===== src/Tests/Procedures.antt =====
-- The procedures, the names, the handles and the attributes at concrete values.
use unfs2go.Common.{
  ℕ, ◌+◌, ◌-◌, ◌≤◌, ◌≡◌, ◌≢◌, ◌↔◌, refl, List, [], ◌∷◌, none, some, length, take, drop,
}
use Prim.Native.Nat.{min}
use unfs2go.Types.Args.{Read3Args}
use unfs2go.Types.Zero.{zero_sattr3}
use unfs2go.Types.ZeroRes.{
  zero_lookup3res, zero_read3res, zero_mkdir3res, zero_remove3res, zero_rmdir3res, zero_rename3res,
}
use unfs2go.Types.Constants.{bool_true, nfs3_ok}
use unfs2go.Request.{maxdata}
use unfs2go.Handle.{fh_comp, fh_decomp, handle_of}
use unfs2go.Nfs.Tree.{
  nfsproc3_lookup_3_svc, nfsproc3_mkdir_3_svc, nfsproc3_remove_3_svc, nfsproc3_rmdir_3_svc,
  nfsproc3_rename_3_svc,
}
use unfs2go.Nfs.Data.{nfsproc3_read_3_svc}
use unfs2go.Nfs.Laws.Looked.{looked}
use unfs2go.Nfs.Laws.Name.{IsAccepted}
use unfs2go.Nfs.Laws.Rejected.{name_status, looked_twice, unaccepted_name-inert, rejected_rename}
use unfs2go.Nfs.Laws.Transfer.{KeepsFile, nfsproc3_read_3_svc-slice, nfsproc3_read_3_svc-stale}
use unfs2go.Tests.Disk.{content, server, server-IsServer, root-KeepsFile}
use unfs2go.Tests.Runtime.{call_of, a_path, files, root_handle, named}

abbrev read_middle : Read3Args
read_middle = record { file = handle_of server (fh_comp 2 none); offset = 1; count = 3 }

a-KeepsFile : KeepsFile server (fh_decomp server read_middle.file files) content files
unfolding fh_decomp handle_of fh_comp
a-KeepsFile = root-KeepsFile a_path files

read_middle_slice :
    let r = (nfsproc3_read_3_svc server read_middle (call_of 6) zero_read3res files).0 in
    let n = min 3 (maxdata (call_of 6)) in
    (r.status ≡ nfs3_ok)
    × (r.resok.data_buf.data_val ≡ take n (drop 1 content))
    × (r.resok.data_buf.data_len ≡ min n (length content - 1))
    × (r.resok.count ≡ min n (length content - 1))
    × ((r.resok.eof ≡ bool_true) ↔ (length content ≤ 1 + n))
read_middle_slice =
    nfsproc3_read_3_svc-slice server read_middle (call_of 6) zero_read3res files content a-KeepsFile

-- A name with a slash.
abbrev slashed : List ℕ
slashed = b'a' ∷ b'/' ∷ []

slashed_rejected : IsAccepted (fh_decomp server root_handle files) (some slashed) → ⊥
unfolding fh_decomp handle_of fh_comp
slashed_rejected h = h.0.1.1.0 refl

slashed_inert :
    let d = named slashed in
    let lookup =
      nfsproc3_lookup_3_svc server (record { what = d }) (call_of 3) zero_lookup3res files in
    let mkdir =
      nfsproc3_mkdir_3_svc server
        (record { where_args = d; attributes = zero_sattr3 })
        (call_of 3)
        zero_mkdir3res
        files in
    let remove =
      nfsproc3_remove_3_svc server (record { object = d }) (call_of 3) zero_remove3res files in
    let rmdir =
      nfsproc3_rmdir_3_svc server (record { object = d }) (call_of 3) zero_rmdir3res files in
    (name_status server d files ≢ nfs3_ok)
    × ((lookup.0.status ≡ name_status server d files)
        × (lookup.1 ≡ looked server (fh_decomp server d.dir files) files))
    × ((mkdir.0.status ≡ name_status server d files) × (mkdir.1 ≡ looked_twice server d files))
    × ((remove.0.status ≡ name_status server d files) × (remove.1 ≡ looked_twice server d files))
    × ((rmdir.0.status ≡ name_status server d files) × (rmdir.1 ≡ looked_twice server d files))
slashed_inert =
    unaccepted_name-inert server (named slashed) zero_sattr3 (call_of 3) files zero_lookup3res
      zero_mkdir3res zero_remove3res zero_rmdir3res slashed_rejected

rename_to_slashed :
    let path = fh_decomp server root_handle files in
    let s₁ = looked server path files in
    let to_path = fh_decomp server root_handle s₁ in
    let (r, s') =
      nfsproc3_rename_3_svc server
        (record { from = named (b'a' ∷ []); to = named slashed })
        (call_of 14)
        zero_rename3res
        files in
    (r.status ≢ nfs3_ok)
    × (s' ≡ looked server to_path (looked server path (looked server to_path s₁)))
unfolding fh_decomp handle_of fh_comp
rename_to_slashed =
    rejected_rename server (named (b'a' ∷ [])) (named slashed) (call_of 14) zero_rename3res files
      (λ (from, to). to.0.1.1.0 refl)

read_middle_stale :
    nfsproc3_read_3_svc
      (record server { stack = record server.stack { read_buf = 7 ∷ [] } })
      read_middle
      (call_of 6)
      zero_read3res
      files
    ≡ nfsproc3_read_3_svc server read_middle (call_of 6) zero_read3res files
read_middle_stale =
    nfsproc3_read_3_svc-stale server server-IsServer (7 ∷ []) read_middle (call_of 6) zero_read3res
      files
