-- ===== src/Tests/Details.antt =====
-- Lookup, attributes and sizes at concrete values.
use unfs2go.Common.{
  ◌+◌, ◌-◌, ◌%◌, get_or, ◌^◌, ◌≤◌, ◌<◌, ◌≡◌, ◌≢◌, ◌↔◌, ◌⊎◌, refl, [], ◌∷◌, ◌++◌, none, some, arith,
  true, length, if◌then◌else◌,
}
use Prim.Native.Nat.{min}
use unfs2go.Common.Int.{pos}
use unfs2go.Types.Stat.{s_isdir}
use unfs2go.Types.Args.{Setattr3Args, Create3Args}
use unfs2go.Types.DirRes.{Readdir3Res}
use unfs2go.Types.Zero.{
  zero_sattr3, zero_fattr3, zero_nfs_fh3, zero_sattrguard3, zero_set_gid3, zero_set_atime,
  zero_createhow3,
}
use unfs2go.Types.ZeroRes.{
  zero_lookup3res, zero_setattr3res, zero_access3res, zero_readdir3res, zero_getattr3res,
  zero_create3res,
}
use unfs2go.Types.Constants.{nf3dir, bool_false, nfs3_ok, nfs_maxpathlen, resok_size, unchecked}
use unfs2go.Wire.Attr.{IsFattr3}
use unfs2go.Wire.DirRes.{wire_readdir3res}
use unfs2go.Handle.{nfh_valid, fh_length, bytes_of, fh_comp, fh_decomp, handle_of}
use unfs2go.Handle.Laws.{fh_decomp-handle_of, nfh_valid_iff}
use unfs2go.Attributes.{attributes_of, get_post_buf}
use unfs2go.Attributes.Laws.{attributes_of-bounds}
use unfs2go.Nfs.Name.{cat_name}
use unfs2go.Nfs.Inode.{nfsproc3_setattr_3_svc, nfsproc3_access_3_svc, nfsproc3_getattr_3_svc}
use unfs2go.Nfs.Tree.{nfsproc3_lookup_3_svc, nfsproc3_create_3_svc}
use unfs2go.Nfs.Readdir.{readdir_count}
use unfs2go.Nfs.Laws.Name.{IsAccepted, cat_name-ok_iff, cat_name-written}
use unfs2go.Nfs.Laws.Looked.{looked}
use unfs2go.Nfs.Laws.Rejected.{create-unchecked_name}
use unfs2go.Nfs.Laws.Lookup.{lookup-handle_resolves}
use unfs2go.Nfs.Laws.Inode.{
  getattr-never_fails, perform, requests, first_error, setattr-requests, setattr-ignores,
  access-mask,
}
use unfs2go.Nfs.Laws.Dir.{readdir-resok_size, readdir_count-room}
use unfs2go.Tests.Disk.{root, server, stat_of, stat_of-IsStat}
use unfs2go.Tests.Runtime.{call_of, files, root_handle, named}

lookup_a_resolves :
    let r =
      (nfsproc3_lookup_3_svc server
        (record { what = named (b'a' ∷ []) })
        (call_of 3)
        zero_lookup3res
        files).0 in
    (r.status ≡ nfs3_ok)
    × (r.resok.obj_attributes ≡ get_post_buf server (stat_of 2 0o100644))
    × (fh_decomp server r.resok.object [] ≡ server.backend.go_fgetpath (pos 2) [])
unfolding fh_decomp handle_of fh_comp cat_name
lookup_a_resolves =
    lookup-handle_resolves server (named (b'a' ∷ [])) (call_of 3) zero_lookup3res files []
      ((λ e. ground (arith, e), (λ e. ground (arith, e), tt)), omega arith) refl (omega arith)

-- To truncate is refused, to change the mode is not.
abbrev shorter : Setattr3Args
shorter = record {
  object = root_handle;
  new_attributes = record zero_sattr3 {
    size = record { set_it = 1; size = 0 };
    mode = record { set_it = 1; mode = 0o755 };
  };
  guard = zero_sattrguard3;
}

shorter-requests :
    let path = fh_decomp server root_handle files in
    let (statuses, s₁) =
      perform server path
        (requests (7 % 2 ^ 32) shorter.new_attributes)
        (looked server path files) in
    let r = nfsproc3_setattr_3_svc server shorter (call_of 2) zero_setattr3res files in
    (r.1 ≡ looked server path s₁) × (r.0.status ≡ first_error statuses)
shorter-requests = setattr-requests server shorter (call_of 2) zero_setattr3res files

shorter_unguarded :
    nfsproc3_setattr_3_svc server
      (record shorter {
        new_attributes = record shorter.new_attributes {
          uid = record { set_it = 1; uid = 7 };
          gid = zero_set_gid3;
          atime = zero_set_atime;
        };
        guard = record { check = 1; obj_ctime = record { seconds = 5; nseconds = 0 } };
      })
      (call_of 2)
      zero_setattr3res
      files
    ≡ nfsproc3_setattr_3_svc server shorter (call_of 2) zero_setattr3res files
shorter_unguarded =
    setattr-ignores server shorter (record { set_it = 1; uid = 7 }) zero_set_gid3 zero_set_atime
      (record { check = 1; obj_ctime = record { seconds = 5; nseconds = 0 } }) (call_of 2)
      zero_setattr3res files

root_access :
    let (status, buf, s') =
      server.backend.go_lstat (fh_decomp server root_handle files) server.stack.buf files in
    let r =
      (nfsproc3_access_3_svc server
        (record { object = root_handle; access = 1 })
        (call_of 4)
        zero_access3res
        files).0 in
    (r.status ≡ status)
    × (((status ≡ nfs3_ok) × (r.resok.access ≡ (if s_isdir buf.st_mode then 0x1f else 0x2d)))
        ⊎ ((status ≢ nfs3_ok)
            × (r.resok.access ≡ 0)
            × (r.resok.obj_attributes.attributes_follow ≡ bool_false)))
root_access =
    access-mask server (record { object = root_handle; access = 1 }) (call_of 4) zero_access3res
      files

-- A handle of a file that is gone.
stale_getattr :
    let (status, buf, s') =
      server.backend.go_lstat (fh_decomp server zero_nfs_fh3 files) server.stack.buf files in
    let r =
      nfsproc3_getattr_3_svc server
        (record { object = zero_nfs_fh3 })
        (call_of 1)
        zero_getattr3res
        files in
    (r.0.status ≡ nfs3_ok)
    × (r.1 ≡ s')
    × (((status ≡ nfs3_ok)
          × (r.0.resok.obj_attributes ≡ attributes_of server.opt_readable_executables buf))
        ⊎ ((status ≢ nfs3_ok) × (r.0.resok.obj_attributes ≡ zero_fattr3)))
stale_getattr =
    getattr-never_fails server (record { object = zero_nfs_fh3 }) (call_of 1) zero_getattr3res files

IsAccepted-a :
    ((cat_name (some root) (some (b'a' ∷ [])) []).0 ≡ nfs3_ok)
    ↔ IsAccepted (some root) (some (b'a' ∷ []))
IsAccepted-a = cat_name-ok_iff (some root) (some (b'a' ∷ [])) []

written_a :
    let (status, written) = cat_name (some root) (some (b'a' ∷ [])) (1 ∷ []) in
    ((status ≡ nfs3_ok)
      × ((written ≡ root) ⊎ (written ≡ root ++ (b'/' ∷ b'a' ∷ [])))
      × (length written + 1 ≤ nfs_maxpathlen))
    ⊎ ((status ≢ nfs3_ok) × (written ≡ 1 ∷ []))
written_a = cat_name-written root (b'a' ∷ []) (1 ∷ [])

handle_2_resolves :
    fh_decomp server (handle_of server (fh_comp 2 none)) files
    ≡ server.backend.go_fgetpath (pos 2) files
handle_2_resolves = fh_decomp-handle_of server 2 none files (omega arith)

root_handle_valid :
    (nfh_valid root_handle ≡ true)
    ↔ (root_handle.data_buf.data_len ≡ get_or root_handle.data_buf.data_val 8 0 + 9)
unfolding handle_of fh_comp fh_length bytes_of
root_handle_valid = nfh_valid_iff root_handle (omega arith)

root_attributes_fit :
    IsFattr3 (attributes_of 1 (stat_of 1 0o040755))
    × (1 ≤ (attributes_of 1 (stat_of 1 0o040755)).type)
    × ((attributes_of 1 (stat_of 1 0o040755)).type ≤ 7)
    × (((attributes_of 1 (stat_of 1 0o040755)).type ≡ nf3dir) ↔ (s_isdir 0o040755 ≡ true))
root_attributes_fit =
    attributes_of-bounds 1 (stat_of 1 0o040755) (stat_of-IsStat 1 0o040755 (omega arith))

-- READDIR's reply with attributes and without entries.
abbrev no_entries : Readdir3Res
no_entries = record zero_readdir3res {
  resok = record zero_readdir3res.resok {
    dir_attributes = record { attributes_follow = 1; attributes = zero_fattr3 };
  };
}

no_entries_size : length (wire_readdir3res no_entries) ≡ 4 + resok_size
no_entries_size = readdir-resok_size no_entries refl refl refl refl

small_count_room :
    ((resok_size ≤ 50) × (readdir_count 50 ≡ min 4096 50 - resok_size))
    ⊎ ((50 < resok_size) × (2 ^ 32 - resok_size ≤ readdir_count 50))
small_count_room = readdir_count-room 50 (omega arith)

abbrev create_slashed : Create3Args
create_slashed = record {
  where_args = named (b'a' ∷ b'/' ∷ []);
  how = record zero_createhow3 {
    mode = unchecked;
    obj_attributes = record zero_sattr3 { mode = record { set_it = 1; mode = 0o644 } };
  };
}

create_slashed_made :
    let dir = fh_decomp server root_handle files in
    let (status, s₂) =
      server.backend.go_createover (some server.stack.obj) 0o644 (looked server dir files) in
    let r = nfsproc3_create_3_svc server create_slashed (call_of 8) zero_create3res files in
    ((status ≡ nfs3_ok) × (r.1 ≡ looked server dir (looked server (some server.stack.obj) s₂)))
    ⊎ ((status ≢ nfs3_ok) × (r.1 ≡ looked server dir s₂) × (r.0.status ≡ status))
unfolding fh_decomp handle_of fh_comp
create_slashed_made =
    create-unchecked_name server create_slashed (call_of 8) zero_create3res files
      (λ good. good.0.1.1.0 refl) refl refl
