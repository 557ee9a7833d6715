-- ===== src/Nfs/Tree.antt =====
-- unfs3/nfs.c: LOOKUP, CREATE, MKDIR, REMOVE, RMDIR and RENAME.
use unfs2go.Common.{ℕ, List, some, not, ◌==◌, if◌then◌else◌}
use unfs2go.Types.Stat.{s_ifdir}
use unfs2go.Types.Args.{Lookup3Args, Create3Args, Mkdir3Args}
use unfs2go.Types.DirArgs.{Remove3Args, Rmdir3Args, Rename3Args}
use unfs2go.Types.Res.{Lookup3Res}
use unfs2go.Types.FileRes.{Create3Res, Mkdir3Res}
use unfs2go.Types.LinkRes.{Remove3Res, Rmdir3Res, Rename3Res}
use unfs2go.Types.Constants.{nfs3_ok, unchecked, exclusive}
use unfs2go.Types.Names.{Nfsstat3}
use unfs2go.Backend.{Server}
use unfs2go.Request.{SvcReq}
use unfs2go.Handle.{fh_comp, fh_decomp, handle_of, fh_comp_post, fh_comp_type}
use unfs2go.Attributes.{get_pre, get_post, get_post_buf, create_mode}
use unfs2go.Nfs.Name.{cat_name}

module _ (srv : Server) where
  open srv use {
    backend.{State, go_lstat, go_create, go_createover, go_mkdir, go_remove, go_rmdir, go_rename},
    stack,
  }

  -- LOOKUP, once the name has been joined.
  unfoldable pub lookup_object : Nfsstat3 → List ℕ → Lookup3Res → State → Lookup3Res × State
  lookup_object status obj result s =
      if status == nfs3_ok
      then (let (status', buf, s') = go_lstat (some obj) stack.buf s in
          if status' == nfs3_ok
          then (
            record {
              status = status';
              resok = record result.resok {
                object = handle_of srv (fh_comp buf.st_ino (some obj));
                obj_attributes = get_post_buf srv buf;
              };
            },
            s',
          )
          else (record result { status = status' }, s'))
      else (record result { status = status }, s)

  unfoldable pub nfsproc3_lookup_3_svc :
      Lookup3Args → SvcReq → Lookup3Res → State → Lookup3Res × State
  unfolding lookup_object
  nfsproc3_lookup_3_svc argp rqstp result s =
      let path = fh_decomp srv argp.what.dir s in
      let (status, obj) = cat_name path argp.what.name stack.obj in
      let (result₁, s₁) = lookup_object status obj result s in
      let (post, s₂) = get_post srv path s₁ in
      (record result₁ { resok = record result₁.resok { dir_attributes = post } }, s₂)

  -- CREATE makes its request whatever `cat_name` answered, with what `obj` then holds.
  unfoldable pub create_object : Create3Args → List ℕ → State → Nfsstat3 × State
  create_object argp obj s =
      let new_attr =
        if not (argp.how.mode == exclusive) then argp.how.obj_attributes else stack.new_attr in
      if argp.how.mode == unchecked
      then go_createover (some obj) (create_mode new_attr) s
      else go_create (some obj) (create_mode new_attr) s

  -- What CREATE reports of an object that has been made.
  unfoldable pub created_object : Nfsstat3 → List ℕ → Create3Res → State → Create3Res × State
  created_object status obj result s =
      if status == nfs3_ok
      then (let (status', buf, s') = go_lstat (some obj) stack.buf s in
          (
            record {
              status = status';
              resok = record result.resok {
                obj = fh_comp_post srv buf.st_ino (some obj);
                obj_attributes = get_post_buf srv buf;
              };
            },
            s',
          ))
      else (record result { status = status }, s)

  unfoldable pub nfsproc3_create_3_svc :
      Create3Args → SvcReq → Create3Res → State → Create3Res × State
  unfolding create_object created_object
  nfsproc3_create_3_svc argp rqstp result s =
      let dirpath = fh_decomp srv argp.where_args.dir s in
      let (pre, s₁) = get_pre srv dirpath s in
      let (named, obj) = cat_name dirpath argp.where_args.name stack.obj in
      let (status, s₂) = create_object argp obj s₁ in
      let (result₁, s₃) = created_object status obj result s₂ in
      let (post, s₄) = get_post srv dirpath s₃ in
      (
        record result₁ {
          resok = record result₁.resok { dir_wcc = record { before = pre; after = post } };
        },
        s₄,
      )

  unfoldable pub make_directory :
      Mkdir3Args → Nfsstat3 → List ℕ → Mkdir3Res → State → Mkdir3Res × State
  make_directory argp status obj result s =
      if status == nfs3_ok
      then (let (status', s₁) = go_mkdir (some obj) (create_mode argp.attributes) s in
          if status' == nfs3_ok
          then (let (fh, s₂) = fh_comp_type srv (some obj) s_ifdir s₁ in
              let (post, s₃) = get_post srv (some obj) s₂ in
              (
                record {
                  status = status';
                  resok = record result.resok { obj = fh; obj_attributes = post };
                },
                s₃,
              ))
          else (record result { status = status' }, s₁))
      else (record result { status = status }, s)

  unfoldable pub nfsproc3_mkdir_3_svc : Mkdir3Args → SvcReq → Mkdir3Res → State → Mkdir3Res × State
  unfolding make_directory
  nfsproc3_mkdir_3_svc argp rqstp result s =
      let path = fh_decomp srv argp.where_args.dir s in
      let (pre, s₁) = get_pre srv path s in
      let (status, obj) = cat_name path argp.where_args.name stack.obj in
      let (result₁, s₂) = make_directory argp status obj result s₁ in
      let (post, s₃) = get_post srv path s₂ in
      (
        record result₁ {
          resok = record result₁.resok { dir_wcc = record { before = pre; after = post } };
        },
        s₃,
      )

  unfoldable pub nfsproc3_remove_3_svc :
      Remove3Args → SvcReq → Remove3Res → State → Remove3Res × State
  nfsproc3_remove_3_svc argp rqstp result s =
      let path = fh_decomp srv argp.object.dir s in
      let (pre, s₁) = get_pre srv path s in
      let (named, obj) = cat_name path argp.object.name stack.obj in
      let (status, s₂) = if named == nfs3_ok then go_remove (some obj) s₁ else (named, s₁) in
      let (post, s₃) = get_post srv path s₂ in
      (
        record {
          status = status;
          resok = record { dir_wcc = record { before = pre; after = post } };
        },
        s₃,
      )

  unfoldable pub nfsproc3_rmdir_3_svc : Rmdir3Args → SvcReq → Rmdir3Res → State → Rmdir3Res × State
  nfsproc3_rmdir_3_svc argp rqstp result s =
      let path = fh_decomp srv argp.object.dir s in
      let (pre, s₁) = get_pre srv path s in
      let (named, obj) = cat_name path argp.object.name stack.obj in
      let (status, s₂) = if named == nfs3_ok then go_rmdir (some obj) s₁ else (named, s₁) in
      let (post, s₃) = get_post srv path s₂ in
      (
        record {
          status = status;
          resok = record { dir_wcc = record { before = pre; after = post } };
        },
        s₃,
      )

  -- RENAME joins the second name only if the first is good, and moves only if both are.
  unfoldable pub rename_status : Nfsstat3 × List ℕ → Nfsstat3 × List ℕ → State → Nfsstat3 × State
  rename_status (from_named, from_obj) (to_named, to_obj) s =
      if from_named == nfs3_ok
      then if to_named == nfs3_ok then go_rename (some from_obj) (some to_obj) s else (to_named, s)
      else (from_named, s)

  unfoldable pub nfsproc3_rename_3_svc :
      Rename3Args → SvcReq → Rename3Res → State → Rename3Res × State
  unfolding rename_status
  nfsproc3_rename_3_svc argp rqstp result s =
      let from = fh_decomp srv argp.from.dir s in
      let (from_pre, s₁) = get_pre srv from s in
      let to = fh_decomp srv argp.to.dir s₁ in
      let (to_pre, s₂) = get_pre srv to s₁ in
      let (status, s₃) =
        rename_status (cat_name from argp.from.name stack.obj) (cat_name to argp.to.name stack.obj)
          s₂ in
      let (post, s₄) = get_post srv from s₃ in
      let (to_post, s₅) = get_post srv to s₄ in
      (
        record {
          status = status;
          resok = record {
            fromdir_wcc = record { before = from_pre; after = post };
            todir_wcc = record { before = to_pre; after = to_post };
          };
        },
        s₅,
      )
