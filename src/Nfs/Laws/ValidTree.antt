-- ===== src/Nfs/Laws/ValidTree.antt =====
-- unfs3/nfs.c: the replies of the procedures that look up and change names, against their wire format.
use unfs2go.Common.{
  ℕ, ◌≡◌, List, arith, inl, inr, Bool-cases, ◌==◌, ==_iff, none, some, ◌||◌, not, bit_and,
}
use unfs2go.Request.{SvcReq}
use unfs2go.Types.Stat.{s_ifdir}
use unfs2go.Types.Names.{Nfsstat3}
use unfs2go.Types.Args.{Lookup3Args, Create3Args, Mkdir3Args}
use unfs2go.Types.Res.{Lookup3Res}
use unfs2go.Types.FileRes.{Create3Res, Mkdir3Res}
use unfs2go.Types.Constants.{nfs3_ok, unchecked}
use unfs2go.Wire.Basic.{IsU32}
use unfs2go.Wire.Attr.{IsNfsFh3, IsPostOpAttr, IsPostOpFh3}
use unfs2go.Wire.Res.{IsLookup3Res}
use unfs2go.Wire.FileRes.{IsCreate3Res, IsMkdir3Res}
use unfs2go.Xdr.Stream.{CharPtr}
use unfs2go.Backend.{Server}
use unfs2go.Backend.Contract.{IsServer}
use unfs2go.Handle.{fh_decomp, fh_comp_post, fh_comp_type}
use unfs2go.Handle.Laws.{handle_of-IsNfsFh3}
use unfs2go.Attributes.{get_pre, create_mode}
use unfs2go.Attributes.Laws.{get_post-IsPostOpAttr, get_post_buf-IsPostOpAttr}
use unfs2go.Nfs.Name.{cat_name}
use unfs2go.Nfs.Tree.{
  lookup_object, nfsproc3_lookup_3_svc, create_object, created_object, nfsproc3_create_3_svc,
  make_directory, nfsproc3_mkdir_3_svc,
}
use unfs2go.Nfs.Laws.Valid.{wcc-IsWccData}

pub cat_name-IsU32 : (path name : CharPtr) (result : List ℕ) → IsU32 (cat_name path name result).0
unfolding cat_name
cat_name-IsU32 none name result = omega arith
cat_name-IsU32 (some path) none result = omega arith
cat_name-IsU32 (some path) (some name) result = ground arith

module _ (srv : Server) (lawful : IsServer srv) where
  open srv use {backend.{State, go_lstat, go_mkdir, go_remove, go_rmdir}, stack}

  -- The parts of a LOOKUP reply that `lookup_object` sets.
  IsLookedUp : Lookup3Res → Type 0
  IsLookedUp r =
      IsU32 r.status
      × (r.status ≡ nfs3_ok → IsNfsFh3 r.resok.object × IsPostOpAttr r.resok.obj_attributes)

  lookup_object-IsLookedUp :
      (status : Nfsstat3) (obj : List ℕ) (result : Lookup3Res) (s : State)
      → IsU32 status
      → IsLookedUp (lookup_object srv status obj result s).0
  unfolding lookup_object IsLookedUp
  lookup_object-IsLookedUp status obj result s h = elim (Bool-cases (status == nfs3_ok)) [
    | inr bad ↦ rw bad (h, λ e. absurd (ground arith))
    | inl good ↦ elim (Bool-cases ((go_lstat (some obj) stack.buf s).0 == nfs3_ok)) [
      | inl found ↦
          rw (good, found)
            (
              lawful.lawful.lstat_status (some obj) _ s,
              λ e. (
                handle_of-IsNfsFh3 srv _ (some obj),
                get_post_buf-IsPostOpAttr srv lawful _
                    (lawful.lawful.lstat_buf (some obj) _ s lawful.stack_buf),
              ),
            )
      | inr missing ↦
          rw (good, missing) (lawful.lawful.lstat_status (some obj) _ s, λ e. absurd (ground arith))
    ]
  ]

  pub lookup-IsRes :
      (argp : Lookup3Args) (rqstp : SvcReq) (result : Lookup3Res) (s : State)
      → IsLookup3Res (nfsproc3_lookup_3_svc srv argp rqstp result s).0
  unfolding nfsproc3_lookup_3_svc IsLookedUp
  lookup-IsRes argp rqstp result s =
      let path = fh_decomp srv argp.what.dir s in
      let named = cat_name path argp.what.name stack.obj in
      let found =
        lookup_object-IsLookedUp named.0 named.1 result s
          (cat_name-IsU32 path argp.what.name stack.obj) in
      let post = get_post-IsPostOpAttr srv lawful path _ in
      elim (Bool-cases ((lookup_object srv named.0 named.1 result s).0.status == nfs3_ok)) [
        | inl good ↦ (
          found.0,
          rw good (let parts = found.1 ((==_iff _ _).0 good) in (parts.0, (parts.1, post))),
        )
        | inr bad ↦ (found.0, rw bad post)
      ]

  create_object-IsU32 :
      (argp : Create3Args) (obj : List ℕ) (s : State) → IsU32 (create_object srv argp obj s).0
  unfolding create_object
  create_object-IsU32 argp obj s = elim (Bool-cases (argp.how.mode == unchecked)) [
    | inl over ↦ rw over (lawful.lawful.createover (some obj) _ s)
    | inr new ↦ rw new (lawful.lawful.create (some obj) _ s)
  ]

  fh_comp_post-IsPostOpFh3 : (ino : ℕ) (path : CharPtr) → IsPostOpFh3 (fh_comp_post srv ino path)
  unfolding fh_comp_post
  fh_comp_post-IsPostOpFh3 ino path = (omega arith, handle_of-IsNfsFh3 srv ino path)

  IsCreated : Create3Res → Type 0
  IsCreated r =
      IsU32 r.status
      × (r.status ≡ nfs3_ok → IsPostOpFh3 r.resok.obj × IsPostOpAttr r.resok.obj_attributes)

  created_object-IsCreated :
      (status : Nfsstat3) (obj : List ℕ) (result : Create3Res) (s : State)
      → IsU32 status
      → IsCreated (created_object srv status obj result s).0
  unfolding created_object IsCreated
  created_object-IsCreated status obj result s h = elim (Bool-cases (status == nfs3_ok)) [
    | inr bad ↦ rw bad (h, λ e. absurd (ground arith))
    | inl good ↦ rw good (
      lawful.lawful.lstat_status (some obj) _ s,
      λ e. (
        fh_comp_post-IsPostOpFh3 _ (some obj),
        get_post_buf-IsPostOpAttr srv lawful _
            (lawful.lawful.lstat_buf (some obj) _ s lawful.stack_buf),
      ),
    )
  ]

  pub create-IsRes :
      (argp : Create3Args) (rqstp : SvcReq) (result : Create3Res) (s : State)
      → IsCreate3Res (nfsproc3_create_3_svc srv argp rqstp result s).0
  unfolding nfsproc3_create_3_svc IsCreated
  create-IsRes argp rqstp result s =
      let path = fh_decomp srv argp.where_args.dir s in
      let s₁ = (get_pre srv path s).1 in
      let obj = (cat_name path argp.where_args.name stack.obj).1 in
      let made = create_object srv argp obj s₁ in
      let found =
        created_object-IsCreated made.0 obj result made.1 (create_object-IsU32 argp obj s₁) in
      let wcc = wcc-IsWccData srv lawful path path s _ in
      elim (Bool-cases ((created_object srv made.0 obj result made.1).0.status == nfs3_ok)) [
        | inl good ↦ (
          found.0,
          rw good (let parts = found.1 ((==_iff _ _).0 good) in (parts.0, (parts.1, wcc))),
        )
        | inr bad ↦ (found.0, rw bad wcc)
      ]

  fh_comp_type-IsPostOpFh3 :
      (path : CharPtr) (type : ℕ) (s : State) → IsPostOpFh3 (fh_comp_type srv path type s).0
  unfolding fh_comp_type
  fh_comp_type-IsPostOpFh3 path type s =
      elim (Bool-cases (
        not ((go_lstat path stack.buf s).0 == nfs3_ok)
        || not (bit_and (go_lstat path stack.buf s).1.st_mode type == type))) [
          | inl refused ↦ rw refused (omega arith)
          | inr made ↦ rw made (fh_comp_post-IsPostOpFh3 (go_lstat path stack.buf s).1.st_ino path)
        ]

  IsMade : Mkdir3Res → Type 0
  IsMade r =
      IsU32 r.status
      × (r.status ≡ nfs3_ok → IsPostOpFh3 r.resok.obj × IsPostOpAttr r.resok.obj_attributes)

  make_directory-IsMade :
      (argp : Mkdir3Args) (status : Nfsstat3) (obj : List ℕ) (result : Mkdir3Res) (s : State)
      → IsU32 status
      → IsMade (make_directory srv argp status obj result s).0
  unfolding make_directory IsMade
  make_directory-IsMade argp status obj result s h = elim (Bool-cases (status == nfs3_ok)) [
    | inr bad ↦ rw bad (h, λ e. absurd (ground arith))
    | inl good ↦
        elim (Bool-cases ((go_mkdir (some obj) (create_mode argp.attributes) s).0 == nfs3_ok)) [
          | inl made ↦ rw good (
              rw made (
                lawful.lawful.mkdir (some obj) _ s,
                λ e. (
                  fh_comp_type-IsPostOpFh3 (some obj) s_ifdir _,
                  get_post-IsPostOpAttr srv lawful (some obj) _,
                ),
              ))
          | inr failed ↦
              rw good (rw failed (lawful.lawful.mkdir (some obj) _ s, λ e. absurd (ground arith)))
        ]
  ]

  pub mkdir-IsRes :
      (argp : Mkdir3Args) (rqstp : SvcReq) (result : Mkdir3Res) (s : State)
      → IsMkdir3Res (nfsproc3_mkdir_3_svc srv argp rqstp result s).0
  unfolding nfsproc3_mkdir_3_svc IsMade
  mkdir-IsRes argp rqstp result s =
      let path = fh_decomp srv argp.where_args.dir s in
      let s₁ = (get_pre srv path s).1 in
      let named = cat_name path argp.where_args.name stack.obj in
      let made =
        make_directory-IsMade argp named.0 named.1 result s₁
          (cat_name-IsU32 path argp.where_args.name stack.obj) in
      let wcc = wcc-IsWccData srv lawful path path s _ in
      elim (Bool-cases ((make_directory srv argp named.0 named.1 result s₁).0.status == nfs3_ok)) [
        | inl good ↦ (
          made.0,
          rw good (let parts = made.1 ((==_iff _ _).0 good) in (parts.0, (parts.1, wcc))),
        )
        | inr bad ↦ (made.0, rw bad wcc)
      ]
