-- ===== src/Nfs/Laws/Rejected.antt =====
-- What the procedures that take a name do with one that `cat_name` rejects.
use unfs2go.Common.{ℕ, ◌≡◌, refl, ◌≢◌, ◌⊎◌, List, false, ◌==◌, arith, some, inl, inr, Bool-cases}
use unfs2go.Types.Names.{Nfsstat3}
use unfs2go.Types.Sattr.{Diropargs3, Sattr3}
use unfs2go.Types.Args.{Create3Args}
use unfs2go.Types.Res.{Lookup3Res}
use unfs2go.Types.FileRes.{Create3Res, Mkdir3Res}
use unfs2go.Types.LinkRes.{Remove3Res, Rmdir3Res, Rename3Res}
use unfs2go.Types.Constants.{nfs3_ok, bool_true, unchecked}
use unfs2go.Backend.{Server}
use unfs2go.Request.{SvcReq}
use unfs2go.Handle.{fh_decomp}
use unfs2go.Attributes.{create_mode}
use unfs2go.Nfs.Name.{cat_name}
use unfs2go.Nfs.Laws.Name.{IsAccepted, cat_name-ok_iff, cat_name-untouched}
use unfs2go.Nfs.Laws.Looked.{looked, get_pre-looked, get_post-looked}
use unfs2go.Nfs.Tree.{
  lookup_object, make_directory, create_object, created_object, rename_status,
  nfsproc3_lookup_3_svc, nfsproc3_create_3_svc, nfsproc3_mkdir_3_svc, nfsproc3_remove_3_svc,
  nfsproc3_rmdir_3_svc, nfsproc3_rename_3_svc,
}

module _ (srv : Server) where
  open srv use {backend.{State, go_createover}, stack}

  -- The status of `cat_name` for a directory and a name.
  abbrev pub name_status : Diropargs3 → State → Nfsstat3
  name_status d s = (cat_name (fh_decomp srv d.dir s) d.name stack.obj).0

  -- The state after two looks at the directory.
  abbrev pub looked_twice : Diropargs3 → State → State
  looked_twice d s = let path = fh_decomp srv d.dir s in looked srv path (looked srv path s)

  not_ok : (status : ℕ) → status ≢ nfs3_ok → (status == nfs3_ok) ≡ false
  not_ok status bad = ground (arith, bad)

  pub rejected_lookup :
      (d : Diropargs3) (rqstp : SvcReq) (result : Lookup3Res) (s : State)
      → name_status d s ≢ nfs3_ok
      → (let (r, s') = nfsproc3_lookup_3_svc srv (record { what = d }) rqstp result s in
          (r.status ≡ name_status d s) × (s' ≡ looked srv (fh_decomp srv d.dir s) s))
  unfolding nfsproc3_lookup_3_svc lookup_object
  rejected_lookup d rqstp result s bad = rw (not_ok _ bad) (refl, get_post-looked srv _ s)

  pub rejected_mkdir :
      (d : Diropargs3) (attributes : Sattr3) (rqstp : SvcReq) (result : Mkdir3Res) (s : State)
      → name_status d s ≢ nfs3_ok
      → (let (r, s') =
            nfsproc3_mkdir_3_svc srv
              (record { where_args = d; attributes = attributes })
              rqstp
              result
              s in
          (r.status ≡ name_status d s) × (s' ≡ looked_twice d s))
  unfolding nfsproc3_mkdir_3_svc make_directory
  rejected_mkdir d attributes rqstp result s bad =
      rw (not_ok _ bad)
        (refl, rw (get_pre-looked srv (fh_decomp srv d.dir s) s) (get_post-looked srv _ _))

  pub rejected_remove :
      (d : Diropargs3) (rqstp : SvcReq) (result : Remove3Res) (s : State)
      → name_status d s ≢ nfs3_ok
      → (let (r, s') = nfsproc3_remove_3_svc srv (record { object = d }) rqstp result s in
          (r.status ≡ name_status d s) × (s' ≡ looked_twice d s))
  unfolding nfsproc3_remove_3_svc
  rejected_remove d rqstp result s bad =
      rw (not_ok _ bad)
        (refl, rw (get_pre-looked srv (fh_decomp srv d.dir s) s) (get_post-looked srv _ _))

  pub rejected_rmdir :
      (d : Diropargs3) (rqstp : SvcReq) (result : Rmdir3Res) (s : State)
      → name_status d s ≢ nfs3_ok
      → (let (r, s') = nfsproc3_rmdir_3_svc srv (record { object = d }) rqstp result s in
          (r.status ≡ name_status d s) × (s' ≡ looked_twice d s))
  unfolding nfsproc3_rmdir_3_svc
  rejected_rmdir d rqstp result s bad =
      rw (not_ok _ bad)
        (refl, rw (get_pre-looked srv (fh_decomp srv d.dir s) s) (get_post-looked srv _ _))

  -- If the handle of the directory does not resolve, or the name is no component, or both are too long
  -- for a path, then LOOKUP, MKDIR, REMOVE and RMDIR report the status of `cat_name`, which is an error,
  -- and make no request but to look at the directory for its attributes: LOOKUP once, the others twice.
  pub unaccepted_name-inert :
      (d : Diropargs3) (attributes : Sattr3) (rqstp : SvcReq) (s : State) (found : Lookup3Res)
      (made : Mkdir3Res) (removed : Remove3Res) (removed_dir : Rmdir3Res)
      → (IsAccepted (fh_decomp srv d.dir s) d.name → ⊥)
      → (let lookup = nfsproc3_lookup_3_svc srv (record { what = d }) rqstp found s in
          let mkdir =
            nfsproc3_mkdir_3_svc srv
              (record { where_args = d; attributes = attributes })
              rqstp
              made
              s in
          let remove = nfsproc3_remove_3_svc srv (record { object = d }) rqstp removed s in
          let rmdir = nfsproc3_rmdir_3_svc srv (record { object = d }) rqstp removed_dir s in
          (name_status d s ≢ nfs3_ok)
          × ((lookup.0.status ≡ name_status d s)
              × (lookup.1 ≡ looked srv (fh_decomp srv d.dir s) s))
          × ((mkdir.0.status ≡ name_status d s) × (mkdir.1 ≡ looked_twice d s))
          × ((remove.0.status ≡ name_status d s) × (remove.1 ≡ looked_twice d s))
          × ((rmdir.0.status ≡ name_status d s) × (rmdir.1 ≡ looked_twice d s)))
  unaccepted_name-inert d attributes rqstp s found made removed removed_dir unaccepted =
      let bad : name_status d s ≢ nfs3_ok = λ good. unaccepted ((cat_name-ok_iff _ _ _).0 good) in
      (
        bad,
        rejected_lookup d rqstp found s bad,
        rejected_mkdir d attributes rqstp made s bad,
        rejected_remove d rqstp removed s bad,
        rejected_rmdir d rqstp removed_dir s bad,
      )

  rename_status-rejected :
      (from to : Nfsstat3 × List ℕ) (s : State)
      → ((from.0 ≡ nfs3_ok) × (to.0 ≡ nfs3_ok) → ⊥)
      → ((rename_status srv from to s).0 ≢ nfs3_ok) × ((rename_status srv from to s).1 ≡ s)
  unfolding rename_status
  rename_status-rejected from to s bad = elim (Bool-cases (from.0 == nfs3_ok)) [
    | inr other ↦ rw other (λ e. ground (arith, e, other), refl)
    | inl good ↦
        let second : to.0 ≢ nfs3_ok = λ e. bad (ground (arith, good), e) in
        rw (good, not_ok to.0 second) (second, refl)
  ]

  -- If not both names are accepted, each in its directory, RENAME does not succeed, and makes no request
  -- but to look at the two directories, before and after.
  pub rejected_rename :
      (from to : Diropargs3) (rqstp : SvcReq) (result : Rename3Res) (s : State)
      → (let path = fh_decomp srv from.dir s in
          IsAccepted path from.name × IsAccepted (fh_decomp srv to.dir (looked srv path s)) to.name
          → ⊥)
      → (let path = fh_decomp srv from.dir s in
          let s₁ = looked srv path s in
          let to_path = fh_decomp srv to.dir s₁ in
          let (r, s') =
            nfsproc3_rename_3_svc srv (record { from = from; to = to }) rqstp result s in
          (r.status ≢ nfs3_ok)
          × (s' ≡ looked srv to_path (looked srv path (looked srv to_path s₁))))
  unfolding nfsproc3_rename_3_svc rename_status
  rejected_rename from to rqstp result s unaccepted =
      let path = fh_decomp srv from.dir s in
      let s₁ = looked srv path s in
      let to_path = fh_decomp srv to.dir s₁ in
      rw (get_pre-looked srv path s, get_pre-looked srv to_path s₁)
        (let (status, state) =
            rename_status-rejected (cat_name path from.name stack.obj)
              (cat_name to_path to.name stack.obj) (looked srv to_path s₁)
              (λ (from_good, to_good).
                unaccepted
                  ((cat_name-ok_iff _ _ _).0 from_good, (cat_name-ok_iff _ _ _).0 to_good)) in
          (
            status,
            rw state (
                rw (get_post-looked srv path (looked srv to_path s₁))
                  (get_post-looked srv to_path _)),
          ))

  created_object-state :
      (status : Nfsstat3) (obj : List ℕ) (result : Create3Res) (s : State)
      → (let r = created_object srv status obj result s in
          ((status ≡ nfs3_ok) × (r.1 ≡ looked srv (some obj) s))
          ⊎ ((status ≢ nfs3_ok) × (r.1 ≡ s) × (r.0.status ≡ status)))
  unfolding created_object
  created_object-state status obj result s = elim (Bool-cases (status == nfs3_ok)) [
    | inl good ↦ rw good (inl (ground (arith, good), refl))
    | inr bad ↦ rw bad (inr (λ e. ground (arith, e, bad), refl, refl))
  ]

  -- CREATE does not look at the status of `cat_name`: where that rejects the name of an unchecked request
  -- that sets the mode, CREATE asks the backend all the same, with that mode, to make a file under
  -- whatever path the buffer held before. The status is the backend's if it refuses; if it does not, the
  -- file is looked at. The directory is looked at before and after.
  pub create-unchecked_name :
      (argp : Create3Args) (rqstp : SvcReq) (result : Create3Res) (s : State)
      → (IsAccepted (fh_decomp srv argp.where_args.dir s) argp.where_args.name → ⊥)
      → argp.how.mode ≡ unchecked
      → argp.how.obj_attributes.mode.set_it ≡ bool_true
      → (let dir = fh_decomp srv argp.where_args.dir s in
          let (status, s₂) =
            go_createover (some stack.obj) argp.how.obj_attributes.mode.mode (looked srv dir s) in
          let r = nfsproc3_create_3_svc srv argp rqstp result s in
          ((status ≡ nfs3_ok) × (r.1 ≡ looked srv dir (looked srv (some stack.obj) s₂)))
          ⊎ ((status ≢ nfs3_ok) × (r.1 ≡ looked srv dir s₂) × (r.0.status ≡ status)))
  unfolding nfsproc3_create_3_svc create_object created_object create_mode
  create-unchecked_name argp rqstp result s unaccepted how set =
      let dir = fh_decomp srv argp.where_args.dir s in
      let bad : name_status argp.where_args s ≢ nfs3_ok =
        λ good. unaccepted ((cat_name-ok_iff _ _ _).0 good) in
      let (status, s₂) =
        go_createover (some stack.obj) argp.how.obj_attributes.mode.mode (looked srv dir s) in
      rw (get_pre-looked srv dir s, cat_name-untouched _ _ stack.obj bad, how, set)
        (elim (created_object-state status stack.obj result s₂) [
          | inl (good, state) ↦ inl (good, rw (get_post-looked srv dir _, state) refl)
          | inr (refused, state, reported) ↦
              inr (refused, rw (get_post-looked srv dir _, state) refl, reported)
        ])
