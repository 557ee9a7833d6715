-- ===== src/Nfs/Laws/Inode.antt =====
-- What GETATTR, SETATTR and ACCESS do.
use unfs2go.Common.{
  ℕ, ◌≡◌, refl, ap, ◌≢◌, ◌⊎◌, List, [], ◌∷◌, ◌++◌, ◌%◌, ◌^◌, false, not, ◌==◌, arith, inl, inr,
  Bool-cases, if◌then◌else◌,
}
use unfs2go.Types.Stat.{s_isdir}
use unfs2go.Types.Sattr.{SetUid3, SetGid3, SetAtime, Sattrguard3, Sattr3}
use unfs2go.Xdr.Stream.{CharPtr}
use unfs2go.Types.Names.{Nfsstat3}
use unfs2go.Types.Args.{Getattr3Args, Setattr3Args, Access3Args}
use unfs2go.Types.Res.{Getattr3Res, Setattr3Res, Access3Res}
use unfs2go.Types.Constants.{
  bool_false, bool_true, nfs3_ok, nf3dir, dont_change, set_to_server_time,
}
use unfs2go.Types.Zero.{zero_fattr3}
use unfs2go.Backend.{Server}
use unfs2go.Request.{SvcReq}
use unfs2go.Handle.{fh_decomp}
use unfs2go.Attributes.{attributes_of, get_post, get_post_buf, type_of_mode}
use unfs2go.Attributes.Laws.{type_of_mode-dir_iff}
use unfs2go.Nfs.Inode.{
  granted, set_size, set_mode, set_mtime, nfsproc3_getattr_3_svc, nfsproc3_setattr_3_svc,
  nfsproc3_access_3_svc,
}
use unfs2go.Nfs.Laws.Looked.{looked, get_post-looked, get_pre-looked}

-- A request to change a file.
pub data Request : Type 0 where
  to_size to_mode to_time : ℕ → Request

-- The requests that new attributes stand for at a time of the server: the size and the mode if they are
-- set, the time of change that is sent or that of the server.
abbrev size_requests : Sattr3 → List Request
size_requests new = if new.size.set_it == bool_true then to_size new.size.size ∷ [] else []

abbrev mode_requests : Sattr3 → List Request
mode_requests new = if new.mode.set_it == bool_true then to_mode new.mode.mode ∷ [] else []

abbrev time_requests : ℕ → Sattr3 → List Request
time_requests now new =
    if new.mtime.set_it == dont_change
    then []
    else to_time (if new.mtime.set_it == set_to_server_time then now else new.mtime.mtime.seconds)
      ∷ []

abbrev pub requests : ℕ → Sattr3 → List Request
requests now new = size_requests new ++ (mode_requests new ++ time_requests now new)

-- The first status that is not success, or success.
abbrev pub first_error : List Nfsstat3 → Nfsstat3
first_error [] = nfs3_ok
first_error (status ∷ rest) = if status == nfs3_ok then first_error rest else status

first_error-append :
    (xs ys : List Nfsstat3)
    → first_error (xs ++ ys)
      ≡ (if not (first_error xs == nfs3_ok) then first_error xs else first_error ys)
first_error-append [] ys = refl
first_error-append (x ∷ xs) ys = elim (Bool-cases (x == nfs3_ok)) [
  | inl good ↦ rw good (first_error-append xs ys)
  | inr bad ↦ rw (bad, bad) refl
]

granted-mask : (m : ℕ) → granted (type_of_mode m) ≡ (if s_isdir m then 0x1f else 0x2d)
unfolding granted
granted-mask m = elim (Bool-cases (s_isdir m)) [
  | inl dir ↦ rw ((type_of_mode-dir_iff m).1 dir, dir) refl
  | inr other ↦ rw (not_dir m other, other) refl
]
  where
    not_dir : (m : ℕ) → s_isdir m ≡ false → (type_of_mode m == nf3dir) ≡ false
    not_dir m other = ground (arith, other, type_of_mode-dir_iff m)

module _ (srv : Server) where
  open srv use {
    backend.{State, go_lstat, go_truncate, go_chmod, go_modtime},
    stack,
    opt_readable_executables,
  }

  -- One request to the Go side, and all of a list in order, whatever they answer.
  abbrev pub ask : CharPtr → Request → State → Nfsstat3 × State
  ask path (to_size n) s = go_truncate path n s
  ask path (to_mode n) s = go_chmod path n s
  ask path (to_time n) s = go_modtime path n s

  abbrev pub perform : CharPtr → List Request → State → List Nfsstat3 × State
  perform path [] s = ([], s)
  perform path (q ∷ qs) s =
      let (status, s₁) = ask path q s in
      let (statuses, s₂) = perform path qs s₁ in (status ∷ statuses, s₂)

  perform-append :
      (path : CharPtr) (xs ys : List Request) (s : State)
      → (let (first, s₁) = perform path xs s in
          let (second, s₂) = perform path ys s₁ in
          perform path (xs ++ ys) s ≡ (first ++ second, s₂))
  perform-append path [] ys s = refl
  perform-append path (x ∷ xs) ys s = rw (perform-append path xs ys (ask path x s).1) refl

  -- What one of the three steps of SETATTR does, as a list of requests.
  abbrev Performs : CharPtr → List Request → State → Nfsstat3 × State → Type 0
  Performs path qs s (status, s') =
      let (statuses, s₁) = perform path qs s in (status ≡ first_error statuses) × (s' ≡ s₁)

  Performs-one :
      (path : CharPtr) (q : Request) (s : State) → Performs path (q ∷ []) s (ask path q s)
  Performs-one path q s = elim (Bool-cases ((ask path q s).0 == nfs3_ok)) [
    | inl good ↦ rw good (ground (arith, good), refl)
    | inr bad ↦ rw bad (refl, refl)
  ]

  Performs-append :
      (path : CharPtr) (xs ys : List Request) (s s₁ s₂ : State) (a b : Nfsstat3)
      → Performs path xs s (a, s₁)
      → Performs path ys s₁ (b, s₂)
      → Performs path (xs ++ ys) s (if not (a == nfs3_ok) then a else b, s₂)
  Performs-append path xs ys s s₁ s₂ a b (first, then_first) (second, then_second) =
      rw (perform-append, first_error-append, ← then_first, ← first, ← then_second, ← second)
        (refl, refl)

  set_size-Performs :
      (path : CharPtr) (new : Sattr3) (s : State)
      → Performs path (size_requests new) s (set_size srv path new s)
  unfolding set_size
  set_size-Performs path new s = elim (Bool-cases (new.size.set_it == bool_true)) [
    | inl set ↦ rw set (Performs-one path (to_size new.size.size) s)
    | inr keep ↦ rw keep (refl, refl)
  ]

  set_mode-Performs :
      (path : CharPtr) (new : Sattr3) (s : State)
      → Performs path (mode_requests new) s (set_mode srv path new s)
  unfolding set_mode
  set_mode-Performs path new s = elim (Bool-cases (new.mode.set_it == bool_true)) [
    | inl set ↦ rw set (Performs-one path (to_mode new.mode.mode) s)
    | inr keep ↦ rw keep (refl, refl)
  ]

  set_mtime-Performs :
      (path : CharPtr) (new : Sattr3) (rqstp : SvcReq) (s : State)
      → Performs path (time_requests (rqstp.now % 2 ^ 32) new) s (set_mtime srv path new rqstp s)
  unfolding set_mtime
  set_mtime-Performs path new rqstp s = elim (Bool-cases (new.mtime.set_it == dont_change)) [
    | inl keep ↦ rw keep (refl, refl)
    | inr set ↦ elim (Bool-cases (new.mtime.set_it == set_to_server_time)) [
      | inl server ↦ rw (set, server) (Performs-one path (to_time (rqstp.now % 2 ^ 32)) s)
      | inr client ↦ rw (set, client) (Performs-one path (to_time new.mtime.mtime.seconds) s)
    ]
  ]

  -- GETATTR reports success in every case; where the file cannot be looked at, the attributes that it
  -- reports are zero.
  pub getattr-never_fails :
      (argp : Getattr3Args) (rqstp : SvcReq) (result : Getattr3Res) (s : State)
      → (let (status, buf, s') = go_lstat (fh_decomp srv argp.object s) stack.buf s in
          let r = nfsproc3_getattr_3_svc srv argp rqstp result s in
          (r.0.status ≡ nfs3_ok)
          × (r.1 ≡ s')
          × (((status ≡ nfs3_ok)
                × (r.0.resok.obj_attributes ≡ attributes_of opt_readable_executables buf))
              ⊎ ((status ≢ nfs3_ok) × (r.0.resok.obj_attributes ≡ zero_fattr3))))
  unfolding nfsproc3_getattr_3_svc get_post get_post_buf
  getattr-never_fails argp rqstp result s =
      elim (Bool-cases ((go_lstat (fh_decomp srv argp.object s) stack.buf s).0 == nfs3_ok)) [
        | inl found ↦ rw found (refl, refl, inl (ground (arith, found), refl))
        | inr missing ↦ rw missing (refl, refl, inr (λ e. ground (arith, e, missing), refl))
      ]

  -- SETATTR: between two looks at the file, the requests that the new attributes stand for are all made,
  -- in the order of size, mode and time of change, also after one that fails; the status is that of the
  -- first that failed, or success if none did.
  pub setattr-requests :
      (argp : Setattr3Args) (rqstp : SvcReq) (result : Setattr3Res) (s : State)
      → (let path = fh_decomp srv argp.object s in
          let (statuses, s₁) =
            perform path (requests (rqstp.now % 2 ^ 32) argp.new_attributes) (looked srv path s) in
          let r = nfsproc3_setattr_3_svc srv argp rqstp result s in
          (r.1 ≡ looked srv path s₁) × (r.0.status ≡ first_error statuses))
  unfolding nfsproc3_setattr_3_svc set_size set_mode set_mtime
  setattr-requests argp rqstp result s =
      let new = argp.new_attributes in
      let path = fh_decomp srv argp.object s in
      let s₁ = looked srv path s in
      let (size, s₂) = set_size srv path new s₁ in
      let (mode, s₃) = set_mode srv path new s₂ in
      let (mtime, s₄) = set_mtime srv path new rqstp s₃ in
      let (status, state) =
        Performs-append path (size_requests new)
          (mode_requests new ++ time_requests (rqstp.now % 2 ^ 32) new) s₁ s₂ s₄ size _
          (set_size-Performs path new s₁)
          (Performs-append path (mode_requests new) (time_requests (rqstp.now % 2 ^ 32) new) s₂ s₃
            s₄ mode mtime (set_mode-Performs path new s₂) (set_mtime-Performs path new rqstp s₃)) in
      rw (get_pre-looked srv path s)
        (rw (get_post-looked srv path s₄) (ap (looked srv path) state), status)

  -- ACCESS: the mask is 0x1F for a directory and 0x2D for all else, whatever was asked and whoever asks; if
  -- the file cannot be looked at it is 0, and no attributes follow.
  pub access-mask :
      (argp : Access3Args) (rqstp : SvcReq) (result : Access3Res) (s : State)
      → (let (status, buf, s') = go_lstat (fh_decomp srv argp.object s) stack.buf s in
          let r = (nfsproc3_access_3_svc srv argp rqstp result s).0 in
          (r.status ≡ status)
          × (((status ≡ nfs3_ok) × (r.resok.access ≡ (if s_isdir buf.st_mode then 0x1f else 0x2d)))
              ⊎ ((status ≢ nfs3_ok)
                  × (r.resok.access ≡ 0)
                  × (r.resok.obj_attributes.attributes_follow ≡ bool_false))))
  unfolding nfsproc3_access_3_svc get_post_buf granted
  access-mask argp rqstp result s =
      elim (Bool-cases ((go_lstat (fh_decomp srv argp.object s) stack.buf s).0 == nfs3_ok)) [
        | inl found ↦ rw found (refl, inl (ground (arith, found), granted-mask _))
        | inr missing ↦ rw missing (refl, inr (λ e. ground (arith, e, missing), refl, refl))
      ]

  -- SETATTR does not look at the owner, the group, the time of access and the guard that it is sent.
  pub setattr-ignores :
      (argp : Setattr3Args) (uid : SetUid3) (gid : SetGid3) (atime : SetAtime) (guard : Sattrguard3)
      (rqstp : SvcReq) (result : Setattr3Res) (s : State)
      → nfsproc3_setattr_3_svc srv
          (record argp {
            new_attributes = record argp.new_attributes { uid = uid; gid = gid; atime = atime };
            guard = guard;
          })
          rqstp
          result
          s
        ≡ nfsproc3_setattr_3_svc srv argp rqstp result s
  unfolding nfsproc3_setattr_3_svc set_size set_mode set_mtime
  setattr-ignores argp uid gid atime guard rqstp result s = refl
