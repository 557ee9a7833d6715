-- ===== src/Mount/Laws/Program.antt =====
-- What `mountprog_3` answers.
use unfs2go.Common.{
  if◌then◌else◌, ℕ, ◌≤◌, ◌≡◌, refl, List, [], ◌++◌, none, some, arith, inl, inr, length, ◌==◌,
  Bool-cases, ltb, ◌+◌,
}
use unfs2go.Xdr.Stream.{decoding}
use unfs2go.Xdr.Rpc.{Rpc, IsRpc}
use unfs2go.Xdr.Codes.{Codes, done-Codes, replaced}
use unfs2go.Types.Constants.{nfs3_ok, nfs_maxpathlen}
use unfs2go.Types.Stat.{s_isdir}
use unfs2go.Wire.Basic.{IsString, wire_string}
use unfs2go.Wire.Chain.{All, IsChain, wire_chain, stored_chain}
use unfs2go.Backend.{Server}
use unfs2go.Request.{SvcReq}
use unfs2go.Handle.Laws.{handle_of-IsNfsFh3}
use unfs2go.Daemon.Program.{Svc, IsSvc, reply, system_error}
use unfs2go.Mount.Types.{Mountres3, mntpathlen}
use unfs2go.Mount.Wire.{
  IsMountres3, wire_mountres3, decoded_mountres3, IsMountbody, wire_mountbody, IsExportnode,
  wire_exportnode, decoded_exportnode,
}
use unfs2go.Mount.Mounts.{Malloc, Mounts}
use unfs2go.Mount.Procs.{mountproc_mnt_3_svc, mountproc_dump_3_svc, mountproc_export_3_svc}
use unfs2go.Mount.Xdr.{zero_mountbody, zero_exportnode}
use unfs2go.Mount.Program.{
  MountProc, mount_null, mnt, dump, umnt, umntall, export_list, MountArgs, MountRes,
  zero_mount_args, xdr_mount_argument, xdr_mount_result, MountWorld, mount_local, mount_answer,
  mount_call, mountprog_3,
}
use unfs2go.Mount.Laws.Runs.{mount_numbered, mount_number, IsSome, Runs, mount_local-Runs}
use unfs2go.Mount.Laws.Xdr.{
  xdr_dirpath-Codes, xdr_mountres3-Codes, xdr_mountlist-Codes, xdr_exports-Codes,
}

-- The formats of the arguments and the results.
abbrev pub IsMountArgs : (p : MountProc) → MountArgs p → Type 0
IsMountArgs mount_null = λ o. Unit
IsMountArgs mnt = IsString mntpathlen
IsMountArgs dump = λ o. Unit
IsMountArgs umnt = IsString mntpathlen
IsMountArgs umntall = λ o. Unit
IsMountArgs export_list = λ o. Unit

abbrev pub wire_mount_args : (p : MountProc) → MountArgs p → List ℕ
wire_mount_args mount_null = λ o. []
wire_mount_args mnt = wire_string
wire_mount_args dump = λ o. []
wire_mount_args umnt = wire_string
wire_mount_args umntall = λ o. []
wire_mount_args export_list = λ o. []

abbrev pub IsMountRes : ℕ → (p : MountProc) → MountRes p → Type 0
IsMountRes depth mount_null = λ o. Unit
IsMountRes depth mnt = IsMountres3
IsMountRes depth dump = IsChain IsMountbody depth
IsMountRes depth umnt = λ o. Unit
IsMountRes depth umntall = λ o. Unit
IsMountRes depth export_list = IsChain (IsExportnode depth) depth

abbrev pub wire_mount_res : (p : MountProc) → MountRes p → List ℕ
wire_mount_res mount_null = λ o. []
wire_mount_res mnt = wire_mountres3
wire_mount_res dump = wire_chain wire_mountbody
wire_mount_res umnt = λ o. []
wire_mount_res umntall = λ o. []
wire_mount_res export_list = wire_chain wire_exportnode

abbrev pub decoded_mount_res : (p : MountProc) → MountRes p → MountRes p → MountRes p
decoded_mount_res mount_null = λ o old. old
decoded_mount_res mnt = decoded_mountres3
decoded_mount_res dump = stored_chain zero_mountbody replaced
decoded_mount_res umnt = λ o old. old
decoded_mount_res umntall = λ o old. old
decoded_mount_res export_list = stored_chain zero_exportnode decoded_exportnode

module _ (rpc : Rpc) (L : IsRpc rpc) (depth : ℕ) where
  xdr_mount_argument-decodes :
      (p : MountProc) (a : MountArgs p) (rest : List ℕ)
      → IsMountArgs p a
      → xdr_mount_argument rpc depth p (decoding (wire_mount_args p a ++ rest)) (zero_mount_args p)
        ≡ some (decoding rest, a)
  unfolding xdr_mount_argument
  xdr_mount_argument-decodes mount_null a rest v = done-Codes.decodes rest tt tt tt
  xdr_mount_argument-decodes mnt a rest v = (xdr_dirpath-Codes rpc L).decodes rest a none v
  xdr_mount_argument-decodes dump a rest v = done-Codes.decodes rest tt tt tt
  xdr_mount_argument-decodes umnt a rest v = (xdr_dirpath-Codes rpc L).decodes rest a none v
  xdr_mount_argument-decodes umntall a rest v = done-Codes.decodes rest tt tt tt
  xdr_mount_argument-decodes export_list a rest v = done-Codes.decodes rest tt tt tt

  pub xdr_mount_result-Codes :
      (p : MountProc)
      → Codes
          (xdr_mount_result rpc depth p)
          (IsMountRes depth p)
          (wire_mount_res p)
          (decoded_mount_res p)
  unfolding xdr_mount_result
  xdr_mount_result-Codes mount_null = done-Codes
  xdr_mount_result-Codes mnt = xdr_mountres3-Codes rpc L
  xdr_mount_result-Codes dump = xdr_mountlist-Codes rpc L depth
  xdr_mount_result-Codes umnt = done-Codes
  xdr_mount_result-Codes umntall = done-Codes
  xdr_mount_result-Codes export_list = xdr_exports-Codes rpc L depth

module _ (inet_ntoa : ℕ → List ℕ) (srv : Server)
    (go_accept_mount : ℕ → List ℕ → srv.backend.State → ℕ × srv.backend.State) (depth : ℕ)
    (roomy : 1 ≤ depth) where
  open srv use {backend.{State, go_lstat}, stack}

  mnt-IsMountres3 :
      (dpath : List ℕ) (rqstp : SvcReq) (malloc : Malloc) (result : Mountres3) (ms : Mounts)
      (s : State)
      → IsMountres3
          (mountproc_mnt_3_svc inet_ntoa srv go_accept_mount dpath rqstp malloc result ms s).0
  unfolding mountproc_mnt_3_svc
  mnt-IsMountres3 dpath rqstp malloc result ms s =
      let looked = go_lstat (some dpath) stack.buf s in
      elim (Bool-cases (rqstp.rq_vers == 3)) [
        | inr other ↦ rw other (omega arith)
        | inl version ↦ elim (Bool-cases (looked.0 == nfs3_ok)) [
          | inr missing ↦ rw (version, missing) (omega arith)
          | inl found ↦ elim (Bool-cases (ltb nfs_maxpathlen (length dpath + 1))) [
            | inl long ↦ rw (version, found, long) (omega arith)
            | inr short ↦
                elim (Bool-cases ((go_accept_mount rqstp.sin_addr dpath looked.2).0 == nfs3_ok)) [
                  | inr denied ↦ rw (version, found, short, denied) (omega arith)
                  | inl accepted ↦ elim (Bool-cases (s_isdir looked.1.st_mode)) [
                    | inr file ↦ rw (version, found, short, accepted, file) (omega arith)
                    | inl dir ↦
                        rw (version, found, short, accepted, dir)
                          (
                            omega arith,
                            (handle_of-IsNfsFh3 srv looked.1.st_ino (some dpath), omega arith),
                          )
                  ]
                ]
          ]
        ]
      ]

  mount_local-IsMountRes :
      (p : MountProc) (a : MountArgs p) (rqstp : SvcReq) (malloc : Malloc)
      (w : MountWorld inet_ntoa srv go_accept_mount)
      → IsMountArgs p a
      → All IsMountbody w.mounts.mount_list
      → length w.mounts.mount_list ≤ depth
      → IsMountRes depth p (mount_local inet_ntoa srv go_accept_mount p a rqstp malloc w).0
  unfolding mount_local mountproc_dump_3_svc mountproc_export_3_svc
  mount_local-IsMountRes mount_null a rqstp malloc w v all short = tt
  mount_local-IsMountRes mnt none rqstp malloc w v all short = absurd v
  mount_local-IsMountRes mnt (some dpath) rqstp malloc w v all short =
      mnt-IsMountres3 dpath rqstp malloc _ _ _
  mount_local-IsMountRes dump a rqstp malloc w v all short = (all, short)
  mount_local-IsMountRes umnt a rqstp malloc w v all short = tt
  mount_local-IsMountRes umntall a rqstp malloc w v all short = tt
  mount_local-IsMountRes export_list a rqstp malloc w v all short = omega (arith, roomy)

  IsMountArgs-IsSome :
      (p : MountProc) (a : MountArgs p) → IsMountArgs p a → IsSome inet_ntoa srv go_accept_mount p a
  IsMountArgs-IsSome mount_null a v = tt
  IsMountArgs-IsSome mnt none v = v
  IsMountArgs-IsSome mnt (some dpath) v = tt
  IsMountArgs-IsSome dump a v = tt
  IsMountArgs-IsSome umnt a v = tt
  IsMountArgs-IsSome umntall a v = tt
  IsMountArgs-IsSome export_list a v = tt

  -- A call by the number of a procedure, with its argument in wire format at the front of the body: NULL
  -- changes nothing, DUMP returns the mounts, EXPORT the one export, MNT answers and records what it does
  -- for a mountable and for any other directory, UMNT removes the mounts of the caller at the path and
  -- UMNTALL all of the caller. The answer is the result in wire format, or a system error if the
  -- transport does not take that; a client that decodes the result reads it to its end. The runtime and
  -- the RPC library meet their contracts, and the mounts fit the protocol and are at most `depth`, which
  -- is not 0.
  pub mountprog_3-served :
      (rpc : Rpc) (L : IsRpc rpc) (svc : Svc) (runtime : IsSvc svc) (p : MountProc)
      (a : MountArgs p) (rest : List ℕ) (rqstp : SvcReq) (malloc : Malloc)
      (w : MountWorld inet_ntoa srv go_accept_mount) (old : MountRes p)
      → rqstp.rq_proc ≡ mount_number p
      → IsMountArgs p a
      → All IsMountbody w.mounts.mount_list
      → length w.mounts.mount_list ≤ depth
      → (let (result, w') = mount_local inet_ntoa srv go_accept_mount p a rqstp malloc w in
          let body = wire_mount_res p result in
          (mountprog_3 inet_ntoa srv go_accept_mount rpc svc depth rqstp malloc
              (wire_mount_args p a ++ rest)
              w
            ≡ ((if svc.transport_takes body then reply body else system_error), w'))
          × Runs inet_ntoa srv go_accept_mount p a rqstp malloc w result w'
          × (xdr_mount_result rpc depth p (decoding (body ++ [])) old
              ≡ some (decoding [], decoded_mount_res p result old)))
  unfolding mountprog_3 mount_call mount_answer
  mountprog_3-served rpc L svc runtime p a rest rqstp malloc w old known v all short =
      let got = xdr_mount_argument-decodes rpc L depth p a rest v in
      let r = mount_local inet_ntoa srv go_accept_mount p a rqstp malloc w in
      let fits = mount_local-IsMountRes p a rqstp malloc w v all short in
      let c = xdr_mount_result-Codes rpc L depth p in
      let replied =
        runtime.sendreply (MountRes p) (xdr_mount_result rpc depth p) r.0 r.0 (wire_mount_res p r.0)
          (c.encodes [] r.0 fits) in
      let received =
        runtime.getargs_some (MountArgs p) (xdr_mount_argument rpc depth p) _ _ _ _ got in
      (
        elim (Bool-cases (svc.transport_takes (wire_mount_res p r.0))) [
          | inl taken ↦
              rw
                (
                  mountprog_3,
                  mount_numbered rqstp.rq_proc p known,
                  mount_call,
                  received,
                  mount_answer,
                  replied,
                  taken,
                )
                refl
          | inr refused ↦
              rw
                (
                  mountprog_3,
                  mount_numbered rqstp.rq_proc p known,
                  mount_call,
                  received,
                  mount_answer,
                  replied,
                  refused,
                )
                refl
        ],
        mount_local-Runs inet_ntoa srv go_accept_mount p a rqstp malloc w
            (IsMountArgs-IsSome p a v),
        c.decodes [] r.0 old fits,
      )
