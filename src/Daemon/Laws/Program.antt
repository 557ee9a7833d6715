-- ===== src/Daemon/Laws/Program.antt =====
-- What `nfs3_program_3` answers, and what the answer depends on.
use unfs2go.Common.{
  Bool-cases, if◌then◌else◌, ℕ, ◌≡◌, ◌≤◌, refl, List, [], ◌∷◌, ◌++◌, some, ap, inl, inr,
  Option-cases,
}
use unfs2go.Xdr.Rpc.{Rpc, IsRpc}
use unfs2go.Types.Constants.{max_entries}
use unfs2go.Backend.{Server}
use unfs2go.Backend.Contract.{IsServer}
use unfs2go.Request.{SvcReq}
use unfs2go.Daemon.Proc.{
  NfsProc, nfs_proc, proc_null, getattr, setattr, lookup, access, readlink, read, write, create,
  mkdir, symlink, mknod, remove, rmdir, rename, link, readdir, readdirplus, fsstat, fsinfo,
  pathconf, commit, Args, Res, zero_args,
}
use unfs2go.Daemon.Routines.{xdr_argument, xdr_result}
use unfs2go.Daemon.Local.{local}
use unfs2go.Daemon.Format.{IsArgs, wire_args, decoded_args, wire_res}
use unfs2go.Daemon.Statics.{get_static, set_static}
use unfs2go.Daemon.Program.{
  Svc, IsSvc, Answer, system_error, reply, World, answer, call, nfs3_program_3, serve,
}
use unfs2go.Daemon.Laws.Routines.{xdr_argument-Codes, xdr_result-Codes}
use unfs2go.Daemon.Laws.Valid.{local-IsRes}
use unfs2go.Daemon.Laws.History.{local-static_irrelevant}

-- The numbers of the procedures in the NFS version 3 protocol.
abbrev pub number : NfsProc → ℕ
number proc_null = 0
number getattr = 1
number setattr = 2
number lookup = 3
number access = 4
number readlink = 5
number read = 6
number write = 7
number create = 8
number mkdir = 9
number symlink = 10
number mknod = 11
number remove = 12
number rmdir = 13
number rename = 14
number link = 15
number readdir = 16
number readdirplus = 17
number fsstat = 18
number fsinfo = 19
number pathconf = 20
number commit = 21

nfs_proc-number : (p : NfsProc) → nfs_proc (number p) ≡ some p
unfolding nfs_proc
nfs_proc-number proc_null = refl
nfs_proc-number getattr = refl
nfs_proc-number setattr = refl
nfs_proc-number lookup = refl
nfs_proc-number access = refl
nfs_proc-number readlink = refl
nfs_proc-number read = refl
nfs_proc-number write = refl
nfs_proc-number create = refl
nfs_proc-number mkdir = refl
nfs_proc-number symlink = refl
nfs_proc-number mknod = refl
nfs_proc-number remove = refl
nfs_proc-number rmdir = refl
nfs_proc-number rename = refl
nfs_proc-number link = refl
nfs_proc-number readdir = refl
nfs_proc-number readdirplus = refl
nfs_proc-number fsstat = refl
nfs_proc-number fsinfo = refl
nfs_proc-number pathconf = refl
nfs_proc-number commit = refl

numbered : (n : ℕ) (p : NfsProc) → n ≡ number p → nfs_proc n ≡ some p
numbered n p known = rw known (nfs_proc-number p)

module _ (rpc : Rpc) (L : IsRpc rpc) (svc : Svc) (runtime : IsSvc svc) (srv : Server)
    (lawful : IsServer srv) (depth : ℕ) (enough : max_entries ≤ depth) where
  open srv use {backend.{State}}

  -- The bytes of a reply, as far as the transport takes them.
  abbrev pub sent : List ℕ → Answer
  sent body = if svc.transport_takes body then reply body else system_error

  -- The reply of a procedure to an argument, with what lasts after it.
  abbrev pub served :
      (p : NfsProc) → Args p → SvcReq → World rpc svc srv depth → Answer × World rpc svc srv depth
  served p argp rqstp w =
      let (result, s) = local srv p argp rqstp (get_static p w.statics) w.state in
      (sent (wire_res p result), record { statics = set_static p result w.statics; state = s })

  -- The result of a procedure is sent if the transport takes it.
  answer-sent :
      (p : NfsProc) (argp : Args p) (rqstp : SvcReq) (w : World rpc svc srv depth)
      → answer rpc svc srv depth p (local srv p argp rqstp (get_static p w.statics) w.state) w
        ≡ served p argp rqstp w
  unfolding answer
  answer-sent p argp rqstp w =
      let r = local srv p argp rqstp (get_static p w.statics) w.state in
      let valid =
        local-IsRes srv lawful depth enough p argp rqstp (get_static p w.statics) w.state in
      let encoded = (xdr_result-Codes rpc L depth p).encodes [] r.0 valid in
      let replied =
        runtime.sendreply (Res p) (xdr_result rpc depth p) r.0 r.0 (wire_res p r.0) encoded in
      elim (Bool-cases (svc.transport_takes (wire_res p r.0))) [
        | inl taken ↦ rw (answer, replied, taken) refl
        | inr refused ↦ rw (answer, replied, refused) refl
      ]

  -- A call of a procedure that there is, with arguments in their wire format at the front of its
  -- body, runs that procedure on them, also by the numbers of the protocol. The answer is the result in
  -- its wire format, or a system error if the transport does not take that; either way the result stays
  -- in the static object of the procedure. The runtime, the RPC library and the server meet
  -- their contracts, and `depth` is at least MAX_ENTRIES.
  pub nfs3_program_3-served :
      (p : NfsProc) (a : Args p) (rest : List ℕ) (rqstp : SvcReq) (w : World rpc svc srv depth)
      → rqstp.rq_proc ≡ number p
      → IsArgs p a
      → nfs3_program_3 rpc svc srv depth rqstp (wire_args p a ++ rest) w
        ≡ served p (decoded_args p a (zero_args p)) rqstp w
  unfolding nfs3_program_3 call
  nfs3_program_3-served p a rest rqstp w known valid =
      let got = (xdr_argument-Codes rpc L depth p).decodes rest a (zero_args p) valid in
      rw
        (
          nfs3_program_3,
          numbered rqstp.rq_proc p known,
          call,
          runtime.getargs_some (Args p) (xdr_argument rpc depth p) _ _ _ _ got,
          answer-sent p (decoded_args p a (zero_args p)) rqstp w,
        )
        refl

  call-static_irrelevant :
      (p : NfsProc) (rqstp : SvcReq) (body : List ℕ) (w w' : World rpc svc srv depth)
      → w.state ≡ w'.state
      → ((call rpc svc srv depth p rqstp body w).0 ≡ (call rpc svc srv depth p rqstp body w').0)
        × ((call rpc svc srv depth p rqstp body w).1.state
            ≡ (call rpc svc srv depth p rqstp body w').1.state)
  unfolding call
  call-static_irrelevant p rqstp body w w' same =
      elim (Option-cases (svc.svc_getargs (Args p) (xdr_argument rpc depth p) body (zero_args p))) [
        | inl refused ↦ rw (call, refused) (refl, same)
        | inr (argument, got) ↦
            let (replied, left) =
              local-static_irrelevant srv p argument rqstp (get_static p w.statics)
                (get_static p w'.statics) w'.state in
            rw (call, got, answer-sent p argument rqstp w, answer-sent p argument rqstp w', same)
              (ap (sent) replied, left)
      ]

  pub nfs3_program_3-static_irrelevant :
      (rqstp : SvcReq) (body : List ℕ) (w w' : World rpc svc srv depth)
      → w.state ≡ w'.state
      → ((nfs3_program_3 rpc svc srv depth rqstp body w).0
          ≡ (nfs3_program_3 rpc svc srv depth rqstp body w').0)
        × ((nfs3_program_3 rpc svc srv depth rqstp body w).1.state
            ≡ (nfs3_program_3 rpc svc srv depth rqstp body w').1.state)
  unfolding nfs3_program_3
  nfs3_program_3-static_irrelevant rqstp body w w' same =
      elim (Option-cases (nfs_proc rqstp.rq_proc)) [
        | inl unknown ↦ rw (nfs3_program_3, unknown) (refl, same)
        | inr (p, known) ↦
            rw (nfs3_program_3, known) (call-static_irrelevant p rqstp body w w' same)
      ]

  -- The answers to any sequence of calls, and the state after it, depend on the state before it, and
  -- not on what earlier calls left in the static results. The runtime, the RPC library and the server
  -- meet their contracts, and `depth` is at least MAX_ENTRIES.
  pub serve-static_irrelevant :
      (calls : List (SvcReq × List ℕ)) (w w' : World rpc svc srv depth)
      → w.state ≡ w'.state
      → ((serve rpc svc srv depth calls w).0 ≡ (serve rpc svc srv depth calls w').0)
        × ((serve rpc svc srv depth calls w).1.state ≡ (serve rpc svc srv depth calls w').1.state)
  unfolding serve
  serve-static_irrelevant [] w w' same = (refl, same)
  serve-static_irrelevant ((rqstp, body) ∷ calls) w w' same =
      let (answers, states) = nfs3_program_3-static_irrelevant rqstp body w w' same in
      let (later, last) =
        serve-static_irrelevant calls (nfs3_program_3 rpc svc srv depth rqstp body w).1
          (nfs3_program_3 rpc svc srv depth rqstp body w').1 states in
      (rw (answers, later) refl, last)
