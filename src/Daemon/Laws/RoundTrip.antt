-- ===== src/Daemon/Laws/RoundTrip.antt =====
-- The client's side and the server's side of a call, both through the routines of unfs3/xdr.c.
use unfs2go.Common.{ℕ, ◌≡◌, ◌≤◌, List, [], ◌++◌, append-nil, some, if◌then◌else◌, subst, ap}
use unfs2go.Xdr.Stream.{encoding, decoding}
use unfs2go.Xdr.Rpc.{Rpc, IsRpc}
use unfs2go.Types.Constants.{max_entries}
use unfs2go.Backend.{Server}
use unfs2go.Backend.Contract.{IsServer}
use unfs2go.Request.{SvcReq}
use unfs2go.Daemon.Proc.{NfsProc, Args, Res, zero_args}
use unfs2go.Daemon.Routines.{xdr_argument, xdr_result}
use unfs2go.Daemon.Local.{local}
use unfs2go.Daemon.Format.{IsArgs, wire_args, decoded_args, IsRes, wire_res, decoded_res}
use unfs2go.Daemon.Statics.{get_static}
use unfs2go.Daemon.Program.{Svc, IsSvc, reply, system_error, World, nfs3_program_3}
use unfs2go.Daemon.Laws.Routines.{xdr_argument-Codes, xdr_result-Codes}
use unfs2go.Daemon.Laws.Valid.{local-IsRes}
use unfs2go.Daemon.Laws.Program.{number, nfs3_program_3-served}

module _ (rpc : Rpc) (L : IsRpc rpc) (depth : ℕ) where
  -- For every procedure: encoding arguments whose members fit their types appends their wire format and
  -- succeeds, and decoding takes that format off the front of the stream and stores the arguments.
  pub xdr_argument-roundtrip :
      (p : NfsProc) (a old : Args p) (out rest : List ℕ)
      → IsArgs p a
      → (xdr_argument rpc depth p (encoding out) a ≡ some (encoding (out ++ wire_args p a), a))
        × (xdr_argument rpc depth p (decoding (wire_args p a ++ rest)) old
            ≡ some (decoding rest, decoded_args p a old))
  xdr_argument-roundtrip p a old out rest valid =
      let c = xdr_argument-Codes rpc L depth p in
      (c.encodes out a valid, c.decodes rest a old valid)

  -- For every procedure: encoding a result whose members fit their types, with chains no longer than
  -- `depth`, appends its wire format and succeeds, and decoding takes that format off the front of the
  -- stream and stores the result.
  pub xdr_result-roundtrip :
      (p : NfsProc) (r old : Res p) (out rest : List ℕ)
      → IsRes depth p r
      → (xdr_result rpc depth p (encoding out) r ≡ some (encoding (out ++ wire_res p r), r))
        × (xdr_result rpc depth p (decoding (wire_res p r ++ rest)) old
            ≡ some (decoding rest, decoded_res p r old))
  xdr_result-roundtrip p r old out rest valid =
      let c = xdr_result-Codes rpc L depth p in (c.encodes out r valid, c.decodes rest r old valid)

module _ (rpc : Rpc) (L : IsRpc rpc) (svc : Svc) (runtime : IsSvc svc) (srv : Server)
    (lawful : IsServer srv) (depth : ℕ) (enough : max_entries ≤ depth) where
  -- A client that encodes the arguments, has the server answer the bytes, and decodes the reply, gets what
  -- the procedure makes of the arguments, and reads the reply to its end.
  abbrev pub Answered : (p : NfsProc) → Args p → SvcReq → World rpc svc srv depth → Res p → Type 0
  Answered p a rqstp w old =
      let result =
        (local srv p (decoded_args p a (zero_args p)) rqstp (get_static p w.statics) w.state).0 in
      (body : List ℕ) × (answer : List ℕ) × (xdr_argument rpc depth p (encoding []) a
        ≡ some (encoding body, a))
      × ((nfs3_program_3 rpc svc srv depth rqstp body w).0
          ≡ (if svc.transport_takes answer then reply answer else system_error))
      × (xdr_result rpc depth p (decoding answer) old
          ≡ some (decoding [], decoded_res p result old))

  -- For every procedure, called by its number, and arguments that fit their types: a client that encodes
  -- the arguments, has the server answer the bytes, and decodes the reply, gets what the procedure makes
  -- of the arguments, and reads the reply to its end. Where the transport does not take the reply, the
  -- answer is a system error. The runtime, the RPC library and the server meet their contracts.
  pub nfs3_program_3-roundtrip :
      (p : NfsProc) (a : Args p) (rqstp : SvcReq) (w : World rpc svc srv depth) (old : Res p)
      → rqstp.rq_proc ≡ number p
      → IsArgs p a
      → Answered p a rqstp w old
  nfs3_program_3-roundtrip p a rqstp w old known valid =
      let argp = decoded_args p a (zero_args p) in
      let result = (local srv p argp rqstp (get_static p w.statics) w.state).0 in
      let fits =
        local-IsRes srv lawful depth enough p argp rqstp (get_static p w.statics) w.state in
      let served =
        nfs3_program_3-served rpc L svc runtime srv lawful depth enough p a [] rqstp w known
          valid in
      let read = (xdr_result-roundtrip rpc L depth p result old [] [] fits).1 in
      (
        wire_args p a,
        wire_res p result,
        (xdr_argument-roundtrip rpc L depth p a a [] [] valid).0,
        subst
            (λ body. (nfs3_program_3 rpc svc srv depth rqstp body w).0 ≡ (
              if svc.transport_takes (wire_res p result)
              then reply (wire_res p result)
              else system_error))
            (append-nil (wire_args p a)) (ap (λ r. r.0) served),
        subst
            (λ answer.
              xdr_result rpc depth p (decoding answer) old
              ≡ some (decoding [], decoded_res p result old))
            (append-nil (wire_res p result)) read,
      )
