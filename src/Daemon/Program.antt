-- ===== src/Daemon/Program.antt =====
-- unfs3/daemon.c: `nfs3_program_3`, and the loop that hands it one call after the other.
use unfs2go.Common.{ℕ, Bool, if◌then◌else◌, ◌≡◌, List, [], ◌∷◌, Option, none, some}
use unfs2go.Xdr.Stream.{Filter, Xdr, encoding, decoding}
use unfs2go.Xdr.Rpc.{Rpc}
use unfs2go.Backend.{Server}
use unfs2go.Request.{SvcReq}
use unfs2go.Daemon.Proc.{NfsProc, nfs_proc, Args, Res, zero_args}
use unfs2go.Daemon.Routines.{xdr_argument, xdr_result}
use unfs2go.Daemon.Local.{local}
use unfs2go.Daemon.Statics.{Statics, get_static, set_static}

-- The RPC runtime (rpc/svc.h): the arguments from the body of a call, and the body of a reply. The
-- transport takes a reply or does not, as its buffer and its connection allow.
pub record Svc : Type 1 where
  pub svc_getargs : (A : Type 0) → Filter A → List ℕ → A → Option A
  pub svc_sendreply : (A : Type 0) → Filter A → A → Option (List ℕ)
  pub transport_takes : List ℕ → Bool

-- It gets the arguments that the routine decodes from a stream of the body. A reply that
-- the routine has encoded is sent exactly if the transport takes it.
pub record IsSvc (svc : Svc) : Type 1 where
  pub getargs_some :
      (A : Type 0) (f : Filter A) (body : List ℕ) (old new : A) (xdrs : Xdr)
      → f (decoding body) old ≡ some (xdrs, new)
      → svc.svc_getargs A f body old ≡ some new
  pub sendreply :
      (A : Type 0) (f : Filter A) (x y : A) (out : List ℕ)
      → f (encoding []) x ≡ some (encoding out, y)
      → svc.svc_sendreply A f x ≡ (if svc.transport_takes out then some out else none)

-- What goes back to the client: `svcerr_noproc`, `svcerr_decode`, `svcerr_systemerr`, or a reply.
pub data Answer : Type 0 where
  noproc decode_error system_error : Answer
  reply : List ℕ → Answer

module _ (rpc : Rpc) (svc : Svc) (srv : Server) (depth : ℕ) where
  open srv use {backend.{State}}

  -- What lasts from call to call.
  pub record World : Type 0 where
    pub statics : Statics
    pub state : State

  -- The result of `local` is kept in its static object, and sent.
  unfoldable pub answer : (p : NfsProc) → Res p × State → World → Answer × World
  answer p (result, s) w =
      let w' : World = record { statics = set_static p result w.statics; state = s } in
      elim (svc.svc_sendreply (Res p) (xdr_result rpc depth p) result) [
        | none ↦ (system_error, w')
        | some body ↦ (reply body, w')
      ]

  unfoldable pub call : (p : NfsProc) → SvcReq → List ℕ → World → Answer × World
  unfolding answer
  call p rqstp body w =
      elim (svc.svc_getargs (Args p) (xdr_argument rpc depth p) body (zero_args p)) [
        | none ↦ (decode_error, w)
        | some argument ↦ answer p (local srv p argument rqstp (get_static p w.statics) w.state) w
      ]

  unfoldable pub nfs3_program_3 : SvcReq → List ℕ → World → Answer × World
  unfolding call
  nfs3_program_3 rqstp body w = elim (nfs_proc rqstp.rq_proc) [
    | none ↦ (noproc, w)
    | some p ↦ call p rqstp body w
  ]

  -- The calls in the order in which they arrive, each with its body.
  unfoldable pub serve : List (SvcReq × List ℕ) → World → List Answer × World
  serve [] w = ([], w)
  serve ((rqstp, body) ∷ calls) w =
      let (a, w₁) = nfs3_program_3 rqstp body w in
      let (answers, w₂) = serve calls w₁ in (a ∷ answers, w₂)
