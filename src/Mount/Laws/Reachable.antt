-- ===== src/Mount/Laws/Reachable.antt =====
-- The lists of mounts that sequences of requests lead to.
use unfs2go.Common.{
  ℕ, ◌≡◌, refl, List, [], ◌∷◌, ◌++◌, Bool, none, some, arith, length, inl, inr, Bool-cases,
}
use unfs2go.Xdr.Stream.{CharPtr, encoding, decoding}
use unfs2go.Xdr.Rpc.{Rpc, IsRpc}
use unfs2go.Wire.Basic.{IsString}
use unfs2go.Wire.Chain.{All, IsChain, wire_chain, stored_chain}
use unfs2go.Backend.{Server}
use unfs2go.Request.{SvcReq, get_remote}
use unfs2go.Mount.Types.{Mountres3, Mountbody, mntpathlen, mntnamlen}
use unfs2go.Mount.Wire.{IsMountbody, wire_mountbody}
use unfs2go.Mount.Mounts.{Malloc, Mounts, add_mount, remove_mount}
use unfs2go.Mount.Procs.{
  mountproc_mnt_3_svc, mountproc_umnt_3_svc, mountproc_umntall_3_svc, mountproc_dump_3_svc,
}
use unfs2go.Mount.Xdr.{zero_mountbody, xdr_mountlist}
use unfs2go.Mount.Laws.Mounts.{
  remaining, add_mount-cases, remove_mount-remaining, IsCounted, add_mount-IsCounted,
  remove_mount-IsCounted,
}
use unfs2go.Mount.Laws.Mnt.{mountproc_mnt_3_svc-add_mount}
use unfs2go.Mount.Laws.Xdr.{xdr_mountlist-Codes}

All-append : {A : Type 0} (V : A → Type 0) (xs ys : List A) → All V xs → All V ys → All V (xs ++ ys)
All-append V [] ys all others = others
All-append V (x ∷ xs) ys (first, all) others = (first, All-append V xs ys all others)

All-remaining :
    (V : Mountbody → Type 0) (picked : Mountbody → Bool) (ms : List Mountbody)
    → All V ms
    → All V (remaining picked ms)
All-remaining V picked [] all = all
All-remaining V picked (m ∷ ms) (first, all) = elim (Bool-cases (picked m)) [
  | inl found ↦ rw found (All-remaining V picked ms all)
  | inr other ↦ rw other (first, All-remaining V picked ms all)
]

module _ (inet_ntoa : ℕ → List ℕ) (srv : Server)
    (go_accept_mount : ℕ → List ℕ → srv.backend.State → ℕ × srv.backend.State) where
  open srv use {backend.{State}}

  -- The requests, in any order and from any state of the backend. The directory of a request to mount has
  -- been decoded.
  pub data Reachable : Mounts → Type 0 where
    start : Reachable (record { mount_list = []; mount_cnt = 0 })
    mnt :
        (ms : Mounts) (dpath : List ℕ) (rqstp : SvcReq) (malloc : Malloc) (result : Mountres3)
        (s : State)
        → IsString mntpathlen (some dpath)
        → Reachable ms
        → Reachable
            (mountproc_mnt_3_svc inet_ntoa srv go_accept_mount dpath rqstp malloc result ms s).1
    umnt :
        (ms : Mounts) (argp : CharPtr) (rqstp : SvcReq)
        → Reachable ms
        → Reachable (mountproc_umnt_3_svc inet_ntoa argp rqstp ms)
    umntall :
        (ms : Mounts) (rqstp : SvcReq)
        → Reachable ms
        → Reachable (mountproc_umntall_3_svc inet_ntoa rqstp ms)

  -- The entries fit the protocol, and are counted.
  abbrev pub IsMounts : Mounts → Type 0
  IsMounts ms = IsCounted inet_ntoa ms × All IsMountbody ms.mount_list

  module _ (printed : (addr : ℕ) → IsString mntnamlen (some (inet_ntoa addr))) where
    add_mount-IsMounts :
        (path : List ℕ) (rqstp : SvcReq) (malloc : Malloc) (ms : Mounts)
        → IsString mntpathlen (some path)
        → IsMounts ms
        → IsMounts (add_mount inet_ntoa path rqstp malloc ms)
    add_mount-IsMounts path rqstp malloc ms fits (counted, all) = (
      add_mount-IsCounted inet_ntoa path rqstp malloc ms counted,
      elim (add_mount-cases inet_ntoa path rqstp malloc ms) [
        | inl short ↦ rw short all
        | inr added ↦
            rw added
              (All-append IsMountbody ms.mount_list _ all ((printed (get_remote rqstp), fits), tt))
      ],
    )

    remove_mount-IsMounts :
        (path : CharPtr) (rqstp : SvcReq) (ms : Mounts)
        → IsMounts ms
        → IsMounts (remove_mount inet_ntoa path rqstp ms)
    remove_mount-IsMounts path rqstp ms (counted, all) = (
      remove_mount-IsCounted inet_ntoa path rqstp ms counted,
      rw (remove_mount-remaining inet_ntoa path rqstp ms)
          (All-remaining IsMountbody _ ms.mount_list all),
    )

    pub Reachable-IsMounts : (ms : Mounts) → Reachable ms → IsMounts ms
    unfolding mountproc_umnt_3_svc mountproc_umntall_3_svc
    Reachable-IsMounts _ start = (refl, tt)
    Reachable-IsMounts _ (mnt ms dpath rqstp malloc result s fits before) =
        elim (mountproc_mnt_3_svc-add_mount inet_ntoa srv go_accept_mount dpath rqstp malloc result
          ms s) [
            | inl accepted ↦
                rw accepted.3
                  (add_mount-IsMounts dpath rqstp malloc ms fits (Reachable-IsMounts ms before))
            | inr rejected ↦ rw rejected.2 (Reachable-IsMounts ms before)
          ]
    Reachable-IsMounts _ (umnt ms argp rqstp before) =
        remove_mount-IsMounts argp rqstp ms (Reachable-IsMounts ms before)
    Reachable-IsMounts _ (umntall ms rqstp before) =
        remove_mount-IsMounts none rqstp ms (Reachable-IsMounts ms before)

    -- After any sequence of requests to mount and to unmount, the reply to DUMP is written, and a
    -- client that reads it gets the list of mounts, which has as many entries as are counted. The RPC
    -- library meets its contract, and `inet_ntoa` prints addresses that fit a name.
    pub Reachable-dump :
        (rpc : Rpc) (L : IsRpc rpc) (ms : Mounts)
        → Reachable ms
        → (let list = mountproc_dump_3_svc ms in
            (xdr_mountlist rpc ms.mount_cnt (encoding []) list
              ≡ some (encoding (wire_chain wire_mountbody list), list))
            × (xdr_mountlist rpc ms.mount_cnt (decoding (wire_chain wire_mountbody list ++ [])) []
                ≡ some (decoding [], list))
            × (length list ≡ ms.mount_cnt))
    unfolding mountproc_dump_3_svc
    Reachable-dump rpc L ms reached =
        let (counted, all) = Reachable-IsMounts ms reached in
        let c = xdr_mountlist-Codes rpc L ms.mount_cnt in
        let fits : IsChain IsMountbody ms.mount_cnt ms.mount_list = (all, omega (arith, counted)) in
        (
          c.encodes [] ms.mount_list fits,
          rw (c.decodes [] ms.mount_list [] fits) (rw (stored ms.mount_list) refl),
          omega (arith, counted),
        )
      where
        stored : (list : List Mountbody) → stored_chain zero_mountbody (λ x old. x) list [] ≡ list
        stored [] = refl
        stored (m ∷ list) = rw (stored list) refl
