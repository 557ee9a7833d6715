-- ===== src/Nfs/Laws/Transfer.antt =====
-- What READ transfers, against the content of a file.
use unfs2go.Common.{
  ℕ, zero, suc, ap, ◌∙◌, ◌+◌, ◌-◌, ◌≤◌, ◌≡◌, refl, sym, ◌↔◌, List, [], ◌∷◌, arith, leb, ◌==◌,
  if◌then◌else◌, length, take, drop, length-drop,
}
use Prim.Native.Nat.{min}
use unfs2go.Common.Int.{ℤ, pos, negsuc}
use unfs2go.Xdr.Stream.{CharPtr}
use unfs2go.Types.Args.{Read3Args}
use unfs2go.Types.FileRes.{Read3Res}
use unfs2go.Types.Constants.{bool_true, bool_false, nfs3_ok, nfs_maxdata_tcp}
use unfs2go.Backend.{Server}
use unfs2go.Backend.Contract.{IsServer}
use unfs2go.Attributes.{get_post, get_post_buf}
use unfs2go.Request.{SvcReq, maxdata}
use unfs2go.Handle.{fh_decomp}
use unfs2go.Nfs.Data.{clipped, read_reply, nfsproc3_read_3_svc}

clipped-le : (rqstp : SvcReq) (count : ℕ) → clipped rqstp count ≤ nfs_maxdata_tcp
unfolding clipped maxdata
clipped-le rqstp count = ground arith

clipped-min : (rqstp : SvcReq) (count : ℕ) → clipped rqstp count ≡ min count (maxdata rqstp)
unfolding clipped
clipped-min rqstp count = ground arith

module _ {A : Type 0} where
  take-take : (m n : ℕ) (xs : List A) → m ≤ n → take m (take n xs) ≡ take m xs
  take-take zero n xs h = refl
  take-take (suc m) zero xs h = absurd (omega (arith, h))
  take-take (suc m) (suc n) [] h = refl
  take-take (suc m) (suc n) (x ∷ xs) h = ap (λ t. x ∷ t) (take-take m n xs (omega arith))

  pub take-enough : (m n : ℕ) (xs : List A) → m ≡ min n (length xs) → take m xs ≡ take n xs
  take-enough zero zero xs h = refl
  take-enough zero (suc n) [] h = refl
  take-enough zero (suc n) (x ∷ xs) h = absurd (omega (arith, h))
  take-enough (suc m) zero xs h = absurd (omega (arith, h))
  take-enough (suc m) (suc n) [] h = refl
  take-enough (suc m) (suc n) (x ∷ xs) h = ap (λ t. x ∷ t) (take-enough m n xs (omega arith))

  -- A prefix of a prefix that two lists share.
  take-shared :
      (m k n : ℕ) (buf xs : List A)
      → take k buf ≡ take n xs
      → m ≤ k
      → m ≤ n
      → take m buf ≡ take m xs
  take-shared m k n buf xs same below h =
      sym (take-take m k buf below) ∙ ap (take m) same ∙ take-take m n xs h

read_reply-count :
    (n res m : ℕ) (buf : List ℕ) (result : Read3Res)
    → res ≡ min (n + 1) m
    → (read_reply n (pos res) buf result).resok.count ≡ min n m
unfolding read_reply
read_reply-count n res m buf result counted = ground arith

-- READ asks for one byte more than it sends, to learn whether the file ends.
read_reply-slice :
    (n res : ℕ) (buf xs : List ℕ) (result : Read3Res)
    → res ≡ min (n + 1) (length xs)
    → take res buf ≡ take (n + 1) xs
    → (let r = read_reply n (pos res) buf result in
        (r.status ≡ nfs3_ok)
        × (r.resok.data_buf.data_val ≡ take n xs)
        × (r.resok.data_buf.data_len ≡ min n (length xs))
        × (r.resok.count ≡ min n (length xs))
        × ((r.resok.eof ≡ bool_true) ↔ (length xs ≤ n)))
unfolding read_reply
read_reply-slice n res buf xs result counted copied =
    let n' = min n (length xs) in
    let count = read_reply-count n res (length xs) buf result counted in
    let value =
      take-shared n' res (n + 1) buf xs copied (omega arith) (omega arith)
      ∙ take-enough n' n xs refl in
    (refl, ap (λ t. take t buf) count ∙ value, count, count, (λ h. ground arith, λ h. ground arith))

read_reply-fresh :
    (count : ℕ) (res : ℤ) (buf stale : List ℕ) (result : Read3Res)
    → ((n : ℕ) → res ≡ pos n → take n stale ≡ take n buf)
    → read_reply count res stale result ≡ read_reply count res buf result
unfolding read_reply
read_reply-fresh count (pos n) buf stale result same =
    let eof = if leb n count then bool_true else bool_false in
    let m = if eof == bool_false then n - 1 else n in
    let below : m ≤ n = ground arith in
    rw (take-shared m n n stale buf (same n refl) below below) refl
read_reply-fresh count (negsuc k) buf stale result same = refl

module _ (srv : Server) where
  open srv use {backend.{State, go_pread}, stack}

  -- At a path the backend keeps a file: a transfer of at most what READ's buffer holds copies to the buffer what there is of the bytes that
  -- are asked for, and reports how many these are.
  pub record KeepsFile (path : CharPtr) (content : List ℕ) (s : State) : Type 0 where
    pub counted :
        (buf : List ℕ) (n offset : ℕ)
        → n ≤ nfs_maxdata_tcp + 1
        → (go_pread path buf n offset s).0 ≡ pos (min n (length content - offset))
    pub copied :
        (buf : List ℕ) (n offset : ℕ)
        → n ≤ nfs_maxdata_tcp + 1
        → take (min n (length content - offset)) (go_pread path buf n offset s).1
          ≡ take n (drop offset content)

  -- READ of a file that the backend keeps succeeds. With n the smaller of the requested count and the
  -- limit of the transport, it sends the first n bytes of the content from the offset on, or what
  -- there is of them, counts them, and reports the end of the file exactly if the content ends within
  -- them.
  pub nfsproc3_read_3_svc-slice :
      (argp : Read3Args) (rqstp : SvcReq) (result : Read3Res) (s : State) (content : List ℕ)
      → KeepsFile (fh_decomp srv argp.file s) content s
      → (let r = (nfsproc3_read_3_svc srv argp rqstp result s).0 in
          let n = min argp.count (maxdata rqstp) in
          (r.status ≡ nfs3_ok)
          × (r.resok.data_buf.data_val ≡ take n (drop argp.offset content))
          × (r.resok.data_buf.data_len ≡ min n (length content - argp.offset))
          × (r.resok.count ≡ min n (length content - argp.offset))
          × ((r.resok.eof ≡ bool_true) ↔ (length content ≤ argp.offset + n)))
  unfolding nfsproc3_read_3_svc read_reply
  nfsproc3_read_3_svc-slice argp rqstp result s content keeps =
      let n = clipped rqstp argp.count in
      let room : n + 1 ≤ nfs_maxdata_tcp + 1 = omega (arith, clipped-le rqstp argp.count) in
      let xs = drop argp.offset content in
      let got = go_pread (fh_decomp srv argp.file s) stack.read_buf (n + 1) argp.offset s in
      let size = length-drop argp.offset content in
      let sent =
        read_reply-slice n (min (n + 1) (length xs)) got.1 xs result refl
          (rw size (keeps.copied stack.read_buf (n + 1) argp.offset room)) in
      rw
        (
          keeps.counted stack.read_buf (n + 1) argp.offset room,
          ← clipped-min rqstp argp.count,
          ← size,
        )
        (
          sent.0,
          sent.1,
          sent.2,
          sent.3,
          (λ h. omega (arith, size, sent.4.0 h), λ h. sent.4.1 (omega (arith, size, h))),
        )

  -- With a backend that meets its contract, the result of READ and the state after it do not depend on
  -- what earlier calls have left in its static buffer.
  pub nfsproc3_read_3_svc-stale :
      (lawful : IsServer srv) (stale : List ℕ) (argp : Read3Args) (rqstp : SvcReq)
      (result : Read3Res) (s : State)
      → nfsproc3_read_3_svc
          (record srv { stack = record srv.stack { read_buf = stale } })
          argp
          rqstp
          result
          s
        ≡ nfsproc3_read_3_svc srv argp rqstp result s
  unfolding nfsproc3_read_3_svc get_post get_post_buf fh_decomp
  nfsproc3_read_3_svc-stale lawful stale argp rqstp result s =
      let path = fh_decomp srv argp.file s in
      let n = clipped rqstp argp.count in
      let got = go_pread path stack.read_buf (n + 1) argp.offset s in
      let old = go_pread path stale (n + 1) argp.offset s in
      let (count, state, bytes) =
        lawful.lawful.pread_fresh path stack.read_buf stale (n + 1) argp.offset s in
      rw (count, state, read_reply-fresh n got.0 got.1 old.1 result bytes) refl
