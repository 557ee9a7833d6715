-- ===== src/Nfs/Laws/Outcome.antt =====
-- What WRITE and READDIR make of the signed results of the Go side.
use Prim.Native.Nat.{min}
use unfs2go.Common.{
  ℕ, ◌-◌, ◌^◌, ◌≤◌, ◌<◌, List, [], ◌∷◌, Option-cases, none, some, suc, ◌≡◌, refl, ◌≢◌, ◌⊎◌, inl,
  inr, ◌==◌, Bool-cases, arith,
}
use unfs2go.Common.Int.{ℤ, pos, negsuc}
use unfs2go.Types.Names.{BoolT}
use unfs2go.Types.Entries.{Entry3Item}
use unfs2go.Wire.Chain.{All}
use unfs2go.Wire.Basic.{IsName}
use unfs2go.Xdr.Stream.{CharPtr}
use unfs2go.Wire.Entries.{IsEntry3Item}
use unfs2go.Backend.Contract.{IsServer}
use unfs2go.Types.Args.{Write3Args}
use unfs2go.Types.DirArgs.{Readdir3Args}
use unfs2go.Types.FileRes.{Write3Res}
use unfs2go.Types.DirRes.{Readdir3Res}
use unfs2go.Types.Constants.{bool_true, bool_false, nfs3_ok, file_sync, resok_size}
use unfs2go.Backend.{Server}
use unfs2go.Request.{SvcReq}
use unfs2go.Handle.{fh_decomp}
use unfs2go.Nfs.Data.{write_reply, nfsproc3_write_3_svc}
use unfs2go.Nfs.Readdir.{readdir_count, readdir_status, first_entry, nfsproc3_readdir_3_svc}
use unfs2go.Nfs.Laws.Dir.{readdir_count-room}
use unfs2go.Nfs.Laws.Looked.{
  looked, IsBefore, IsAfter, get_pre-looked, get_post-looked, get_pre-IsBefore, get_post-IsAfter,
}

-- The signed result of a transfer: a count, or a negated error.
abbrev pub IsTransferred : ℤ → Write3Res → Type 0
IsTransferred (pos n) r =
    (r.status ≡ nfs3_ok) × (r.resok.count ≡ n) × (r.resok.committed ≡ file_sync)
IsTransferred (negsuc k) r = (r.status ≡ suc k) × (r.status ≢ nfs3_ok)

write_reply-IsTransferred :
    (res : ℤ) (result : Write3Res) → IsTransferred res (write_reply res result)
unfolding write_reply
write_reply-IsTransferred (pos n) result = (refl, refl, refl)
write_reply-IsTransferred (negsuc k) result = (refl, λ e. ground (arith, e))

IsTransferred-wcc :
    (res : ℤ) (r q : Write3Res)
    → r.status ≡ q.status
    → r.resok.count ≡ q.resok.count
    → r.resok.committed ≡ q.resok.committed
    → IsTransferred res r
    → IsTransferred res q
IsTransferred-wcc (pos n) r q a b c h = rw (← a, ← b, ← c) h
IsTransferred-wcc (negsuc k) r q a b c h = rw (← a) h

-- How READDIR reports the end of a directory: a negative result says that entries are left, 0 that there
-- are none, and a positive one is an error.
abbrev pub IsListed : ℤ → Readdir3Res → Type 0
IsListed (negsuc k) r = (r.status ≡ nfs3_ok) × (r.resok.reply.eof ≡ bool_false)
IsListed (pos res) r =
    ((res ≡ nfs3_ok) × (r.status ≡ nfs3_ok) × (r.resok.reply.eof ≡ bool_true))
    ⊎ ((res ≢ nfs3_ok) × (r.status ≡ res))

readdir_status-IsListed :
    (res : ℤ) (eof : BoolT) (r : Readdir3Res)
    → r.status ≡ (readdir_status res eof).0
    → r.resok.reply.eof ≡ (readdir_status res eof).1
    → IsListed res r
unfolding readdir_status
readdir_status-IsListed (negsuc k) eof r status end = (status, end)
readdir_status-IsListed (pos res) eof r status end = elim (Bool-cases (res == nfs3_ok)) [
  | inl good ↦ inl (ground (arith, good), ground (arith, good, status), ground (arith, good, end))
  | inr bad ↦ inr (λ e. ground (arith, e, bad), status)
]

readdir_count_at :
    (count : ℕ)
    → resok_size ≤ count
    → count < 2 ^ 32
    → readdir_count count ≡ min 4096 count - resok_size
readdir_count_at count room fits = elim (readdir_count-room count fits) [
  | inl (_, exact) ↦ exact
  | inr (short, _) ↦ absurd (omega (arith, room, short))
]

nameless : (name : CharPtr) → name ≡ none → IsName name → ⊥
nameless none e h = h
nameless (some name) e h = ground (arith, e)

-- Every entry has a name, so that the test of the first drops none.
first_entry_named :
    (entries : List Entry3Item) → All IsEntry3Item entries → first_entry entries ≡ entries
unfolding first_entry
first_entry_named [] h = refl
first_entry_named (e ∷ es) h = elim (Option-cases e.name) [
  | inl missing ↦ absurd (nameless e.name missing h.0.1.0)
  | inr (name, found) ↦ simp found refl
]

module _ (srv : Server) where
  open srv use {backend.{State, go_pwrite, go_readdir_full}, stack}

  -- WRITE looks at the file, calls `go_pwrite` with the bytes and the offset that it was sent, and looks
  -- again. The attributes before and after are those of the two looks, and do not follow where the look
  -- fails; the result is the count with FILE_SYNC, or the error.
  pub write-outcome :
      (argp : Write3Args) (rqstp : SvcReq) (result : Write3Res) (s : State)
      → (let path = fh_decomp srv argp.file s in
          let s₁ = looked srv path s in
          let (res, s₂) = go_pwrite path argp.data_buf argp.offset s₁ in
          let r = nfsproc3_write_3_svc srv argp rqstp result s in
          (r.1 ≡ looked srv path s₂)
          × IsBefore srv path s r.0.resok.file_wcc.before
          × IsAfter srv path s₂ r.0.resok.file_wcc.after
          × IsTransferred res r.0)
  unfolding nfsproc3_write_3_svc
  write-outcome argp rqstp result s =
      let path = fh_decomp srv argp.file s in
      let (res, s₂) = go_pwrite path argp.data_buf argp.offset (looked srv path s) in
      rw (get_pre-looked srv path s) (
        get_post-looked srv path s₂,
        get_pre-IsBefore srv path s,
        get_post-IsAfter srv path s₂,
        IsTransferred-wcc res (write_reply res result) _ refl refl refl
            (write_reply-IsTransferred res result),
      )

  -- READDIR, with a backend that meets its contract and a 32-bit count of at least RESOK_SIZE: it calls
  -- `go_readdir_full` with the cookie and the room that RESOK_SIZE leaves of the count cut to 4096, and
  -- looks at the directory. It reports all the entries of the call, in their order, and its result as the
  -- status and the end of the directory.
  pub readdir-outcome :
      (argp : Readdir3Args) (rqstp : SvcReq) (result : Readdir3Res) (s : State)
      → IsServer srv
      → resok_size ≤ argp.count
      → argp.count < 2 ^ 32
      → (let path = fh_decomp srv argp.dir s in
          let (res, entries, s') =
            go_readdir_full path argp.cookie (min 4096 argp.count - resok_size) s in
          let r = nfsproc3_readdir_3_svc srv argp rqstp result s in
          (r.1 ≡ looked srv path s') × (r.0.resok.reply.entries ≡ entries) × IsListed res r.0)
  unfolding nfsproc3_readdir_3_svc
  readdir-outcome argp rqstp result s server room fits =
      let path = fh_decomp srv argp.dir s in
      let (res, entries, s') =
        go_readdir_full path argp.cookie (min 4096 argp.count - resok_size) s in
      rw (readdir_count_at argp.count room fits) (
        get_post-looked srv path s',
        first_entry_named entries (server.lawful.readdir_entries path argp.cookie _ s).0,
        readdir_status-IsListed res stack.eof _ refl refl,
      )
