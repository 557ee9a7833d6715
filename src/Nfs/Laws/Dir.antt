-- ===== src/Nfs/Laws/Dir.antt =====
-- What READDIR asks the Go side for, and how its size is counted.
use unfs2go.Common.{
  ℕ, ◌+◌, ◌-◌, ◌^◌, ◌≤◌, ◌<◌, ◌≡◌, ◌⊎◌, List, [], ◌∷◌, ◌++◌, arith, length, length-append,
  length-replicate,
}
use Prim.Native.Nat.{min}
use unfs2go.Types.DirRes.{Readdir3Res}
use unfs2go.Types.Constants.{bool_true, nfs3_ok, resok_size}
use unfs2go.Wire.Basic.{wire_opaque, wire_uint32}
use unfs2go.Wire.DirRes.{wire_readdir3res}
use unfs2go.Nfs.Readdir.{readdir_count}

verf_and_end-length :
    (verf word : List ℕ)
    → length verf ≡ 8
    → length (wire_opaque verf ++ (0 ∷ 0 ∷ 0 ∷ 0 ∷ word)) ≡ 12 + length word
verf_and_end-length verf word h =
    rw (length-append, length-append, length-replicate, h) (omega arith)

-- A reply of READDIR that succeeds, with the attributes of the directory and without entries, has
-- RESOK_SIZE bytes behind its status, if its verifier has eight bytes.
pub readdir-resok_size :
    (r : Readdir3Res)
    → r.status ≡ nfs3_ok
    → r.resok.dir_attributes.attributes_follow ≡ bool_true
    → length r.resok.cookieverf ≡ 8
    → r.resok.reply.entries ≡ []
    → length (wire_readdir3res r) ≡ 4 + resok_size
readdir-resok_size r ok follow verf nothing =
    rw (ok, follow, nothing)
      (omega (arith, verf_and_end-length r.resok.cookieverf (wire_uint32 r.resok.reply.eof) verf))

-- READDIR: a 32-bit count of at least RESOK_SIZE is cut to 4096, and the room for the entries is what
-- RESOK_SIZE leaves of it. A smaller count wraps, to at least 2 ^ 32 less RESOK_SIZE.
pub readdir_count-room :
    (count : ℕ)
    → count < 2 ^ 32
    → ((resok_size ≤ count) × (readdir_count count ≡ min 4096 count - resok_size))
      ⊎ ((count < resok_size) × (2 ^ 32 - resok_size ≤ readdir_count count))
unfolding readdir_count
readdir_count-room count fits = ground arith
