-- ===== src/Handle/Laws.antt =====
-- File handles of unfs3/fh.c, resolved and tested.
use unfs2go.Common.{ℕ, ◌+◌, get_or, ◌^◌, ◌<◌, ◌≡◌, ◌↔◌, List, [], ◌∷◌, ◌++◌, true, arith}
use unfs2go.Common.Int.{pos}
use unfs2go.Xdr.Stream.{CharPtr}
use unfs2go.Types.Attr.{NfsFh3}
use unfs2go.Wire.Basic.{IsU64}
use unfs2go.Wire.Attr.{IsNfsFh3}
use unfs2go.Backend.{Server}
use unfs2go.Handle.{Unfs3FhT, load, bytes_of, fh_length, nfh_valid, fh_comp, fh_decomp, handle_of}

-- The bytes of a `unfs3_fh_t` give it back, whatever lies behind them.
pub load-bytes_of : (fh : Unfs3FhT) (rest : List ℕ) → IsU64 fh.ino → load (bytes_of fh ++ rest) ≡ fh
unfolding load bytes_of
load-bytes_of fh rest h = ground arith

-- A handle is valid exactly if its length is nine bytes more than its byte at offset 8, a byte, asks for.
pub nfh_valid_iff :
    (fh : NfsFh3)
    → get_or fh.data_buf.data_val 8 0 < 2 ^ 8
    → (nfh_valid fh ≡ true) ↔ (fh.data_buf.data_len ≡ get_or fh.data_buf.data_val 8 0 + 9)
unfolding nfh_valid fh_length load
nfh_valid_iff fh byte = (λ h. ground (arith, h, byte), λ h. ground (arith, h, byte))

module _ (srv : Server) where
  open srv use {backend.{State, go_fgetpath}, stack}

  -- A handle that the server made for an inode number below 2 ^ 31 resolves as the path
  -- that the Go side keeps for that number.
  pub fh_decomp-handle_of :
      (ino : ℕ) (path : CharPtr) (s : State)
      → ino < 2 ^ 31
      → fh_decomp srv (handle_of srv (fh_comp ino path)) s ≡ go_fgetpath (pos ino) s
  unfolding fh_decomp handle_of fh_comp
  fh_decomp-handle_of ino path s h =
      ground (arith, load-bytes_of (fh_comp ino path) (stack.beyond ∷ []) (omega arith))

  pub handle_of-IsNfsFh3 : (ino : ℕ) (path : CharPtr) → IsNfsFh3 (handle_of srv (fh_comp ino path))
  unfolding handle_of fh_comp
  handle_of-IsNfsFh3 ino path = omega arith
