-- ===== src/Attributes/Laws.antt =====
-- The attributes of unfs3/attr.c against the types of the protocol.
use unfs2go.Common.{ℕ, ◌/◌, ◌^◌, ◌<◌, ◌≤◌, ◌≡◌, ◌↔◌, true, arith, inl, inr, Bool-cases, ◌==◌}
use unfs2go.Common.Bits.{bit_and-ones}
use unfs2go.Xdr.Stream.{CharPtr}
use unfs2go.Types.Stat.{GoStatstruct, s_isdir}
use unfs2go.Types.Names.{BoolT}
use unfs2go.Types.Constants.{nf3dir, nfs3_ok}
use unfs2go.Wire.Attr.{IsFattr3, IsPostOpAttr, IsPreOpAttr}
use unfs2go.Backend.{Server}
use unfs2go.Backend.Contract.{IsStat, IsServer}
use unfs2go.Attributes.{
  get_pre_buf, type_of_mode, adapt_mode, sign_extend, attributes_of, get_post_buf, get_post,
  get_pre,
}

-- The type is one of the seven of the protocol, and it is a directory exactly if the mode says so.
pub type_of_mode_range : (m : ℕ) → (1 ≤ type_of_mode m) × (type_of_mode m ≤ 7)
unfolding type_of_mode
type_of_mode_range m = ground arith

pub type_of_mode-dir_iff : (m : ℕ) → (type_of_mode m ≡ nf3dir) ↔ (s_isdir m ≡ true)
unfolding type_of_mode
type_of_mode-dir_iff m = (λ h. ground arith, λ h. ground arith)

sign_extend-lt : (n : ℕ) → n < 2 ^ 16 → sign_extend n < 2 ^ 32
unfolding sign_extend
sign_extend-lt n h = ground arith

-- The attributes of a file whose members fit their C types fit the types of the protocol.
pub attributes_of-IsFattr3 :
    (opt : BoolT) (buf : GoStatstruct) → IsStat buf → IsFattr3 (attributes_of opt buf)
unfolding attributes_of
attributes_of-IsFattr3 opt buf v = omega (
  arith,
  type_of_mode_range buf.st_mode,
  bit_and-ones 16 (adapt_mode opt buf.st_mode),
  sign_extend-lt buf.st_nlink v.nlink,
  bit_and-ones 8 (buf.st_rdev / 2 ^ 8),
  bit_and-ones 8 buf.st_rdev,
  bit_and-ones 32 buf.st_dev,
)

-- The attributes of a file whose members fit their C types fit the types of the protocol. The type is one of
-- its seven, and it is that of a directory exactly if the mode says so.
pub attributes_of-bounds :
    (opt : BoolT) (buf : GoStatstruct)
    → IsStat buf
    → IsFattr3 (attributes_of opt buf)
      × (1 ≤ (attributes_of opt buf).type)
      × ((attributes_of opt buf).type ≤ 7)
      × (((attributes_of opt buf).type ≡ nf3dir) ↔ (s_isdir buf.st_mode ≡ true))
unfolding attributes_of
attributes_of-bounds opt buf v =
    let (low, high) = type_of_mode_range buf.st_mode in
    (attributes_of-IsFattr3 opt buf v, low, high, type_of_mode-dir_iff buf.st_mode)

module _ (srv : Server) (lawful : IsServer srv) where
  open srv use {backend.{State, go_lstat}, stack}

  pub get_post_buf-IsPostOpAttr :
      (buf : GoStatstruct) → IsStat buf → IsPostOpAttr (get_post_buf srv buf)
  unfolding get_post_buf
  get_post_buf-IsPostOpAttr buf v = (omega arith, attributes_of-IsFattr3 _ buf v)

  pub get_pre_buf-IsPreOpAttr : (buf : GoStatstruct) → IsStat buf → IsPreOpAttr (get_pre_buf buf)
  unfolding get_pre_buf
  get_pre_buf-IsPreOpAttr buf v = omega arith

  pub get_post-IsPostOpAttr : (path : CharPtr) (s : State) → IsPostOpAttr (get_post srv path s).0
  unfolding get_post
  get_post-IsPostOpAttr path s = elim (Bool-cases ((go_lstat path stack.buf s).0 == nfs3_ok)) [
    | inl found ↦
        rw found (get_post_buf-IsPostOpAttr _ (lawful.lawful.lstat_buf path _ s lawful.stack_buf))
    | inr missing ↦ rw missing (omega arith)
  ]

  pub get_pre-IsPreOpAttr : (path : CharPtr) (s : State) → IsPreOpAttr (get_pre srv path s).0
  unfolding get_pre
  get_pre-IsPreOpAttr path s = elim (Bool-cases ((go_lstat path stack.buf s).0 == nfs3_ok)) [
    | inl found ↦ rw found (omega (arith, lawful.lawful.lstat_buf path _ s lawful.stack_buf))
    | inr missing ↦ rw missing (omega arith)
  ]
