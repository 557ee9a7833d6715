-- ===== src/Nfs/Laws/Looked.antt =====
-- unfs3/attr.c: the state in which a look at a file for its attributes leaves the Go side.
use unfs2go.Common.{◌≡◌, ◌⊎◌, ◌≢◌, refl, ◌==◌, arith, inl, inr, Bool-cases}
use unfs2go.Xdr.Stream.{CharPtr}
use unfs2go.Types.Attr.{PreOpAttr, PostOpAttr}
use unfs2go.Types.Constants.{bool_true, bool_false, nfs3_ok}
use unfs2go.Backend.{Server}
use unfs2go.Attributes.{attributes_of, time_of, get_pre, get_post, get_post_buf}

module _ (srv : Server) where
  open srv use {backend.{State, go_lstat}, stack, opt_readable_executables}

  -- The state after one `go_lstat` of a path, whatever it answers.
  abbrev pub looked : CharPtr → State → State
  looked path s = (go_lstat path stack.buf s).2

  pub get_post-looked : (path : CharPtr) (s : State) → (get_post srv path s).1 ≡ looked path s
  unfolding get_post
  get_post-looked path s = elim (Bool-cases ((go_lstat path stack.buf s).0 == nfs3_ok)) [
    | inl found ↦ rw found refl
    | inr missing ↦ rw missing refl
  ]

  pub get_pre-looked : (path : CharPtr) (s : State) → (get_pre srv path s).1 ≡ looked path s
  unfolding get_pre
  get_pre-looked path s = elim (Bool-cases ((go_lstat path stack.buf s).0 == nfs3_ok)) [
    | inl found ↦ rw found refl
    | inr missing ↦ rw missing refl
  ]

  -- Attributes follow exactly if `go_lstat` succeeds, and are then those of its struct.
  abbrev pub IsAfter : CharPtr → State → PostOpAttr → Type 0
  IsAfter path s post =
      let (status, buf, _) = go_lstat path stack.buf s in
      ((status ≡ nfs3_ok)
        × (post.attributes_follow ≡ bool_true)
        × (post.attributes ≡ attributes_of opt_readable_executables buf))
      ⊎ ((status ≢ nfs3_ok) × (post.attributes_follow ≡ bool_false))

  -- The same of the size and the times before an operation.
  abbrev pub IsBefore : CharPtr → State → PreOpAttr → Type 0
  IsBefore path s pre =
      let (status, buf, _) = go_lstat path stack.buf s in
      ((status ≡ nfs3_ok)
        × (pre.attributes_follow ≡ bool_true)
        × (pre.attributes.size ≡ buf.st_size)
        × (pre.attributes.mtime ≡ time_of buf.st_mtime)
        × (pre.attributes.ctime ≡ time_of buf.st_ctime))
      ⊎ ((status ≢ nfs3_ok) × (pre.attributes_follow ≡ bool_false))

  pub get_post-IsAfter : (path : CharPtr) (s : State) → IsAfter path s (get_post srv path s).0
  unfolding get_post get_post_buf
  get_post-IsAfter path s = elim (Bool-cases ((go_lstat path stack.buf s).0 == nfs3_ok)) [
    | inl found ↦ inl (ground (arith, found), rw found refl, rw found refl)
    | inr missing ↦ inr (λ e. ground (arith, e, missing), rw missing refl)
  ]

  pub get_pre-IsBefore : (path : CharPtr) (s : State) → IsBefore path s (get_pre srv path s).0
  unfolding get_pre
  get_pre-IsBefore path s = elim (Bool-cases ((go_lstat path stack.buf s).0 == nfs3_ok)) [
    | inl found ↦
        inl (ground (arith, found), rw found refl, rw found refl, rw found refl, rw found refl)
    | inr missing ↦ inr (λ e. ground (arith, e, missing), rw missing refl)
  ]
