-- ===== src/Nfs/Laws/Name.antt =====
-- What `cat_name` accepts, and what it writes.
use unfs2go.Common.{
  ℕ, ◌+◌, ◌≤◌, ◌≡◌, refl, ◌≢◌, ◌↔◌, List, [], ◌∷◌, ◌++◌, false, none, some, ◌==◌, arith, length,
  length-append, inl, inr, Bool-cases, ◌⊎◌,
}
use unfs2go.Xdr.Stream.{CharPtr}
use unfs2go.Types.Constants.{nfs3_ok, nfs_maxpathlen}
use unfs2go.Wire.Chain.{All}
use unfs2go.Nfs.Name.{strchr, is_empty, join_name, cat_name}

-- A single component of a path.
abbrev pub IsComponent : List ℕ → Type 0
IsComponent name = (name ≢ []) × All (λ c. c ≢ b'/') name

strchr-All : (c : ℕ) (s : List ℕ) → strchr c s ≡ false → All (λ x. x ≢ c) s
unfolding strchr
strchr-All c [] h = tt
strchr-All c (x ∷ s) h = elim (Bool-cases (x == c)) [
  | inl same ↦ absurd (ground (arith, h, same))
  | inr other ↦ (λ e. ground (arith, e, other), strchr-All c s (ground (arith, h, other)))
]

All-strchr : (c : ℕ) (s : List ℕ) → All (λ x. x ≢ c) s → strchr c s ≡ false
unfolding strchr
All-strchr c [] h = refl
All-strchr c (x ∷ s) (first, others) = ground (arith, first, All-strchr c s others)

is_empty_iff : (s : List ℕ) → (is_empty s ≡ false) ↔ (s ≢ [])
unfolding is_empty
is_empty_iff [] = (λ h. absurd (ground (arith, h)), λ h. absurd (h refl))
is_empty_iff (x ∷ s) = (λ h e. ground (arith, e), λ h. refl)

pub join_name-ok_iff :
    (path name result : List ℕ)
    → ((join_name path name result).0 ≡ nfs3_ok)
      ↔ (IsComponent name × (length path + length name + 2 ≤ nfs_maxpathlen))
unfolding join_name
join_name-ok_iff path name result = (
  λ h. (
    ((is_empty_iff name).0 (ground (arith, h)), strchr-All b'/' name (ground (arith, h))),
    ground (arith, h),
  ),
  λ h. ground (arith, h.1, (is_empty_iff name).1 h.0.0, All-strchr b'/' name h.0.1),
)

-- There is a path, there is a name, the name is a single component, and both fit NFS_MAXPATHLEN with the
-- slash between them and the byte behind them.
abbrev pub IsAccepted : CharPtr → CharPtr → Type 0
IsAccepted none name = ⊥
IsAccepted (some path) none = ⊥
IsAccepted (some path) (some name) =
    IsComponent name × (length path + length name + 2 ≤ nfs_maxpathlen)

-- `cat_name` succeeds exactly if there is a path, there is a name, the name is a single component, and
-- both fit NFS_MAXPATHLEN with the slash and the final byte.
pub cat_name-ok_iff :
    (path name : CharPtr) (result : List ℕ)
    → ((cat_name path name result).0 ≡ nfs3_ok) ↔ IsAccepted path name
unfolding cat_name
cat_name-ok_iff none name result = (λ h. ground (arith, h), λ h. absurd h)
cat_name-ok_iff (some path) none result = (λ h. ground (arith, h), λ h. absurd h)
cat_name-ok_iff (some path) (some name) result = join_name-ok_iff path name result

-- On success the buffer of NFS_MAXPATHLEN bytes holds the directory, or the directory, a slash and
-- the name, and one byte is left to end it. Otherwise nothing is written.
pub cat_name-written :
    (path name result : List ℕ)
    → (let (status, written) = cat_name (some path) (some name) result in
        ((status ≡ nfs3_ok)
          × ((written ≡ path) ⊎ (written ≡ path ++ (b'/' ∷ name)))
          × (length written + 1 ≤ nfs_maxpathlen))
        ⊎ ((status ≢ nfs3_ok) × (written ≡ result)))
unfolding cat_name join_name
cat_name-written path name result = ground (arith, length-append path (b'/' ∷ name))

pub cat_name-untouched :
    (path name : CharPtr) (result : List ℕ)
    → (cat_name path name result).0 ≢ nfs3_ok
    → (cat_name path name result).1 ≡ result
unfolding cat_name join_name
cat_name-untouched none name result bad = refl
cat_name-untouched (some path) none result bad = refl
cat_name-untouched (some path) (some name) result bad = ground (arith, bad)
