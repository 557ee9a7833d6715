-- ===== src/Mount/Laws/Without.antt =====
-- unfs3/mount.c: which mounts the test of `remove_mount` picks, and a list without them.
use unfs2go.Common.{
  ℕ, ◌≡◌, refl, ap, sym, subst, ◌↔◌, List, [], ◌∷◌, true, none, some, arith, inl, inr, Bool-cases,
}
use unfs2go.Xdr.Stream.{CharPtr}
use unfs2go.Mount.Types.{Mountbody}
use unfs2go.Mount.Mounts.{strcmp_eq, matches, is_mount_of}
use unfs2go.Mount.Laws.Mounts.{remaining, strcmp_eq_self}

-- The mount is of the host, and at the path if one is given.
abbrev pub IsMountOf : List ℕ → CharPtr → Mountbody → Type 0
IsMountOf host none m = m.ml_hostname ≡ some host
IsMountOf host (some path) m = (m.ml_hostname ≡ some host) × (m.ml_directory ≡ some path)

-- The second list is the first without the items of a kind, in the same order.
pub data Without {A : Type 0} (Picked : A → Type 0) : List A → List A → Type 0 where
  nil : Without Picked [] []
  leave : (x : A) (xs ys : List A) → Picked x → Without Picked xs ys → Without Picked (x ∷ xs) ys
  keep :
      (x : A) (xs ys : List A)
      → (Picked x → ⊥)
      → Without Picked xs ys
      → Without Picked (x ∷ xs) (x ∷ ys)

strcmp_eq_sound : (s t : List ℕ) → strcmp_eq s t ≡ true → s ≡ t
unfolding strcmp_eq
strcmp_eq_sound [] [] h = refl
strcmp_eq_sound [] (d ∷ t) h = absurd (ground (arith, h))
strcmp_eq_sound (c ∷ s) [] h = absurd (ground (arith, h))
strcmp_eq_sound (c ∷ s) (d ∷ t) h =
    rw (strcmp_eq_sound s t (ground (arith, h))) (ap (λ x. x ∷ t) (ground (arith, h)))

matches_iff : (s : CharPtr) (t : List ℕ) → (matches s t ≡ true) ↔ (s ≡ some t)
unfolding matches
matches_iff none t = (λ h. absurd (ground (arith, h)), λ h. absurd (ground (arith, h)))
matches_iff (some s) t = (
  λ h. ap some (strcmp_eq_sound s t h),
  λ h. subst (λ x. matches x t ≡ true) (sym h) (strcmp_eq_self t),
)

pub is_mount_of_iff :
    (host : List ℕ) (path : CharPtr) (m : Mountbody)
    → (is_mount_of host path m ≡ true) ↔ IsMountOf host path m
unfolding is_mount_of
is_mount_of_iff host none m = matches_iff m.ml_hostname host
is_mount_of_iff host (some path) m =
    let host_iff = matches_iff m.ml_hostname host in
    let path_iff = matches_iff m.ml_directory path in
    (
      λ h. (host_iff.0 (ground (arith, h)), path_iff.0 (ground (arith, h))),
      λ h. ground (arith, host_iff.1 h.0, path_iff.1 h.1),
    )

pub remaining-Without :
    (host : List ℕ) (path : CharPtr) (ms : List Mountbody)
    → Without (IsMountOf host path) ms (remaining (is_mount_of host path) ms)
remaining-Without host path [] = Without.nil
remaining-Without host path (m ∷ ms) = elim (Bool-cases (is_mount_of host path m)) [
  | inl found ↦ rw found (
      Without.leave m ms _ ((is_mount_of_iff host path m).0 found) (remaining-Without host path ms))
  | inr other ↦ rw other (
      Without.keep m ms _ (λ h. ground (arith, (is_mount_of_iff host path m).1 h, other))
        (remaining-Without host path ms))
]
