-- ===== src/Mount/Laws/Mounts.antt =====
-- The list of mounts of unfs3/mount.c against a filter, and the number of mounts against its length.
use unfs2go.Common.{
  ℕ, ◌+◌, ◌-◌, ◌≤◌, ◌≡◌, refl, ap, ◌⊎◌, List, [], ◌∷◌, ◌++◌, Bool, true, some, if◌then◌else◌, arith,
  length, length-append, append-nil, inl, inr, Bool-cases, ltb,
}
use unfs2go.Xdr.Stream.{CharPtr}
use unfs2go.Request.{SvcReq, get_remote}
use unfs2go.Mount.Types.{Mountbody}
use unfs2go.Mount.Mounts.{
  Malloc, Mounts, strcmp_eq, is_mount_of, add_mount, remove_from, remove_mount,
}

-- The items that a test does not pick, in their order.
abbrev pub remaining : (Mountbody → Bool) → List Mountbody → List Mountbody
remaining picked [] = []
remaining picked (m ∷ ms) = if picked m then remaining picked ms else m ∷ remaining picked ms

remaining-append :
    (picked : Mountbody → Bool) (xs ys : List Mountbody)
    → remaining picked (xs ++ ys) ≡ remaining picked xs ++ remaining picked ys
remaining-append picked [] ys = refl
remaining-append picked (x ∷ xs) ys = elim (Bool-cases (picked x)) [
  | inl found ↦ rw found (remaining-append picked xs ys)
  | inr other ↦ rw other (ap (λ t. x ∷ t) (remaining-append picked xs ys))
]

pub strcmp_eq_self : (s : List ℕ) → strcmp_eq s s ≡ true
unfolding strcmp_eq
strcmp_eq_self [] = refl
strcmp_eq_self (c ∷ s) = ground (arith, strcmp_eq_self s)

module _ (inet_ntoa : ℕ → List ℕ) where
  remove_from-remaining :
      (host : List ℕ) (path : CharPtr) (list : List Mountbody) (cnt : ℕ)
      → (remove_from inet_ntoa host path list cnt).0 ≡ remaining (is_mount_of host path) list
  unfolding remove_from
  remove_from-remaining host path [] cnt = refl
  remove_from-remaining host path (m ∷ ms) cnt = elim (Bool-cases (is_mount_of host path m)) [
    | inl found ↦ rw (remove_from, found) (remove_from-remaining host path ms _)
    | inr other ↦ rw (remove_from, other) (ap (λ t. m ∷ t) (remove_from-remaining host path ms cnt))
  ]

  remove_from-count :
      (host : List ℕ) (path : CharPtr) (list : List Mountbody) (cnt : ℕ)
      → length list ≤ cnt
      → (remove_from inet_ntoa host path list cnt).1 + length list
        ≡ cnt + length (remove_from inet_ntoa host path list cnt).0
  unfolding remove_from
  remove_from-count host path [] cnt h = omega arith
  remove_from-count host path (m ∷ ms) cnt h = elim (Bool-cases (is_mount_of host path m)) [
    | inl found ↦
        let fewer : (if ltb 0 cnt then cnt - 1 else cnt) ≡ cnt - 1 = ground arith in
        rw (remove_from, found)
          (omega (
            arith,
            h,
            fewer,
            remove_from-count host path ms (if ltb 0 cnt then cnt - 1 else cnt)
                (omega (arith, h, fewer)),
          ))
    | inr other ↦
        rw (remove_from, other) (omega (arith, h, remove_from-count host path ms cnt (omega arith)))
  ]

  -- The list after `remove_mount` is that before it without the mounts of the caller, at the path if one
  -- is given; the other mounts keep their order.
  pub remove_mount-remaining :
      (path : CharPtr) (rqstp : SvcReq) (ms : Mounts)
      → (remove_mount inet_ntoa path rqstp ms).mount_list
        ≡ remaining (is_mount_of (inet_ntoa (get_remote rqstp)) path) ms.mount_list
  unfolding remove_mount
  remove_mount-remaining path rqstp ms = remove_from-remaining _ path ms.mount_list ms.mount_cnt

  -- The number of mounts is the length of the list.
  abbrev pub IsCounted : Mounts → Type 0
  IsCounted ms = ms.mount_cnt ≡ length ms.mount_list

  -- The entry that `add_mount` makes.
  abbrev pub new_mount : List ℕ → SvcReq → Mountbody
  new_mount path rqstp = record {
    ml_hostname = some (inet_ntoa (get_remote rqstp));
    ml_directory = some path;
  }

  pub add_mount-cases :
      (path : List ℕ) (rqstp : SvcReq) (malloc : Malloc) (ms : Mounts)
      → (add_mount inet_ntoa path rqstp malloc ms ≡ ms)
        ⊎ (add_mount inet_ntoa path rqstp malloc ms ≡ record {
          mount_list = ms.mount_list ++ (new_mount path rqstp ∷ []);
          mount_cnt = ms.mount_cnt + 1;
        })
  unfolding add_mount
  add_mount-cases path rqstp malloc ms = elim (Bool-cases malloc.body) [
    | inr short ↦ rw short (inl refl)
    | inl body ↦ elim (Bool-cases malloc.hostname) [
      | inr short ↦ rw (body, short) (inl refl)
      | inl hostname ↦ elim (Bool-cases malloc.directory) [
        | inr short ↦ rw (body, hostname, short) (inl refl)
        | inl directory ↦ rw (body, hostname, directory) (inr refl)
      ]
    ]
  ]

  pub add_mount-IsCounted :
      (path : List ℕ) (rqstp : SvcReq) (malloc : Malloc) (ms : Mounts)
      → IsCounted ms
      → IsCounted (add_mount inet_ntoa path rqstp malloc ms)
  add_mount-IsCounted path rqstp malloc ms h = elim (add_mount-cases path rqstp malloc ms) [
    | inl short ↦ rw short h
    | inr added ↦
        rw added (omega (arith, h, length-append ms.mount_list (new_mount path rqstp ∷ [])))
  ]

  pub remove_mount-IsCounted :
      (path : CharPtr) (rqstp : SvcReq) (ms : Mounts)
      → IsCounted ms
      → IsCounted (remove_mount inet_ntoa path rqstp ms)
  unfolding remove_mount
  remove_mount-IsCounted path rqstp ms h = omega (
    arith,
    h,
    remove_from-count (inet_ntoa (get_remote rqstp)) path ms.mount_list ms.mount_cnt
        (omega (arith, h)),
  )

  own_mount :
      (path : List ℕ) (rqstp : SvcReq)
      → is_mount_of (inet_ntoa (get_remote rqstp)) (some path) (new_mount path rqstp) ≡ true
  unfolding is_mount_of
  own_mount path rqstp = rw (strcmp_eq_self, strcmp_eq_self) refl

  -- A mount followed by an unmount of the same path from the same host leaves what the unmount alone
  -- leaves, whether or not there was memory for the mount.
  pub remove_mount-add_mount :
      (path : List ℕ) (rqstp : SvcReq) (malloc : Malloc) (ms : Mounts)
      → (remove_mount inet_ntoa
          (some path)
          rqstp
          (add_mount inet_ntoa path rqstp malloc ms)).mount_list
        ≡ (remove_mount inet_ntoa (some path) rqstp ms).mount_list
  remove_mount-add_mount path rqstp malloc ms = elim (add_mount-cases path rqstp malloc ms) [
    | inl short ↦ rw short refl
    | inr added ↦
        rw
          (
            remove_mount-remaining,
            remove_mount-remaining,
            added,
            remaining-append,
            own_mount path rqstp,
            append-nil,
          )
          refl
  ]
