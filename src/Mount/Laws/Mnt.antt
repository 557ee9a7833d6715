-- ===== src/Mount/Laws/Mnt.antt =====
-- What a request to mount is answered, and what it does to the list of mounts.
use unfs2go.Common.{
  ℕ, ◌+◌, ◌≤◌, ◌≡◌, refl, ◌≢◌, ◌⊎◌, List, [], ◌∷◌, ◌++◌, true, some, arith, length, inl, inr,
  Bool-cases, ◌==◌, ltb,
}
use unfs2go.Types.Stat.{s_isdir}
use unfs2go.Types.Constants.{nfs3_ok, nfs_maxpathlen}
use unfs2go.Backend.{Server}
use unfs2go.Request.{SvcReq, get_remote}
use unfs2go.Handle.{fh_comp, handle_of}
use unfs2go.Mount.Types.{Mountres3, mnt3_ok}
use unfs2go.Mount.Mounts.{Malloc, Mounts, add_mount}
use unfs2go.Mount.Procs.{mountproc_mnt_3_svc}

module _ (inet_ntoa : ℕ → List ℕ) (srv : Server)
    (go_accept_mount : ℕ → List ℕ → srv.backend.State → ℕ × srv.backend.State) where
  open srv use {backend.{State, go_lstat}, stack}

  -- The request is of version 3, for a directory that can be looked at and that fits NFS_MAXPATHLEN, and
  -- the Go side accepts it.
  abbrev pub IsMountable : List ℕ → SvcReq → State → Type 0
  IsMountable dpath rqstp s =
      let (status, stbuf, s₁) = go_lstat (some dpath) stack.buf s in
      (rqstp.rq_vers ≡ 3)
      × (status ≡ nfs3_ok)
      × (length dpath + 1 ≤ nfs_maxpathlen)
      × ((go_accept_mount rqstp.sin_addr dpath s₁).0 ≡ nfs3_ok)
      × (s_isdir stbuf.st_mode ≡ true)

  -- The mounts after an accepted request: with memory for all three allocations they are those before and
  -- one more, of the caller's address and the directory, and one more is counted; without, they are those
  -- before.
  abbrev pub IsAdded : List ℕ → SvcReq → Malloc → Mounts → Mounts → Type 0
  IsAdded dpath rqstp malloc ms ms' =
      ((malloc.body ≡ true)
        × (malloc.hostname ≡ true)
        × (malloc.directory ≡ true)
        × (ms'.mount_list
            ≡ ms.mount_list
              ++ (record {
                ml_hostname = some (inet_ntoa rqstp.sin_addr);
                ml_directory = some dpath;
              }
                  ∷ []))
        × (ms'.mount_cnt ≡ ms.mount_cnt + 1))
      ⊎ (((malloc.body ≡ true) × (malloc.hostname ≡ true) × (malloc.directory ≡ true) → ⊥)
          × (ms' ≡ ms))

  add_mount-IsAdded :
      (dpath : List ℕ) (rqstp : SvcReq) (malloc : Malloc) (ms : Mounts)
      → IsAdded dpath rqstp malloc ms (add_mount inet_ntoa dpath rqstp malloc ms)
  unfolding add_mount get_remote
  add_mount-IsAdded dpath rqstp malloc ms = elim (Bool-cases malloc.body) [
    | inr short ↦ rw short (inr (λ h. ground (arith, h.0), refl))
    | inl body ↦ elim (Bool-cases malloc.hostname) [
      | inr short ↦ rw (body, short) (inr (λ h. ground (arith, h.1), refl))
      | inl hostname ↦ elim (Bool-cases malloc.directory) [
        | inr short ↦ rw (body, hostname, short) (inr (λ h. ground (arith, h.2), refl))
        | inl directory ↦ rw (body, hostname, directory) (inl (refl, refl, refl, refl, refl))
      ]
    ]
  ]

  pub mountproc_mnt_3_svc-add_mount :
      (dpath : List ℕ) (rqstp : SvcReq) (malloc : Malloc) (result : Mountres3) (ms : Mounts)
      (s : State)
      → (let (r, ms', s') =
            mountproc_mnt_3_svc inet_ntoa srv go_accept_mount dpath rqstp malloc result ms s in
          let stbuf = (go_lstat (some dpath) stack.buf s).1 in
          (IsMountable dpath rqstp s
            × (r.fhs_status ≡ mnt3_ok)
            × (r.mountinfo.fhandle ≡ (handle_of srv (fh_comp stbuf.st_ino (some dpath))).data_buf)
            × (ms' ≡ add_mount inet_ntoa dpath rqstp malloc ms))
          ⊎ ((IsMountable dpath rqstp s → ⊥) × (r.fhs_status ≢ mnt3_ok) × (ms' ≡ ms)))
  unfolding mountproc_mnt_3_svc
  mountproc_mnt_3_svc-add_mount dpath rqstp malloc result ms s =
      let looked = go_lstat (some dpath) stack.buf s in
      elim (Bool-cases (rqstp.rq_vers == 3)) [
        | inr other ↦ rw other (inr (λ h. ground (arith, other, h.0), λ e. ground (arith, e), refl))
        | inl version ↦ elim (Bool-cases (looked.0 == nfs3_ok)) [
          | inr missing ↦
              rw (version, missing)
                (inr (λ h. ground (arith, missing, h.1), λ e. ground (arith, e), refl))
          | inl found ↦ elim (Bool-cases (ltb nfs_maxpathlen (length dpath + 1))) [
            | inl long ↦
                rw (version, found, long)
                  (inr (λ h. ground (arith, long, h.2), λ e. ground (arith, e), refl))
            | inr short ↦
                elim (Bool-cases ((go_accept_mount rqstp.sin_addr dpath looked.2).0 == nfs3_ok)) [
                  | inr denied ↦
                      rw (version, found, short, denied)
                        (inr (λ h. ground (arith, denied, h.3), λ e. ground (arith, e), refl))
                  | inl accepted ↦ elim (Bool-cases (s_isdir looked.1.st_mode)) [
                    | inr file ↦
                        rw (version, found, short, accepted, file)
                          (inr (λ h. ground (arith, file, h.4), λ e. ground (arith, e), refl))
                    | inl dir ↦
                        rw (version, found, short, accepted, dir)
                          (inl (
                            (
                              ground (arith, version),
                              ground (arith, found),
                              ground (arith, short),
                              ground (arith, accepted),
                              refl,
                            ),
                            refl,
                            refl,
                            refl,
                          ))
                  ]
                ]
          ]
        ]
      ]

  -- What MNT answers, and what the mounts are after it.
  abbrev pub IsMnt : List ℕ → SvcReq → Malloc → Mounts → State → Mountres3 → Mounts → Type 0
  IsMnt dpath rqstp malloc ms s r ms' =
      let stbuf = (go_lstat (some dpath) stack.buf s).1 in
      (IsMountable dpath rqstp s
        × (r.fhs_status ≡ mnt3_ok)
        × (r.mountinfo.fhandle ≡ (handle_of srv (fh_comp stbuf.st_ino (some dpath))).data_buf)
        × IsAdded dpath rqstp malloc ms ms')
      ⊎ ((IsMountable dpath rqstp s → ⊥) × (r.fhs_status ≢ mnt3_ok) × (ms' ≡ ms))

  -- MNT succeeds exactly if the request is mountable, and then returns the handle of the directory. If its
  -- three allocations succeed as well, the mount of the caller's address and the directory is put behind
  -- the others and counted; if one fails, MNT still reports success and records nothing. Where it does not
  -- succeed, the mounts are as they were.
  pub mountproc_mnt_3_svc-cases :
      (dpath : List ℕ) (rqstp : SvcReq) (malloc : Malloc) (result : Mountres3) (ms : Mounts)
      (s : State)
      → (let (r, ms', s') =
            mountproc_mnt_3_svc inet_ntoa srv go_accept_mount dpath rqstp malloc result ms s in
          IsMnt dpath rqstp malloc ms s r ms')
  mountproc_mnt_3_svc-cases dpath rqstp malloc result ms s =
      elim (mountproc_mnt_3_svc-add_mount dpath rqstp malloc result ms s) [
        | inl (mountable, ok, handle, added) ↦
            inl (mountable, ok, handle, rw added (add_mount-IsAdded dpath rqstp malloc ms))
        | inr rejected ↦ inr rejected
      ]
