-- ===== src/Mount/Mounts.antt =====
-- unfs3/mount.c: the list of mounts and the number of them.
use unfs2go.Common.{
  ℕ, ◌+◌, ◌-◌, List, [], ◌∷◌, ◌++◌, Bool, true, false, ◌&&◌, ltb, ◌==◌, if◌then◌else◌, none, some,
}
use unfs2go.Xdr.Stream.{CharPtr}
use unfs2go.Request.{SvcReq, get_remote}
use unfs2go.Mount.Types.{Mountbody}

-- `mount_list` and `mount_cnt`.
pub record Mounts : Type 0 where
  pub mount_list : List Mountbody
  pub mount_cnt : ℕ

-- Whether each of the three allocations of `add_mount` succeeds.
pub record Malloc : Type 0 where
  pub body : Bool
  pub hostname : Bool
  pub directory : Bool

-- `strcmp(s, t) == 0`
unfoldable pub strcmp_eq : List ℕ → List ℕ → Bool
strcmp_eq [] [] = true
strcmp_eq [] (d ∷ t) = false
strcmp_eq (c ∷ s) [] = false
strcmp_eq (c ∷ s) (d ∷ t) = c == d && strcmp_eq s t

-- The comparison of a string of the list, which is not NULL.
unfoldable pub matches : CharPtr → List ℕ → Bool
unfolding strcmp_eq
matches none t = false
matches (some s) t = strcmp_eq s t

-- The test of `remove_mount`, for the host and a path that may be NULL.
unfoldable pub is_mount_of : List ℕ → CharPtr → Mountbody → Bool
unfolding matches
is_mount_of host none m = matches m.ml_hostname host
is_mount_of host (some path) m = matches m.ml_hostname host && matches m.ml_directory path

-- `inet_ntoa`
module _ (inet_ntoa : ℕ → List ℕ) where
  unfoldable pub add_mount : List ℕ → SvcReq → Malloc → Mounts → Mounts
  unfolding get_remote
  add_mount path rqstp malloc ms =
      if malloc.body
      then if malloc.hostname
        then if malloc.directory
          then record {
            mount_list =
                ms.mount_list
                ++ (record {
                  ml_hostname = some (inet_ntoa (get_remote rqstp));
                  ml_directory = some path;
                }
                    ∷ []);
            mount_cnt = ms.mount_cnt + 1;
          }
          else ms
        else ms
      else ms

  -- What the loop of `remove_mount` makes of the list from `iter` on, and of the number: the loop itself,
  -- over the nodes in memory, is that of Mount/Loop.
  unfoldable pub remove_from : List ℕ → CharPtr → List Mountbody → ℕ → List Mountbody × ℕ
  unfolding is_mount_of
  remove_from host path [] cnt = ([], cnt)
  remove_from host path (iter ∷ next) cnt = elim (is_mount_of host path iter) [
    | true ↦ remove_from host path next (if ltb 0 cnt then cnt - 1 else cnt)
    | false ↦ (iter ∷ (remove_from host path next cnt).0, (remove_from host path next cnt).1)
  ]

  unfoldable pub remove_mount : CharPtr → SvcReq → Mounts → Mounts
  unfolding remove_from
  remove_mount path rqstp ms =
      let (mount_list, mount_cnt) =
        remove_from (inet_ntoa (get_remote rqstp)) path ms.mount_list ms.mount_cnt in
      record { mount_list = mount_list; mount_cnt = mount_cnt }
