-- ===== src/Nfs/Name.antt =====
-- unfs3/nfs.c: `cat_name`.
use unfs2go.Common.{
  ℕ, ◌+◌, List, [], ◌∷◌, ◌++◌, Bool, true, false, none, some, ◌||◌, ltb, ◌==◌, if◌then◌else◌,
  length,
}
use unfs2go.Xdr.Stream.{CharPtr}
use unfs2go.Types.Names.{Nfsstat3}
use unfs2go.Types.Constants.{
  nfs3_ok, nfs3err_acces, nfs3err_stale, nfs3err_nametoolong, nfs_maxpathlen,
}

-- `strchr(s, c) != NULL`
unfoldable pub strchr : ℕ → List ℕ → Bool
strchr c [] = false
strchr c (x ∷ s) = x == c || strchr c s

-- `s[0] == 0`
unfoldable pub is_empty : List ℕ → Bool
is_empty [] = true
is_empty (x ∷ s) = false

-- `strcmp(s, ".") == 0`
unfoldable pub is_dot : List ℕ → Bool
is_dot [] = false
is_dot (x ∷ []) = x == b'.'
is_dot (x ∷ y ∷ s) = false

-- The tests on two strings, and what is written to `result`.
unfoldable pub join_name : List ℕ → List ℕ → List ℕ → Nfsstat3 × List ℕ
unfolding strchr is_empty is_dot
join_name path name result =
    if is_empty name || strchr b'/' name
    then (nfs3err_acces, result)
    else if ltb nfs_maxpathlen (length path + length name + 2)
    then (nfs3err_nametoolong, result)
    else if is_dot name
    then (nfs3_ok, path)
    else (nfs3_ok, path ++ (b'/' ∷ name))

unfoldable pub cat_name : CharPtr → CharPtr → List ℕ → Nfsstat3 × List ℕ
unfolding join_name
cat_name none name result = (nfs3err_stale, result)
cat_name (some path) none result = (nfs3err_acces, result)
cat_name (some path) (some name) result = join_name path name result
