-- ===== src/Nfs/Readdir.antt =====
-- unfs3/nfs.c: READDIR and READDIRPLUS.
use unfs2go.Common.{ℕ, ◌+◌, ◌-◌, ◌%◌, ◌^◌, List, [], ◌∷◌, none, some, ltb, ◌==◌, if◌then◌else◌}
use unfs2go.Common.Int.{ℤ, pos, negsuc}
use unfs2go.Types.Entries.{Entry3Item}
use unfs2go.Types.DirArgs.{Readdir3Args, Readdirplus3Args}
use unfs2go.Types.DirRes.{Readdir3Res, Readdirplus3Res}
use unfs2go.Types.Names.{BoolT, Nfsstat3}
use unfs2go.Types.Constants.{bool_true, bool_false, nfs3_ok, nfs3err_notsupp, resok_size}
use unfs2go.Types.Zero.{zero_verf}
use unfs2go.Backend.{Server}
use unfs2go.Request.{SvcReq}
use unfs2go.Handle.{fh_decomp}
use unfs2go.Attributes.{get_post}

-- `count` is a `uint32`, also after the subtraction.
unfoldable pub readdir_count : ℕ → ℕ
readdir_count count = ((if ltb 4096 count then 4096 else count) + (2 ^ 32 - resok_size)) % 2 ^ 32

-- The status and `eof` from the result of `go_readdir_full`; a negative one says that entries are left.
unfoldable pub readdir_status : ℤ → BoolT → Nfsstat3 × BoolT
readdir_status (negsuc k) eof = (nfs3_ok, bool_false)
readdir_status (pos res) eof = (res, if res == nfs3_ok then bool_true else eof)

-- `entries[0].name ? &entries[0] : NULL`, of the chain that begins at `entries[0]`.
unfoldable pub first_entry : List Entry3Item → List Entry3Item
first_entry [] = []
first_entry (e ∷ es) = elim e.name [ none ↦ [] | some name ↦ e ∷ es ]

unfoldable pub nfsproc3_readdirplus_3_svc :
    Readdirplus3Args → SvcReq → Readdirplus3Res → Readdirplus3Res
nfsproc3_readdirplus_3_svc argp rqstp result = record {
  status = nfs3err_notsupp;
  resok = record result.resok {
    dir_attributes = record result.resok.dir_attributes { attributes_follow = bool_false };
  };
}

module _ (srv : Server) where
  open srv use {backend.{State, go_readdir_full}, stack}

  unfoldable pub nfsproc3_readdir_3_svc :
      Readdir3Args → SvcReq → Readdir3Res → State → Readdir3Res × State
  unfolding readdir_count readdir_status first_entry
  nfsproc3_readdir_3_svc argp rqstp result s =
      let path = fh_decomp srv argp.dir s in
      let (res, entries, s₁) = go_readdir_full path argp.cookie (readdir_count argp.count) s in
      let (status, eof) = readdir_status res stack.eof in
      let (post, s₂) = get_post srv path s₁ in
      (
        record {
          status = status;
          resok = record {
            dir_attributes = post;
            cookieverf = zero_verf;
            reply = record { entries = first_entry entries; eof = eof };
          };
        },
        s₂,
      )
