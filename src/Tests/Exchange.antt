-- ===== src/Tests/Exchange.antt =====
-- Calls of LOOKUP and READ, from the arguments of the client to the reply that it reads.
use unfs2go.Common.{ℕ, ◌≡◌, refl, List, [], ◌∷◌, ◌++◌, some, arith}
use unfs2go.Xdr.Stream.{encoding, decoding}
use unfs2go.Xdr.Memory.{memory}
use unfs2go.Xdr.Memory.Laws.{memory-IsRpc}
use unfs2go.Types.Args.{Lookup3Args}
use unfs2go.Types.Constants.{max_entries}
use unfs2go.Types.Zero.{zero_lookup3args}
use unfs2go.Types.ZeroRes.{zero_lookup3res, zero_readdir3res}
use unfs2go.Types.DirRes.{Readdir3Res}
use unfs2go.Daemon.Statics.{zero_statics}
use unfs2go.Request.{SvcReq}
use unfs2go.Daemon.Proc.{lookup, readdir}
use unfs2go.Daemon.Routines.{xdr_argument, xdr_result}
use unfs2go.Daemon.Local.{local}
use unfs2go.Daemon.Format.{IsArgs, wire_args, IsRes, wire_res, decoded_res}
use unfs2go.Daemon.Program.{World, nfs3_program_3, serve}
use unfs2go.Handle.Laws.{handle_of-IsNfsFh3}
use unfs2go.Daemon.Laws.Program.{served, nfs3_program_3-served, serve-static_irrelevant}
use unfs2go.Daemon.Laws.Valid.{local-IsRes}
use unfs2go.Daemon.Laws.RoundTrip.{
  xdr_argument-roundtrip, xdr_result-roundtrip, Answered, nfs3_program_3-roundtrip,
}
use unfs2go.Tests.Disk.{root, server, server-IsServer}
use unfs2go.Tests.Runtime.{runtime, runtime-IsSvc, call_of, files, world, named}

abbrev lookup_a : Lookup3Args
lookup_a = record { what = named (b'a' ∷ []) }

lookup_a-IsArgs : IsArgs lookup lookup_a
lookup_a-IsArgs = (handle_of-IsNfsFh3 server 1 (some root), omega arith)

roundtrip_lookup :
    Answered memory memory-IsRpc runtime runtime-IsSvc server server-IsServer max_entries
      (omega arith)
      lookup
      lookup_a
      (call_of 3)
      world
      zero_lookup3res
roundtrip_lookup =
    nfs3_program_3-roundtrip memory memory-IsRpc runtime runtime-IsSvc server server-IsServer
      max_entries (omega arith) lookup lookup_a (call_of 3) world zero_lookup3res refl
      lookup_a-IsArgs

served_lookup :
    nfs3_program_3 memory runtime server max_entries
      (call_of 3)
      (wire_args lookup lookup_a ++ [])
      world
    ≡ served memory memory-IsRpc runtime runtime-IsSvc server server-IsServer max_entries
        (omega arith)
        lookup
        lookup_a
        (call_of 3)
        world
served_lookup =
    nfs3_program_3-served memory memory-IsRpc runtime runtime-IsSvc server server-IsServer
      max_entries (omega arith) lookup lookup_a [] (call_of 3) world refl lookup_a-IsArgs

-- The world after some other calls, as far as the static results go.
abbrev used : World memory runtime server max_entries
used = record {
  statics = record zero_statics { lookup_result = record zero_lookup3res { status = 70 } };
  state = files;
}

abbrev two_calls : List (SvcReq × List ℕ)
two_calls = (call_of 3, wire_args lookup lookup_a) ∷ (call_of 3, []) ∷ []

serve_lookup_twice :
    ((serve memory runtime server max_entries two_calls world).0
      ≡ (serve memory runtime server max_entries two_calls used).0)
    × ((serve memory runtime server max_entries two_calls world).1.state
        ≡ (serve memory runtime server max_entries two_calls used).1.state)
serve_lookup_twice =
    serve-static_irrelevant memory memory-IsRpc runtime runtime-IsSvc server server-IsServer
      max_entries (omega arith) two_calls world used refl

lookup_reply_fits :
    IsRes max_entries lookup (local server lookup lookup_a (call_of 3) zero_lookup3res files).0
lookup_reply_fits =
    local-IsRes server server-IsServer max_entries (omega arith) lookup lookup_a (call_of 3)
      zero_lookup3res files

lookup_arguments_travel :
    (xdr_argument memory max_entries lookup (encoding (9 ∷ [])) lookup_a
      ≡ some (encoding ((9 ∷ []) ++ wire_args lookup lookup_a), lookup_a))
    × (xdr_argument memory max_entries lookup
          (decoding (wire_args lookup lookup_a ++ (8 ∷ [])))
          zero_lookup3args
        ≡ some (decoding (8 ∷ []), lookup_a))
lookup_arguments_travel =
    xdr_argument-roundtrip memory memory-IsRpc max_entries lookup lookup_a zero_lookup3args (9 ∷ [])
      (8 ∷ []) lookup_a-IsArgs

-- READDIR's reply with one entry.
abbrev one_entry : Readdir3Res
one_entry = record zero_readdir3res {
  resok = record zero_readdir3res.resok {
    reply = record {
      entries = record { fileid = 1; name = some (b'.' ∷ []); cookie = 1 } ∷ [];
      eof = 1;
    };
  };
}

readdir_result_travels :
    (xdr_result memory max_entries readdir (encoding []) one_entry
      ≡ some (encoding ([] ++ wire_res readdir one_entry), one_entry))
    × (xdr_result memory max_entries readdir
          (decoding (wire_res readdir one_entry ++ (8 ∷ [])))
          zero_readdir3res
        ≡ some (decoding (8 ∷ []), decoded_res readdir one_entry zero_readdir3res))
readdir_result_travels =
    xdr_result-roundtrip memory memory-IsRpc max_entries readdir one_entry zero_readdir3res []
      (8 ∷ []) (omega arith)
