-- ===== src/Tests/Mounting.antt =====
-- The mount protocol at concrete calls.
use unfs2go.Common.{
  ℕ, ◌≡◌, ◌==◌, if◌then◌else◌, refl, List, [], ◌∷◌, ◌++◌, none, some, true, arith, length,
}
use unfs2go.Xdr.Stream.{encoding, decoding}
use unfs2go.Xdr.Memory.{memory}
use unfs2go.Xdr.Memory.Laws.{memory-IsRpc}
use unfs2go.Wire.Chain.{wire_chain}
use unfs2go.Wire.Basic.{IsString}
use unfs2go.Daemon.Program.{reply, system_error}
use unfs2go.Mount.Types.{Mountres3, Mountbody, mntnamlen}
use unfs2go.Mount.Wire.{wire_mountbody}
use unfs2go.Mount.Mounts.{Malloc, Mounts, add_mount, remove_mount}
use unfs2go.Mount.Procs.{mountproc_mnt_3_svc, mountproc_dump_3_svc}
use unfs2go.Mount.Xdr.{xdr_mountlist}
use unfs2go.Mount.Program.{mnt, xdr_mount_result, MountWorld, mount_local, mountprog_3}
use unfs2go.Mount.Loop.{MountHeap, remove_nodes}
use unfs2go.Mount.Laws.Mounts.{remove_mount-add_mount}
use unfs2go.Mount.Laws.Linked.{Nodes, Removed}
use unfs2go.Mount.Laws.Nodes.{bodies, remove_nodes-remove_mount}
use unfs2go.Mount.Laws.Mnt.{IsMnt, mountproc_mnt_3_svc-cases}
use unfs2go.Mount.Laws.Runs.{Runs}
use unfs2go.Mount.Laws.Reachable.{Reachable, Reachable-dump}
use unfs2go.Mount.Laws.Program.{
  wire_mount_args, wire_mount_res, decoded_mount_res, mountprog_3-served,
}
use unfs2go.Tests.Disk.{root, server}
use unfs2go.Tests.Runtime.{runtime, runtime-IsSvc, call_of, files}

abbrev zero_mountres3 : Mountres3
zero_mountres3 = record {
  fhs_status = 0;
  mountinfo = record { fhandle = record { data_len = 0; data_val = [] }; auth_flavors = [] };
}

-- Every address is printed as `10`.
abbrev printed : ℕ → List ℕ
printed addr = b'1' ∷ b'0' ∷ []

printed-IsString : (addr : ℕ) → IsString mntnamlen (some (printed addr))
printed-IsString addr = omega arith

abbrev accept : ℕ → List ℕ → List (List ℕ) → ℕ × List (List ℕ)
accept addr path s = (0, s)

abbrev enough_memory : Malloc
enough_memory = record { body = true; hostname = true; directory = true }

abbrev own_mount : Mountbody
own_mount = record { ml_hostname = some (printed 0); ml_directory = some root }

abbrev other_mount : Mountbody
other_mount = record { ml_hostname = some (b'2' ∷ []); ml_directory = some root }

abbrev one_mount : Mounts
one_mount = record { mount_list = own_mount ∷ []; mount_cnt = 1 }

mounted_root-Reachable :
    Reachable printed server accept
      (mountproc_mnt_3_svc printed server accept root
        (call_of 1)
        enough_memory
        zero_mountres3
        (record { mount_list = []; mount_cnt = 0 })
        files).1
mounted_root-Reachable =
    Reachable.mnt _ root (call_of 1) enough_memory zero_mountres3 files (omega arith)
      Reachable.start

one_mount-Reachable : Reachable printed server accept one_mount
unfolding mountproc_mnt_3_svc add_mount
one_mount-Reachable = mounted_root-Reachable

dump_one_mount :
    let list = mountproc_dump_3_svc one_mount in
    (xdr_mountlist memory 1 (encoding []) list
      ≡ some (encoding (wire_chain wire_mountbody list), list))
    × (xdr_mountlist memory 1 (decoding (wire_chain wire_mountbody list ++ [])) []
        ≡ some (decoding [], list))
    × (length list ≡ 1)
dump_one_mount =
    Reachable-dump printed server accept printed-IsString memory memory-IsRpc one_mount
      one_mount-Reachable

IsMnt-root :
    let (r, ms', s') =
      mountproc_mnt_3_svc printed server accept root
        (call_of 1)
        enough_memory
        zero_mountres3
        one_mount
        files in
    IsMnt printed server accept root (call_of 1) enough_memory one_mount files r ms'
IsMnt-root =
    mountproc_mnt_3_svc-cases printed server accept root (call_of 1) enough_memory zero_mountres3
      one_mount files

abbrev two_mounts : Nodes
two_mounts = (4, own_mount) ∷ (9, other_mount) ∷ []

-- Two mounts in memory: one of the host at address 4, and one of another host behind it.
abbrev two_nodes : MountHeap
two_nodes = record {
  nodes = λ a.
      if a == 4
      then some (record { body = own_mount; ml_next = some 9 })
      else if a == 9
      then some (record { body = other_mount; ml_next = none })
      else none;
  mount_list = some 4;
  mount_cnt = 2;
}

umntall_two_nodes :
    (h' : MountHeap) × (remove_nodes printed none (call_of 4) 2 two_nodes ≡ some h')
    × (r : Removed (printed 0) none (λ x. Unit) two_mounts two_nodes h' h'.mount_list) × (let ms =
          remove_mount printed none
            (call_of 4)
            (record { mount_list = bodies two_mounts; mount_cnt = 2 }) in
        (bodies r.left ≡ ms.mount_list)
        × (h'.mount_cnt ≡ ms.mount_cnt)
        × (h'.mount_cnt ≡ length r.left))
umntall_two_nodes =
    remove_nodes-remove_mount printed none (call_of 4) 2 two_nodes two_mounts
      (refl, (some 9, refl, (refl, (none, refl, refl)))) (((λ e. ground (arith, e)), tt), (tt, tt))
      refl (omega arith)

mnt_and_umnt :
    (remove_mount printed
      (some root)
      (call_of 3)
      (add_mount printed root (call_of 3) enough_memory one_mount)).mount_list
    ≡ (remove_mount printed (some root) (call_of 3) one_mount).mount_list
mnt_and_umnt = remove_mount-add_mount printed root (call_of 3) enough_memory one_mount

abbrev mount_world : MountWorld printed server accept
mount_world = record { mnt_result = zero_mountres3; mounts = one_mount; state = files }

mountprog_mnt_root :
    let (result, w') =
      mount_local printed server accept mnt (some root) (call_of 1) enough_memory mount_world in
    (mountprog_3 printed server accept memory runtime 170
        (call_of 1)
        enough_memory
        (wire_mount_args mnt (some root) ++ [])
        mount_world
      ≡ (
        (if runtime.transport_takes (wire_mount_res mnt result)
            then reply (wire_mount_res mnt result)
            else system_error),
        w',
      ))
    × Runs printed server accept mnt (some root) (call_of 1) enough_memory mount_world result w'
    × (xdr_mount_result memory 170 mnt (decoding (wire_mount_res mnt result ++ [])) zero_mountres3
        ≡ some (decoding [], decoded_mount_res mnt result zero_mountres3))
mountprog_mnt_root =
    mountprog_3-served printed server accept 170 (omega arith) memory memory-IsRpc runtime
      runtime-IsSvc mnt (some root) [] (call_of 1) enough_memory mount_world zero_mountres3 refl
      (omega arith) (omega arith) (omega arith)
