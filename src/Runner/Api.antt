-- ===== src/Runner/Api.antt =====
-- The Firecracker API (vm/vm.go: apiPut, apiPatch, apiRequest, bootVM, waitForSocket), and `run`.
pub mod Unrecorded
pub mod Waits
use firecracker_lab.Prelude.{
  Text, codes, ℕ, zero, suc, ℤ, pos, ◌+◌, ◌/◌, ◌%◌, ◌^◌, Bool, true, false, List, [], ◌∷◌, ◌++◌,
  ltb, leb, if◌then◌else◌,
}
use firecracker_lab.Prelude.Decimal.{digits}
use firecracker_lab.Vsock.{rounds_for}
use firecracker_lab.State.Vms.{Vm}
use firecracker_lab.World.{
  Call, http, stat, exec, Json, str, num, bool, obj, arr, Fields, done, field, Items, nil, item,
  Host, Error, message, Result, ok, err, World, Action, ⊤, pure, raise, attempt, gets, call, nap,
  ◌>>=◌, ◌>>◌,
}

abbrev put_method : Text
put_method = codes "PUT"

abbrev patch_method : Text
patch_method = codes "PATCH"

-- An entry with a text.
abbrev pub text_field : Text → Text → Fields → Fields
text_field name value rest = field name (str value) rest

unfoldable pub halt_body : Json
halt_body = obj (text_field (codes "action_type") (codes "SendCtrlAltDel") done)

unfoldable pub start_body : Json
start_body = obj (text_field (codes "action_type") (codes "InstanceStart") done)

unfoldable pub pause_body : Json
pause_body = obj (text_field (codes "state") (codes "Paused") done)

unfoldable pub create_body : Json
create_body = obj (
    text_field (codes "snapshot_type") (codes "Full") (
      text_field (codes "snapshot_path") (codes "/snapshot.bin")
        (text_field (codes "mem_file_path") (codes "/mem.bin") done)))

unfoldable pub load_body : Vm → Json
load_body vm = obj (
    text_field (codes "snapshot_path") (codes "/snapshot.bin") (
      field (codes "mem_backend")
        (obj (
          text_field (codes "backend_type") (codes "File")
            (text_field (codes "backend_path") (codes "/mem.bin") done)))
        (field (codes "resume_vm") (bool true) (
          field (codes "network_overrides")
            (arr (
              item
                (obj (
                  text_field (codes "iface_id") (codes "eth0")
                    (text_field (codes "host_dev_name") vm.tap done)))
                nil))
            done))))

unfoldable pub boot_source_body : Vm → Json
boot_source_body vm = obj (
    text_field (codes "kernel_image_path") (codes "/vmlinux.bin") (
      text_field (codes "boot_args")
        (codes "console=ttyS0 reboot=k panic=1 pci=off init=/bin/guest-agent ip="
          ++ (vm.ip ++ codes "::172.16.0.1:255.255.255.0::eth0:off"))
        done))

unfoldable pub rootfs_body : Json
rootfs_body = obj (
    text_field (codes "drive_id") (codes "rootfs") (
      text_field (codes "path_on_host") (codes "/rootfs.ext4") (
        field (codes "is_root_device") (bool true)
          (field (codes "is_read_only") (bool false) done))))

unfoldable pub machine_body : Vm → Json
machine_body vm =
    obj (
      field (codes "vcpu_count") (num vm.vcpus)
        (field (codes "mem_size_mib") (num vm.mem_mib) done))

hex_digit : ℕ → ℕ
hex_digit d = if ltb d 10 then b'0' + d else 87 + d

-- `%02x` of a number, to the last two digits and all before them.
hex_within : ℕ → ℕ → Text
unfolding hex_digit
hex_within zero n = []
hex_within (suc fuel) n =
    let rest = hex_within fuel (n / 16) in
    if ltb n 16 then hex_digit n ∷ [] else rest ++ hex_digit (n % 16) ∷ []

unfoldable pub hex2 : ℕ → Text
unfolding hex_within hex_digit
hex2 n = if ltb n 16 then b'0' ∷ hex_digit n ∷ [] else hex_within (suc n) n

unfoldable pub guest_mac : ℕ → Text
unfolding hex2
guest_mac cid = codes "AA:FC:00:00:" ++ (hex2 (cid / 256) ++ (b':' ∷ hex2 (cid % 256)))

unfoldable pub network_body : Vm → Json
network_body vm = obj (
    text_field (codes "iface_id") (codes "eth0") (
      text_field (codes "guest_mac") (guest_mac vm.cid)
        (text_field (codes "host_dev_name") vm.tap done)))

unfoldable pub vsock_body : Vm → Json
vsock_body vm = obj (
    text_field (codes "vsock_id") (codes "vsock0") (
      field (codes "guest_cid") (num (pos vm.cid))
        (text_field (codes "uds_path") (codes "/run/vsock.sock") done)))

api_error : Text → Text → ℕ → Error
api_error method path code =
    message (codes "API " ++ (method ++ (32 ∷ (path ++ (codes " returned " ++ digits code)))))

module _ (host : Host) where
  -- A response of 300 or above is an error.
  unfoldable pub api_request : Text → Text → Text → Json → Action ⊤
  unfolding api_error
  api_request sock method path body = do
    code ← gets (λ w. host.status w.log (http sock method path body))
    call host (http sock method path body)
    if leb 300 code then raise (api_error method path code) else pure tt

  unfoldable pub api_put : Text → Text → Json → Action ⊤
  api_put sock = api_request sock put_method

  unfoldable pub api_patch : Text → Text → Json → Action ⊤
  api_patch sock = api_request sock patch_method

  unfoldable pub boot_vm : Vm → Text → Action ⊤
  boot_vm vm sock = do
    api_put sock (codes "/boot-source") (boot_source_body vm)
    api_put sock (codes "/drives/rootfs") rootfs_body
    api_put sock (codes "/machine-config") (machine_body vm)
    api_put sock (codes "/network-interfaces/eth0") (network_body vm)
    api_put sock (codes "/vsock") (vsock_body vm)
    api_put sock (codes "/actions") start_body

  unfoldable pub run : List Text → Action ⊤
  run args = call host (exec args)

  -- `time.Now().Before(deadline)`
  is_before : ℕ → World → Bool
  is_before deadline w = ltb (host.now w.log) deadline

  socket_timeout : Text → Action ⊤
  socket_timeout path = raise (message (codes "timeout waiting for " ++ path))

  after_stat : Action ⊤ → Result ⊤ → Action ⊤
  after_stat again (ok _) = pure tt
  after_stat again (err _) = do nap 100; again

  one_wait : Text → Action ⊤ → Bool → Action ⊤
  unfolding after_stat socket_timeout
  one_wait path again true = do found ← attempt (call host (stat path)); after_stat again found
  one_wait path again false = socket_timeout path

  -- The loop of `waitForSocket`, with a bound on its rounds.
  unfoldable pub wait_loop : ℕ → Text → ℕ → Action ⊤
  unfolding one_wait is_before socket_timeout
  wait_loop zero path deadline = socket_timeout path
  wait_loop (suc rounds) path deadline =
      let again : Action ⊤ = wait_loop rounds path deadline in
      do early ← gets (is_before deadline); one_wait path again early

  unfoldable pub wait_for_socket : Text → ℕ → Action ⊤
  wait_for_socket path timeout = do
    start ← gets (λ w. host.now w.log)
    wait_loop (rounds_for timeout) path (start + timeout)
