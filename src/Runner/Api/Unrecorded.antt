-- ===== src/Runner/Api/Unrecorded.antt =====
-- The calls of the Firecracker API do not touch the state database.
use firecracker_lab.Prelude.{Text, ℕ, zero, suc, Bool, true, false, List}
use firecracker_lab.State.Vms.{Vm}
use firecracker_lab.World.{Host, Json, Action, ⊤, Result, ok, err}
use firecracker_lab.World.Keeps.{Keeps, keeping}
use firecracker_lab.Runner.Api.{
  api_request, api_put, api_patch, run, boot_vm, wait_loop, wait_for_socket, after_stat, one_wait,
  socket_timeout,
}

module _ (host : Host) where
  api_request-Keeps :
      (sock method path : Text) (body : Json) → Keeps (api_request host sock method path body)
  unfolding api_request
  api_request-Keeps sock method path body = search keeping depth 12

  pub api_put-Keeps : (sock path : Text) (body : Json) → Keeps (api_put host sock path body)
  unfolding api_put
  api_put-Keeps sock path body = api_request-Keeps sock _ path body

  pub api_patch-Keeps : (sock path : Text) (body : Json) → Keeps (api_patch host sock path body)
  unfolding api_patch
  api_patch-Keeps sock path body = api_request-Keeps sock _ path body

  pub run-Keeps : (args : List Text) → Keeps (run host args)
  unfolding run
  run-Keeps args = search keeping

  pub boot_vm-Keeps : (vm : Vm) (sock : Text) → Keeps (boot_vm host vm sock)
  unfolding boot_vm
  boot_vm-Keeps vm sock = search (keeping, api_put-Keeps) depth 14

  after_stat-Keeps :
      (again : Action ⊤) (found : Result ⊤) → Keeps again → Keeps (after_stat host again found)
  unfolding after_stat
  after_stat-Keeps again (ok a) h = search keeping
  after_stat-Keeps again (err e) h = search keeping

  one_wait-Keeps :
      (path : Text) (again : Action ⊤) (early : Bool)
      → Keeps again
      → Keeps (one_wait host path again early)
  unfolding one_wait socket_timeout
  one_wait-Keeps path again true h = search (keeping, after_stat-Keeps) depth 8
  one_wait-Keeps path again false h = search keeping

  wait_loop-Keeps :
      (rounds : ℕ) (path : Text) (deadline : ℕ) → Keeps (wait_loop host rounds path deadline)
  unfolding wait_loop
  wait_loop-Keeps zero path deadline = search keeping
  wait_loop-Keeps (suc rounds) path deadline =
      let h : Keeps (wait_loop host rounds path deadline) = wait_loop-Keeps rounds path deadline in
      search (keeping, one_wait-Keeps) depth 8

  pub wait_for_socket-Keeps :
      (path : Text) (timeout : ℕ) → Keeps (wait_for_socket host path timeout)
  unfolding wait_for_socket
  wait_for_socket-Keeps path timeout = search (keeping, wait_loop-Keeps) depth 8
