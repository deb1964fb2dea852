-- ===== src/Vmtest.antt =====
-- The fakes of package vmtest (vm/vmtest/fake.go): what a test can observe of them. The HTTP server,
-- the mutexes and the child processes are Go's: a request reaches the handler, and a process runs
-- until it is killed or has ended.
pub mod Recorded
use firecracker_lab.Prelude.{
  Text, codes, ℕ, ℤ, Bool, true, false, Option, none, some, List, [], ◌∷◌, ◌++◌, ◌==◌, text_eq,
  if◌then◌else◌,
}
use firecracker_lab.Prelude.Decimal.{format_int}
use firecracker_lab.World.{Json}

pub record RecordedRequest : Type 0 where
  pub method : Text
  pub path : Text
  pub body : Json

-- `failNext` is a map from paths to status codes.
pub record FakeFirecracker : Type 0 where
  pub requests : List RecordedRequest
  pub fail_next : Text → Option ℕ

abbrev pub new_fake_firecracker : FakeFirecracker
new_fake_firecracker = record { requests = []; fail_next = λ path. none }

abbrev pub api_routes : List Text
api_routes =
    codes "/boot-source"
    ∷ codes "/drives/rootfs"
    ∷ codes "/machine-config"
    ∷ codes "/network-interfaces/eth0"
    ∷ codes "/vsock"
    ∷ codes "/actions"
    ∷ codes "/vm"
    ∷ codes "/snapshot/create"
    ∷ codes "/snapshot/load"
    ∷ []

unfoldable pub is_route : Text → List Text → Bool
is_route path [] = false
is_route path (r ∷ routes) = if r == path then true else is_route path routes

unfoldable pub or_no_content : Option ℕ → ℕ
or_no_content none = 204
or_no_content (some status) = status

-- A map, changed at one key.
abbrev pub put : {A : Type 0} → (Text → A) → Text → A → Text → A
put m key a k = if k == key then a else m k

-- `handler`: the status of the response, and the server behind it.
unfoldable pub handler : RecordedRequest → FakeFirecracker → ℕ × FakeFirecracker
unfolding or_no_content
handler req f = (
  or_no_content (f.fail_next req.path),
  record { requests = f.requests ++ req ∷ []; fail_next = put f.fail_next req.path none },
)

-- A path without a route is answered by the ServeMux, and is not recorded.
unfoldable pub serve : RecordedRequest → FakeFirecracker → ℕ × FakeFirecracker
serve req f = if is_route req.path api_routes then handler req f else (404, f)

-- `FailNext`
unfoldable pub fail_next : Text → ℕ → FakeFirecracker → FakeFirecracker
fail_next path status f = record f { fail_next = put f.fail_next path (some status) }

-- The forwards that are alive, by their key, and the calls in order.
pub record FakePortForwarder : Type 0 where
  pub alive : Text → Bool
  pub calls : List Text

abbrev pub new_fake_port_forwarder : FakePortForwarder
new_fake_port_forwarder = record { alive = λ k. false; calls = [] }

unfoldable pub key : Text → ℤ → Text
key id port = id ++ (codes ":" ++ format_int port)

unfoldable pub launch : Text → ℤ → FakePortForwarder → FakePortForwarder
unfolding key
launch id port f = record {
  alive = put f.alive (key id port) true;
  calls = f.calls ++ (codes "launch:" ++ key id port) ∷ [];
}

unfoldable pub stop : Text → ℤ → FakePortForwarder → FakePortForwarder
unfolding key
stop id port f = record {
  alive = put f.alive (key id port) false;
  calls = f.calls ++ (codes "stop:" ++ key id port) ∷ [];
}

unfoldable pub restart : Text → ℤ → FakePortForwarder → FakePortForwarder
unfolding key
restart id port f = record f { calls = f.calls ++ (codes "restart:" ++ key id port) ∷ [] }

unfoldable pub is_alive : Text → ℤ → FakePortForwarder → Bool
is_alive id port f = f.alive (key id port)

-- NoopNetworkProvisioner
unfoldable pub setup_tap : Text → List Text → List Text
setup_tap tap calls = calls ++ (codes "setup:" ++ tap) ∷ []

unfoldable pub teardown_tap : Text → List Text → List Text
teardown_tap tap calls = calls ++ (codes "teardown:" ++ tap) ∷ []

-- The child process of a unit: it runs, or it was killed or has ended, and was reaped.
pub data Process : Type 0 where
  running ended : Process

-- The processes by their unit.
abbrev pub FakeSupervisor : Type 0
FakeSupervisor = Text → Option Process

-- `Launch`, from whether the fake server and the process have started; `none` is an error.
unfoldable pub launch_process : Bool → Bool → Text → FakeSupervisor → Option FakeSupervisor
launch_process false started unit f = none
launch_process true false unit f = none
launch_process true true unit f = some (put f unit (some running))

stopped : Text → Option Process → FakeSupervisor → FakeSupervisor
stopped unit none f = f
stopped unit (some p) f = put f unit (some ended)

-- `Stop`, which gives no error for a unit that it does not know.
unfoldable pub stop_process : Text → FakeSupervisor → FakeSupervisor
unfolding stopped
stop_process unit f = stopped unit (f unit) f

waited : Option Process → Text
waited none = codes "inactive"
waited (some p) = codes "failed"

-- `Wait`, which returns when the process has ended.
unfoldable pub wait_process : Text → FakeSupervisor → Text × FakeSupervisor
unfolding waited stopped
wait_process unit f = (waited (f unit), stopped unit (f unit) f)

runs : Option Process → Bool
runs (some running) = true
runs p = false

unfoldable pub is_running : Text → FakeSupervisor → Bool
unfolding runs
is_running unit f = runs (f unit)
