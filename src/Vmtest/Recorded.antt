-- ===== src/Vmtest/Recorded.antt =====
-- What the fakes answer, from the history of what was done to them.
use firecracker_lab.Prelude.{
  Text, ℕ, ℤ, ◌≡◌, refl, Bool, true, false, Option, none, some, List, [], ◌∷◌, ◌++◌, ◌==◌, text_eq,
  if◌then◌else◌, arith,
}
use firecracker_lab.Vmtest.{
  RecordedRequest, FakeFirecracker, new_fake_firecracker, handler, or_no_content, fail_next,
  FakePortForwarder, new_fake_port_forwarder, key, launch, stop, restart,
}

-- What a test does to the fake server, the latest first.
pub data Event : Type 0 where
  request : RecordedRequest → Event
  fails : Text → ℕ → Event

unfoldable pub happened : Event → FakeFirecracker → FakeFirecracker
happened (request req) f = (handler req f).1
happened (fails path status) f = fail_next path status f

unfoldable pub server_after : List Event → FakeFirecracker
server_after [] = new_fake_firecracker
server_after (e ∷ events) = happened e (server_after events)

-- The status of the latest FailNext of a path that no request to it has come behind.
unfoldable pub pending : Text → List Event → Option ℕ
pending path [] = none
pending path (request req ∷ events) =
    let before = pending path events in if path == req.path then none else before
pending path (fails p status ∷ events) =
    let before = pending path events in if path == p then some status else before

-- The requests, in order.
unfoldable pub requests_of : List Event → List RecordedRequest
requests_of [] = []
requests_of (request req ∷ events) = requests_of events ++ req ∷ []
requests_of (fails p status ∷ events) = requests_of events

server_after-pending :
    (path : Text) (events : List Event) → (server_after events).fail_next path ≡ pending path events
unfolding server_after pending happened handler fail_next
server_after-pending path [] = refl
server_after-pending path (request req ∷ events) = ground (arith, server_after-pending path events)
server_after-pending path (fails p status ∷ events) =
    ground (arith, server_after-pending path events)

server_after-requests : (events : List Event) → (server_after events).requests ≡ requests_of events
unfolding server_after requests_of happened handler fail_next
server_after-requests [] = refl
server_after-requests (request req ∷ events) = ground (arith, server_after-requests events)
server_after-requests (fails p status ∷ events) = server_after-requests events

-- Whatever a test has done to the fake server: the handler answers a request with the status of the
-- latest FailNext of its path that no request to that path has come behind, and with 204 without
-- one; and it has recorded all the requests, in order.
pub handler-events :
    (events : List Event) (req : RecordedRequest)
    → ((handler req (server_after events)).0 ≡ or_no_content (pending req.path events))
      × ((handler req (server_after events)).1.requests ≡ requests_of events ++ req ∷ [])
unfolding handler
handler-events events req =
    ground (arith, server_after-pending req.path events, server_after-requests events)

-- What a test does to the fake port forwarder, the latest first.
pub data ForwardEvent : Type 0 where
  launched stopped_port restarted : Text → ℤ → ForwardEvent

unfoldable pub forwarder_after : List ForwardEvent → FakePortForwarder
forwarder_after [] = new_fake_port_forwarder
forwarder_after (launched id port ∷ events) = launch id port (forwarder_after events)
forwarder_after (stopped_port id port ∷ events) = stop id port (forwarder_after events)
forwarder_after (restarted id port ∷ events) = restart id port (forwarder_after events)

-- The forward of a key was launched and not stopped since.
unfoldable pub stands : Text → List ForwardEvent → Bool
stands k [] = false
stands k (launched id port ∷ events) =
    let before = stands k events in if k == key id port then true else before
stands k (stopped_port id port ∷ events) =
    let before = stands k events in if k == key id port then false else before
stands k (restarted id port ∷ events) = stands k events

-- Whatever was done to the fake port forwarder, a forward is alive exactly if it was launched and
-- not stopped since; a restart changes nothing.
pub forwarder_after-stands :
    (k : Text) (events : List ForwardEvent) → (forwarder_after events).alive k ≡ stands k events
unfolding forwarder_after stands launch stop restart
forwarder_after-stands k [] = refl
forwarder_after-stands k (launched id port ∷ events) =
    ground (arith, forwarder_after-stands k events)
forwarder_after-stands k (stopped_port id port ∷ events) =
    ground (arith, forwarder_after-stands k events)
forwarder_after-stands k (restarted id port ∷ events) = forwarder_after-stands k events
