-- ===== src/Agent.antt =====
-- The requests to the guest agent over vsock (vm/status.go) and their frames. The protobuf
-- encoding of a message (google.golang.org/protobuf) is a parameter.
pub mod Frames
pub mod Unrecorded
use firecracker_lab.Prelude.{
  Text, codes, ℕ, ℤ, pos, negsuc, ◌+◌, ◌-◌, ◌*◌, ◌/◌, ◌%◌, ◌^◌, Bool, true, false, Option, none,
  some, List, [], ◌∷◌, ◌++◌, leb, if◌then◌else◌,
}
use firecracker_lab.Prelude.Lists.{length, take, drop}
use firecracker_lab.Prelude.Decimal.{format_int}
use firecracker_lab.Vsock.{Conn, dial_vsock}
use firecracker_lab.World.{
  write, receive, close, Host, Error, message, wrap, Result, ok, err, World, Action, ⊤, pure, raise,
  wrapping, wrap_outcome, gets, call, ask, ◌>>=◌, ◌>>◌,
}

-- The oneof of a `Request` (agentpb), with the fields of its messages.
pub data Request : Type 0 where
  status : Request
  vm_restore : ℕ → Request
  -- tcp_port, cid, vsock_port
  start_tcp_vsock_proxy : ℕ → ℕ → ℕ → Request
  stop_tcp_vsock_proxy : ℕ → Request

pub data HealthStatus : Type 0 where
  healthy degraded : HealthStatus
  -- a number that the enum does not name
  unrecognized : ℕ → HealthStatus

pub record StatusResponse : Type 0 where
  pub health : HealthStatus
  pub cpu_pct : ℕ
  pub mem_available_bytes : ℕ
  pub last_beat : ℕ

-- The oneof of a `Response`; `unset` if the guest sent none of its cases.
pub data Response : Type 0 where
  status_response : StatusResponse → Response
  ack : Response
  error_response : Text → Response
  unset : Response

-- proto.Marshal and proto.Unmarshal.
pub record Codec : Type 0 where
  pub marshal : Request → Option Text
  pub unmarshal : Text → Option Response

abbrev pub guest_agent_port : ℕ
guest_agent_port = 1234

abbrev pub guest_pty_port : ℕ
guest_pty_port = 1235

abbrev pub vsock_cid_host : ℕ
vsock_cid_host = 2

-- `binary.BigEndian.PutUint32` of `uint32(n)`
unfoldable pub put_uint32 : ℕ → Text
put_uint32 n = n / 2 ^ 24 % 256 ∷ n / 2 ^ 16 % 256 ∷ n / 2 ^ 8 % 256 ∷ n % 256 ∷ []

-- `binary.BigEndian.Uint32` of four bytes
unfoldable pub uint32_of : Text → ℕ
uint32_of (a ∷ b ∷ c ∷ d ∷ s) = a * 2 ^ 24 + b * 2 ^ 16 + c * 2 ^ 8 + d
uint32_of s = 0

-- `io.ReadFull` of n bytes from what arrives; `none` is io.EOF or io.ErrUnexpectedEOF.
unfoldable pub read_full : ℕ → Text → Option (Text × Text)
read_full n s = if leb n (length s) then some (take n s, drop n s) else none

unfoldable pub eof : Error
eof = message (codes "unexpected EOF")

read_body : Option (Text × Text) → Result Text
unfolding eof
read_body none = err eof
read_body (some (body, rest)) = ok body

read_prefixed : Option (Text × Text) → Result Text
unfolding eof read_body
read_prefixed none = err eof
read_prefixed (some (prefix, rest)) = read_body (read_full (uint32_of prefix) rest)

-- The bytes of the message of one frame.
unfoldable pub read_frame : Text → Result Text
unfolding read_prefixed
read_frame s = read_prefixed (read_full 4 s)

-- `uint32(port)` of an int
unfoldable pub to_uint32 : ℤ → ℕ
to_uint32 (pos n) = n % 2 ^ 32
to_uint32 (negsuc n) = 2 ^ 32 - 1 - n % 2 ^ 32

unfoldable pub decoded : Option Response → Result Response
decoded none = err (message (codes "proto: cannot parse"))
decoded (some r) = ok r

-- `if e := resp.GetError(); e != nil`
unfoldable pub or_guest_error : Response → Result Response
or_guest_error (error_response reason) = err (message (codes "guest agent: " ++ reason))
or_guest_error r = ok r

-- `resp.GetStatus()`, which is nil for any other response.
unfoldable pub get_status : Response → Option StatusResponse
get_status (status_response s) = some s
get_status r = none

module _ (host : Host) (codec : Codec) where
  -- The prefix and the encoded message are two writes.
  unfoldable pub write_body : Text → Option Text → Action ⊤
  write_body sock none = raise (message (codes "proto: cannot marshal"))
  write_body sock (some body) = do
    call host (write sock (put_uint32 (length body % 2 ^ 32)))
    call host (write sock body)

  unfoldable pub write_framed : Conn → Request → Action ⊤
  unfolding write_body
  write_framed conn req = write_body conn.sock (codec.marshal req)

  -- Reads what is buffered from the handshake, and then what arrives.
  unfoldable pub read_framed : Conn → Action Response
  unfolding decoded
  read_framed conn = do
    arrived ← ask host (receive conn.sock)
    body ← λ w. (read_frame (conn.buffered ++ arrived), w)
    λ w. (decoded (codec.unmarshal body), w)

  unfoldable pub send_request : Conn → Request → Action Response
  unfolding write_framed read_framed
  send_request conn req = do
    wrapping (codes "send request") (write_framed conn req)
    resp ← wrapping (codes "read response") (read_framed conn)
    λ w. (or_guest_error resp, w)

  -- `defer conn.Close()`
  closing : {A : Type 0} → Text → Result A × World → Result A × World
  closing sock (r, w) = (r, (call host (close sock) w).1)

  -- Dials the agent's port, sends the request that is made then, and closes the connection; an
  -- error of the request is wrapped.
  unfoldable pub exchange : Text → Text → (World → Request) → Action Response
  unfolding closing
  exchange sock context make = do
    conn ← dial_vsock host sock guest_agent_port
    req ← gets make
    λ w. closing sock (wrap_outcome context (send_request conn req w))

  unfoldable pub query_status : Text → Action (Option StatusResponse)
  query_status sock = do
    resp ← exchange sock (codes "status request") (λ _. status)
    pure (get_status resp)

  -- The Unix time in seconds; the host's clock counts milliseconds.
  unfoldable pub notify_restore : Text → Action ⊤
  notify_restore sock = do
    exchange sock (codes "restore notification") (λ w. vm_restore (host.now w.log / 1000))
    pure tt

  unfoldable pub start_proxy : Text → ℤ → Action ⊤
  start_proxy sock port = do
    exchange sock (codes "start tcp-vsock proxy for port " ++ format_int port)
        (λ _. start_tcp_vsock_proxy (to_uint32 port) vsock_cid_host (to_uint32 port))
    pure tt

  unfoldable pub stop_proxy : Text → ℤ → Action ⊤
  stop_proxy sock port = do
    exchange sock (codes "stop tcp-vsock proxy for port " ++ format_int port)
        (λ _. stop_tcp_vsock_proxy (to_uint32 port))
    pure tt
