-- ===== src/Agent/Unrecorded.antt =====
-- A request to the guest agent does not touch the state database.
use firecracker_lab.Prelude.{Text, ℤ, ◌≡◌, ◌∙◌, refl, Option, none, some}
use firecracker_lab.Vsock.{Conn, dial_vsock}
use firecracker_lab.Vsock.Unrecorded.{dial_vsock-Keeps}
use firecracker_lab.World.{Host, World, Action, Result, gets, call, wrapping}
use firecracker_lab.World.Keeps.{Keeps, keeping, gets-Keeps, wrapping-Keeps, >>=-Keeps}
use firecracker_lab.Agent.{
  Codec, Request, guest_agent_port, exchange, query_status, notify_restore, start_proxy, stop_proxy,
  send_request, write_body, write_framed, read_framed, closing,
}

module _ (host : Host) (codec : Codec) where
  write_body-Keeps : (sock : Text) (body : Option Text) → Keeps (write_body host codec sock body)
  unfolding write_body
  write_body-Keeps sock none = search keeping
  write_body-Keeps sock (some body) = search keeping depth 12

  write_framed-Keeps : (conn : Conn) (req : Request) → Keeps (write_framed host codec conn req)
  unfolding write_framed
  write_framed-Keeps conn req = write_body-Keeps conn.sock (codec.marshal req)

  read_framed-Keeps : (conn : Conn) → Keeps (read_framed host codec conn)
  unfolding read_framed
  read_framed-Keeps conn = search keeping depth 12

  send_request-Keeps : (conn : Conn) (req : Request) → Keeps (send_request host codec conn req)
  unfolding send_request
  send_request-Keeps conn req = search (keeping, write_framed-Keeps, read_framed-Keeps) depth 12

  closing_same :
      {A : Type 0} (sock : Text) (o : Result A × World) → (closing host codec sock o).1.db ≡ o.1.db
  unfolding closing call
  closing_same sock (r, w) = refl

  closing-Keeps :
      {A : Type 0} (sock : Text) (m : Action A)
      → Keeps m
      → Keeps (λ w. closing host codec sock (m w))
  closing-Keeps sock m h = record { same_db = λ w. closing_same sock (m w) ∙ h.same_db w }

  pub exchange-Keeps :
      (sock context : Text) (make : World → Request) → Keeps (exchange host codec sock context make)
  unfolding exchange
  exchange-Keeps sock context make =
      >>=-Keeps (dial_vsock host sock guest_agent_port) _
        (dial_vsock-Keeps host sock guest_agent_port)
        λ conn. >>=-Keeps (gets make) _ (gets-Keeps make) λ req.
          closing-Keeps sock (wrapping context (send_request host codec conn req))
            (wrapping-Keeps context _ (send_request-Keeps conn req))

  pub query_status-Keeps : (sock : Text) → Keeps (query_status host codec sock)
  unfolding query_status
  query_status-Keeps sock = search (keeping, exchange-Keeps) depth 8

  pub notify_restore-Keeps : (sock : Text) → Keeps (notify_restore host codec sock)
  unfolding notify_restore
  notify_restore-Keeps sock = search (keeping, exchange-Keeps) depth 8

  pub start_proxy-Keeps : (sock : Text) (port : ℤ) → Keeps (start_proxy host codec sock port)
  unfolding start_proxy
  start_proxy-Keeps sock port = search (keeping, exchange-Keeps) depth 8

  pub stop_proxy-Keeps : (sock : Text) (port : ℤ) → Keeps (stop_proxy host codec sock port)
  unfolding stop_proxy
  stop_proxy-Keeps sock port = search (keeping, exchange-Keeps) depth 8
