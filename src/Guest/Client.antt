-- ===== src/Guest/Client.antt =====
-- A request of labctl (vm/status.go) and the agent that serves it (guest-agent/src), joined.
use mathlib.Core.List.{append-nil}
use firecracker_lab.Prelude.{
  Text, codes, ◌<◌, ◌%◌, ◌^◌, some, [], ◌∷◌, ◌++◌, ◌≡◌, refl, sym, ap, ◌∙◌, arith,
}
use firecracker_lab.Prelude.Lists.{length}
use firecracker_lab.World.{
  write, receive, wrap_outcome, continue, Host, wrap, Result, ok, err, World, call, ask,
}
use firecracker_lab.World.Total.{IsUp}
use firecracker_lab.Agent.{
  Request, Response, Codec, put_uint32, read_full, read_frame, or_guest_error, send_request,
  decoded, eof,
}
use firecracker_lab.Agent.Frames.{
  uint32_of-put_uint32, read_prefix, read_full-append, read_frame-put_uint32,
}
use firecracker_lab.Guest.Machine.{Kernel, Machine, Reply, done, bail, next, pure}
use firecracker_lab.Guest.Dispatch.{dispatch}
use firecracker_lab.Guest.Server.{
  GuestCodec, read_exact, extract_payload, response_frame, handle_connection,
}

-- The frame of a message.
abbrev pub frame : Text → Text
frame body = put_uint32 (length body % 2 ^ 32) ++ body

-- What a connection has carried back when the agent closes it.
abbrev pub written : Reply Text × Machine → Text
written (done bytes, m) = bytes
written (bail e, m) = []

-- What labctl makes of the agent's answer, or of its absence.
abbrev pub seen : Reply Response × Machine → Result Response
seen (done r, m) = or_guest_error r
seen (bail e, m) = err (wrap (codes "read response") eof)

-- The two encodings agree on the request, and on an answer to it if there is one; each message is
-- shorter than 2^32 bytes.
pub record IsAgreed (codec : Codec) (guest : GuestCodec) (req : Request) (body : Text)
    (o : Reply Response × Machine) : Type 0 where
  pub marshalled : codec.marshal req ≡ some body
  pub received : guest.decode body ≡ some (some req)
  pub short : length body < 2 ^ 32
  pub answered :
      (r : Response) (m : Machine)
      → o ≡ (done r, m)
      → (codec.unmarshal (guest.encode r) ≡ some r) × (length (guest.encode r) < 2 ^ 32)

module _ (guest : GuestCodec) (kernel : Kernel) (req : Request) (body : Text) where
  -- The agent dispatches the request of a frame.
  handle_connection-frame :
      (m : Machine)
      → guest.decode body ≡ some (some req)
      → length body < 2 ^ 32
      → handle_connection guest kernel (frame body) m
        ≡ next (λ r. pure (response_frame guest r)) (dispatch kernel (some req) m)
  unfolding handle_connection read_exact extract_payload
  handle_connection-frame m decodes short =
      rw
        (
          read_prefix (length body % 2 ^ 32) body,
          uint32_of-put_uint32 (length body % 2 ^ 32) (omega arith),
          size,
          whole,
          decodes,
        )
        refl
    where
      size : length body % 2 ^ 32 ≡ length body
      size = omega arith

      whole : read_full (length body) body ≡ some (body, [])
      whole = ap (read_full (length body)) (sym (append-nil body)) ∙ read_full-append body []

-- What sendRequest makes of the bytes that have arrived.
abbrev received_from : Codec → Text → World → Result Response × World
received_from codec bytes w =
    continue (λ resp v. (or_guest_error resp, v))
      (wrap_outcome (codes "read response")
        (continue (λ body v. (decoded (codec.unmarshal body), v)) (read_frame bytes, w)))

read_frame-frame : (body : Text) → length body < 2 ^ 32 → read_frame (frame body) ≡ ok body
read_frame-frame body short =
    ap (λ s. read_frame (put_uint32 (length body % 2 ^ 32) ++ s)) (sym (append-nil body))
    ∙ read_frame-put_uint32 body [] short

module _ (codec : Codec) (guest : GuestCodec) (req : Request) (body : Text) where
  received_from-written :
      (o : Reply Response × Machine) (w : World)
      → IsAgreed codec guest req body o
      → (received_from codec (written (next (λ r. pure (response_frame guest r)) o)) w).0 ≡ seen o
  unfolding response_frame decoded read_frame read_full
  received_from-written (done r, m) w agreed =
      rw
        (
          read_frame-frame (guest.encode r) ((agreed.answered r m refl).1),
          (agreed.answered r m refl).0,
        )
        refl
  received_from-written (bail e, m) w agreed = refl

  module _ (host : Host) (kernel : Kernel) where
    -- On a host where no call fails, with an agent at the other end of the connection that answers
    -- the frame that labctl has written: a request returns the answer that the agent's dispatch
    -- gives to that very request, as an error if it is one, and fails if dispatch fails.
    pub send_request-dispatch :
        (sock : Text) (m : Machine) (w : World)
        → IsAgreed codec guest req body (dispatch kernel (some req) m)
        → IsUp host
        → host.output
            (write sock body ∷ write sock (put_uint32 (length body % 2 ^ 32)) ∷ w.log)
            (receive sock)
          ≡ written (handle_connection guest kernel (frame body) m)
        → (send_request host codec (record { sock = sock; buffered = [] }) req w).0
          ≡ seen (dispatch kernel (some req) m)
    unfolding send_request call ask
    send_request-dispatch sock m w agreed up joined =
        rw
          (
            agreed.marshalled,
            up,
            up,
            up,
            joined,
            handle_connection-frame guest kernel req body m agreed.received agreed.short,
          )
          (received_from-written (dispatch kernel (some req) m) _ agreed)
