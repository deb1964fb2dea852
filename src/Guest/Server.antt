-- ===== src/Guest/Server.antt =====
-- A connection to the agent (guest-agent/src/transport/vsock.rs). The protobuf encoding (prost) is
-- a parameter.
use firecracker_lab.Prelude.{Text, codes, ℕ, ◌%◌, ◌^◌, Option, none, some, ◌++◌}
use firecracker_lab.Prelude.Lists.{length}
use firecracker_lab.Agent.{Request, Response, put_uint32, uint32_of, read_full}
use firecracker_lab.Guest.Machine.{Kernel, Action, pure, raise, ◌>>=◌}
use firecracker_lab.Guest.Dispatch.{dispatch}

-- `Request::decode` and `Response::encode_to_vec`.
pub record GuestCodec : Type 0 where
  pub decode : Text → Option (Option Request)
  pub encode : Response → Text

unfoldable pub read : Option (Text × Text) → Action (Text × Text)
read none = raise (codes "failed to fill whole buffer")
read (some parts) = pure parts

-- `read_exact` of n bytes from what arrives before the other side closes.
unfoldable pub read_exact : ℕ → Text → Action (Text × Text)
unfolding read
read_exact n s = read (read_full n s)

unfoldable pub decoded : Option (Option Request) → Action (Option Request)
decoded none = raise (codes "failed to decode Protobuf message")
decoded (some req) = pure req

module _ (codec : GuestCodec) where
  -- The request, from the number of its bytes and what arrives behind them.
  unfoldable pub extract_payload : ℕ → Text → Action (Option Request)
  unfolding decoded
  extract_payload size s = do (body, rest) ← read_exact size s; decoded (codec.decode body)

  -- What `send_response` writes.
  unfoldable pub response_frame : Response → Text
  response_frame r = put_uint32 (length (codec.encode r) % 2 ^ 32) ++ codec.encode r

  -- From the bytes that arrive to those that it writes; after an error it writes none.
  unfoldable pub handle_connection : Kernel → Text → Action Text
  handle_connection kernel s = do
    (prefix, rest) ← read_exact 4 s
    req ← extract_payload (uint32_of prefix) rest
    response ← dispatch kernel req
    pure (response_frame response)
