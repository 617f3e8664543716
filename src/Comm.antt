-- ===== src/Comm.antt =====
-- comm.go: the byte stream from the router is cut into packets (`listen`), a packet is checked and
-- passed on (`handleReceive`).
pub mod Stream
pub mod Receive
use go_adstc.Prelude.{ℕ, zero, suc, ◌+◌, List, [], ◌∷◌, ◌++◌, length, drop, Option, none, some}
use go_adstc.Prelude.{Bool, true, false, not, ltb, ◌==◌, if◌then◌else◌}
use go_adstc.Go.Result.{Result, ok, err, panic}
use go_adstc.Go.Binary.{read_full, read_struct, read_over, read_padded}
use go_adstc.Ams.{AmsTcpHeader, AmsHeader, tcp_layout, tcp_of, header_layout, header_of}
use go_adstc.Ams.{command_device_notification}

-- What `listen` hands on: to the channel systemResponse, or to a new handleReceive.
pub data Incoming : Type 0 where
  system : List ℕ → Incoming
  packet : List ℕ → Incoming

-- The body that follows a TCP header: `io.ReadFull(reader, data)` with its error dropped.
unfoldable pub listen_body : AmsTcpHeader → List ℕ → Incoming × List ℕ
listen_body header stream =
    let (body, rest) = read_padded header.length stream in
    (if ltb 0 header.system then system body else packet body, rest)

-- The rest of a round, after the header was read: `continue` when it could not be read.
unfoldable pub after_header : Result AmsTcpHeader × List ℕ → Option (Incoming × List ℕ)
after_header (ok h, rest) = some (listen_body h rest)
after_header (err e, rest) = none
after_header (panic, rest) = none

-- One round of the loop on what is still to come of the stream: `none` when the header cannot be
-- read, which uses up what is left.
unfoldable pub listen_round : List ℕ → Option (Incoming × List ℕ)
unfolding after_header
listen_round stream = after_header (read_struct tcp_layout tcp_of stream)

-- What the first rounds of the loop hand on, when the stream ends and the connection is not shut
-- down: a round that cannot read its header continues, and the next one finds nothing to read.
unfoldable pub listen_loop : ℕ → List ℕ → List Incoming
listen_loop zero stream = []
listen_loop (suc rounds) stream = elim (listen_round stream) [
  | none ↦ listen_loop rounds []
  | some (incoming, rest) ↦ incoming ∷ listen_loop rounds rest
]

-- As many rounds as a stream can have packets, and one more.
unfoldable pub listen : List ℕ → List Incoming
listen stream = listen_loop (suc (length stream)) stream

-- What handleReceive does with a packet.
pub data Receipt : Type 0 where
  -- an error is logged, and the packet is dropped
  header_too_short body_wrong : Receipt
  -- conn.DeviceNotification(ctx, adsData)
  notification : List ℕ → Receipt
  -- `response <- adsData` on the channel of the request with this id
  answer : ℕ → List ℕ → Receipt
  -- no request with this id
  broadcast : ℕ → Receipt

-- The part of handleReceive behind its checks; `waiting` tells whether activeRequests has an id.
unfoldable pub dispatch : (ℕ → Bool) → AmsHeader → List ℕ → Receipt
dispatch waiting header ads_data =
    if header.command == command_device_notification
    then notification ads_data
    else if waiting header.invoke_id
    then answer header.invoke_id ads_data
    else broadcast header.invoke_id

-- What follows once the header was read; `ads_data` is data[32:].
unfoldable pub check_body : (ℕ → Bool) → Result AmsHeader × List ℕ → List ℕ → Receipt
check_body waiting (ok header, _) ads_data =
    if not (length ads_data == header.length) then body_wrong else dispatch waiting header ads_data
check_body waiting (err e, _) ads_data = header_too_short
check_body waiting (panic, _) ads_data = header_too_short

unfoldable pub handle_receive : (ℕ → Bool) → List ℕ → Receipt
unfolding dispatch check_body
handle_receive waiting bytes =
    if ltb (length bytes) 32
    then header_too_short
    else check_body waiting (read_struct header_layout header_of bytes) (drop 32 bytes)
