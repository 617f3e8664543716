-- ===== src/Tests/Wire.antt =====
-- Runs of ams.go and comm.go.
use go_adstc.Prelude.{ℕ, ◌<◌, ◌≡◌, ◌≢◌, ◌≤◌, refl, arith, true, Bool, List, [], ◌∷◌, ◌++◌}
use go_adstc.Prelude.{length, drop, ◌==◌}
use go_adstc.Go.Result.{ok}
use go_adstc.Go.Bytes.{to_le, of_le}
use go_adstc.Go.Binary.{pack, unpack, read_struct}
use go_adstc.Ams.{
  NetId, AmsAddress, AmsHeader, encode, request_header, command_read, command_device_notification,
}
use go_adstc.Ams.Dotted.{string_to_net_id, net_id_text, string_to_net_id-text}
use go_adstc.Comm.{system, packet, listen, listen_loop}
use go_adstc.Comm.{answer, handle_receive}
use go_adstc.Comm.Stream.{Frame, stream_of, listen_settles, listen-stream_of}
use go_adstc.Comm.Receive.{packet_bytes, header_in, receive-encode}
use go_adstc.Comm.Receive.{handle_receive-answer}

abbrev local_id : NetId
local_id = record { b0 = 127; b1 = 0; b2 = 0; b3 = 1; b4 = 1; b5 = 1 }

abbrev plc : AmsAddress
plc = record { net_id = local_id; port = 851 }

abbrev me : AmsAddress
me = record { net_id = local_id; port = 10500 }

-- Only request 7 waits.
abbrev seven : ℕ → Bool
seven id = id == 7

abbrev frames : List Frame
frames =
    record { unknown1 = 0; system = 0; body = 1 ∷ 2 ∷ [] }
    ∷ record { unknown1 = 0; system = 16; body = 9 ∷ [] }
    ∷ []

abbrev small_request : AmsHeader
small_request = request_header plc me command_read (5 ∷ []) 7

packet_of_seven : handle_receive seven (packet_bytes small_request (5 ∷ [])) ≡ answer 7 (5 ∷ [])
unfolding handle_receive read_struct pack unpack to_le of_le
packet_of_seven = refl

string_to_net_id-text_example : string_to_net_id (net_id_text local_id) ≡ ok local_id
string_to_net_id-text_example = string_to_net_id-text local_id (omega arith)

stream_short : length (stream_of frames ++ (0 ∷ 0 ∷ [])) < 1000
unfolding pack to_le
stream_short = omega arith

listen_settles_example :
    listen_loop 1000 (stream_of frames ++ (0 ∷ 0 ∷ [])) ≡ listen (stream_of frames ++ (0 ∷ 0 ∷ []))
listen_settles_example = listen_settles 1000 (stream_of frames ++ (0 ∷ 0 ∷ [])) stream_short

listen-stream_of_example :
    listen (stream_of frames ++ (0 ∷ 0 ∷ [])) ≡ packet (1 ∷ 2 ∷ []) ∷ system (9 ∷ []) ∷ []
listen-stream_of_example = listen-stream_of frames (0 ∷ 0 ∷ []) (omega arith) (omega arith)

receive-encode_example :
    (bytes : List ℕ) × (listen (encode plc me command_read (5 ∷ []) 7) ≡ packet bytes ∷ [])
    × (handle_receive seven bytes ≡ answer 7 (5 ∷ []))
receive-encode_example =
    receive-encode plc me command_read (5 ∷ []) 7 seven (omega arith) (omega arith) (omega arith)
      (omega arith) (omega arith) (omega arith) refl

handle_receive-answer_example :
    (32 ≤ length (packet_bytes small_request (5 ∷ [])))
    × (seven 7 ≡ true)
    × (5 ∷ [] ≡ drop 32 (packet_bytes small_request (5 ∷ [])))
    × (7 ≡ (header_in (packet_bytes small_request (5 ∷ []))).invoke_id)
    × (length {A = ℕ} (5 ∷ []) ≡ (header_in (packet_bytes small_request (5 ∷ []))).length)
    × ((header_in (packet_bytes small_request (5 ∷ []))).command ≢ command_device_notification)
handle_receive-answer_example =
    handle_receive-answer seven (packet_bytes small_request (5 ∷ [])) (5 ∷ []) 7 packet_of_seven
