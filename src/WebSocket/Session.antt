-- ===== src/WebSocket/Session.antt =====
-- The connection of src/websocket.rs: what it sends, and how it makes messages of frames. What the
-- stream gives is a list of reads, which ends where the deadline has passed; what is written to it is
-- kept in `sent`. `none` is a panic.
use veil_os.WebSocket.Frame.{Opcode, Sender, encode, Frame, try_parse_frame}
use veil_os.Base.{◌>>=◌}
use veil_os.Base.{ℕ, zero, suc, Bool, false, List, [], ◌∷◌, ◌++◌, Option, none, some, if◌then◌else◌}

pub record WebSocket : Type 0 where
  pub sender : Sender
  pub rxbuf : List ℕ
  pub is_open : Bool
  pub sent : List ℕ

-- `encode`, and `write_all` of the frame.
unfoldable pub send : WebSocket → Opcode → List ℕ → WebSocket
send ws op payload =
    let made = encode ws.sender op payload in
    record ws { sender = made.0; sent = ws.sent ++ made.1 }

unfoldable pub send_text : WebSocket → List ℕ → WebSocket
send_text ws s = send ws Opcode.text s

unfoldable pub send_binary : WebSocket → List ℕ → WebSocket
send_binary ws payload = send ws Opcode.binary payload

unfoldable pub send_ping : WebSocket → List ℕ → WebSocket
send_ping ws payload = send ws Opcode.ping payload

unfoldable pub send_pong : WebSocket → List ℕ → WebSocket
send_pong ws payload = send ws Opcode.pong payload

-- The end of the stream itself is its own matter.
unfoldable pub close : WebSocket → WebSocket
close ws = if ws.is_open then record (send ws Opcode.close []) { is_open = false } else ws

-- A message begun.
pub record Partial : Type 0 where
  pub op : Opcode
  pub bytes : List ℕ

-- What a frame does: it returns a result, or the loop goes on.
pub record Step : Type 0 where
  pub socket : WebSocket
  pub begun : Partial
  pub result : Option (Opcode × List ℕ)

-- `if fin { return Some((msg_op, msg)); }`
unfoldable pub finish : WebSocket → Bool → Partial → Step
finish ws fin begun = record {
  socket = ws;
  begun = begun;
  result = if fin then some (begun.op, begun.bytes) else none;
}

-- `match op`, of a frame taken from the buffer.
unfoldable pub take_frame : WebSocket → Partial → Bool → Opcode → List ℕ → Step
take_frame ws begun fin Opcode.ping payload = record {
  socket = send_pong ws payload;
  begun = begun;
  result = none;
}
take_frame ws begun fin Opcode.pong payload = record {
  socket = ws;
  begun = begun;
  result = some (Opcode.pong, payload);
}
take_frame ws begun fin Opcode.close payload = record {
  socket = record ws { is_open = false };
  begun = begun;
  result = some (Opcode.close, payload);
}
take_frame ws begun fin Opcode.continuation payload =
    finish ws fin (record begun { bytes = begun.bytes ++ payload })
take_frame ws begun fin op payload =
    finish ws fin (record { op = op; bytes = begun.bytes ++ payload })

pub record Received : Type 0 where
  pub socket : WebSocket
  pub left : List (List ℕ)
  pub result : Option (Opcode × List ℕ)

-- The return, or another round of the loop.
unfoldable pub recv_after :
    (WebSocket → Partial → List (List ℕ) → Option Received)
    → List (List ℕ)
    → WebSocket
    → Partial
    → Option (Opcode × List ℕ)
    → Option Received
recv_after again reads ws begun none = again ws begun reads
recv_after again reads ws begun (some found) =
    some (record { socket = ws; left = reads; result = some found })

unfoldable pub recv_next :
    (WebSocket → Partial → List (List ℕ) → Option Received) → List (List ℕ) → Step → Option Received
recv_next again reads step = recv_after again reads step.socket step.begun step.result

-- `read_some`; no more of it is the deadline.
unfoldable pub read_more :
    (WebSocket → Partial → List (List ℕ) → Option Received)
    → WebSocket
    → Partial
    → List (List ℕ)
    → Option Received
read_more again ws begun [] = some (record { socket = ws; left = []; result = none })
read_more again ws begun (more ∷ reads) = again (record ws { rxbuf = ws.rxbuf ++ more }) begun reads

-- A frame from the buffer, or what the stream gives next.
unfoldable pub recv_round :
    (WebSocket → Partial → List (List ℕ) → Option Received)
    → WebSocket
    → Partial
    → List (List ℕ)
    → Option (Frame × List ℕ)
    → Option Received
recv_round again ws begun reads none = read_more again ws begun reads
recv_round again ws begun reads (some (frame, rest)) =
    recv_next again reads
      (take_frame (record ws { rxbuf = rest }) begun frame.fin frame.op frame.payload)

-- The two loops of `recv` in one: a round takes a frame, or reads. A round for each frame and for
-- each read is enough.
unfoldable pub recv_loop : ℕ → WebSocket → Partial → List (List ℕ) → Option Received
recv_loop zero ws begun reads = some (record { socket = ws; left = reads; result = none })
recv_loop (suc fuel) ws begun reads =
    try_parse_frame ws.rxbuf >>= λ parsed. recv_round (recv_loop fuel) ws begun reads parsed

unfoldable pub recv : ℕ → WebSocket → List (List ℕ) → Option Received
recv fuel ws reads = recv_loop fuel ws (record { op = Opcode.text; bytes = [] }) reads
