-- ===== src/WebSocket/Delivery.antt =====
-- A message arrives whatever the reads it comes in, and pings before it are answered
-- (src/websocket.rs).
use mathlib.Core.List.{append_assoc, append-nil}
use veil_os.WebSocket.Frame.{Opcode, Sender, encode, Frame, try_parse_frame}
use veil_os.WebSocket.Lengths.{IsOpcode}
use veil_os.WebSocket.RoundTrip.{final, try_parse_frame-encode}
use veil_os.WebSocket.Buffer.{extend, try_parse_frame-extend}
use veil_os.WebSocket.Session.{
  read_more, WebSocket, send_pong, send, Partial, finish, take_frame, Received, recv_after,
  recv_next, recv_round, recv_loop, recv,
}
use veil_os.Base.{◌>>=◌}
use veil_os.Base.{
  ℕ, zero, suc, ◌+◌, ◌^◌, ◌<◌, ◌≡◌, refl, sym, ap, ◌∙◌, ◌≢◌, ◌⊎◌, inl, inr, true, List, [], ◌∷◌,
  ◌++◌, Option, none, some, arith, some_inj, concat, length,
}

-- The bytes of frames that one end sends, the next after each seed.
unfoldable pub frames : Sender → List (List ℕ) → Opcode → List ℕ → List ℕ
frames s [] op payload = (encode s op payload).1
frames s (p ∷ pings) op payload =
    (encode s Opcode.ping p).1 ++ frames (encode s Opcode.ping p).0 pings op payload

-- The answers, in the order of the pings.
unfoldable pub pongs : Sender → List (List ℕ) → List ℕ
pongs s [] = []
pongs s (p ∷ pings) = (encode s Opcode.pong p).1 ++ pongs (encode s Opcode.pong p).0 pings

unfoldable pub IsShort : List (List ℕ) → Type 0
IsShort [] = Unit
IsShort (p ∷ pings) = (length p < 2 ^ 63) × IsShort pings

-- A buffer that is enough for a frame holds the frame that all bytes together start with.
ready_front :
    (b more : List ℕ) (f : Frame) (rest : List ℕ)
    → try_parse_frame b ≢ some none
    → try_parse_frame (b ++ more) ≡ some (some (f, rest))
    → (left : List ℕ) × (try_parse_frame b ≡ some (some (f, left))) × (left ++ more ≡ rest)
unfolding extend
ready_front b more f rest ready e =
    decide (try_parse_frame b) refl (sym e ∙ try_parse_frame-extend b more ready)
  where
    decide :
        (r : Option (Option (Frame × List ℕ)))
        → try_parse_frame b ≡ r
        → some (some (f, rest)) ≡ extend more (try_parse_frame b)
        → (left : List ℕ) × (try_parse_frame b ≡ some (some (f, left))) × (left ++ more ≡ rest)
    decide none q grown = absurd (let impossible = grown ∙ ap (extend more) q in cc)
    decide (some none) q grown = absurd (ready q)
    decide (some (some (g, left))) q grown =
        let pair = some_inj (some_inj (grown ∙ ap (extend more) q)) in
        (
          left,
          q ∙ ap (λ (w : Frame). some (some (w, left))) (sym (ap (λ w. w.0) pair)),
          sym (ap (λ w. w.1) pair),
        )

waits_or_ready : (o : Option (Option (Frame × List ℕ))) → (o ≡ some none) ⊎ (o ≢ some none)
waits_or_ready none = inr (λ w. absurd (cc))
waits_or_ready (some none) = inl refl
waits_or_ready (some (some x)) = inr (λ w. absurd (let impossible = some_inj w in cc))

-- What `recv` begins with.
abbrev start : Partial
start = record { op = Opcode.text; bytes = [] }

-- The message, the answers that went out, and what is left for the next call.
pub record Delivers (ws : WebSocket) (pings : List (List ℕ)) (op : Opcode) (payload later : List ℕ)
    (r : Received) : Type 0 where
  pub result_is : r.result ≡ some (op, payload)
  pub sent_is : r.socket.sent ≡ ws.sent ++ pongs ws.sender pings
  pub left_is : r.socket.rxbuf ++ concat r.left ≡ later

ping-IsOpcode : IsOpcode Opcode.ping
unfolding IsOpcode
ping-IsOpcode = tt

module _ (op : Opcode) (payload later : List ℕ)
    (message : (op ≡ Opcode.text) ⊎ (op ≡ Opcode.binary)) (room : length payload < 2 ^ 63) where
  message-IsOpcode : IsOpcode op
  unfolding IsOpcode
  message-IsOpcode = elim message [ inl e ↦ rw e tt | inr e ↦ rw e tt ]

  message_lem :
      (ws : WebSocket)
      → take_frame ws start true op payload ≡ record {
        socket = ws;
        begun = record { op = op; bytes = payload };
        result = some (op, payload);
      }
  unfolding take_frame finish
  message_lem ws = elim message [ inl e ↦ rw e refl | inr e ↦ rw e refl ]

  -- With so many rounds, all comes as it should.
  Arrives : ℕ → Type 0
  Arrives fuel =
      (peer : Sender) (pings : List (List ℕ)) (ws : WebSocket) (reads : List (List ℕ))
      → IsShort pings
      → ws.rxbuf ++ concat reads ≡ frames peer pings op payload ++ later
      → length pings + length reads < fuel
      → (r : Received) × (recv_loop fuel ws start reads ≡ some r)
        × Delivers ws pings op payload later r

  -- The first frame of those that are under way.
  first_frame :
      (peer : Sender) (pings : List (List ℕ))
      → IsShort pings
      → (f : Frame) × (rest : List ℕ) × (try_parse_frame (frames peer pings op payload ++ later)
          ≡ some (some (f, rest)))
  unfolding frames IsShort
  first_frame peer [] short =
      (_, _, try_parse_frame-encode op payload later message-IsOpcode room peer)
  first_frame peer (p ∷ pings) (short, shorts) =
      let behind = frames (encode peer Opcode.ping p).0 pings op payload ++ later in
      (
        final Opcode.ping p,
        behind,
        ap try_parse_frame (append_assoc (encode peer Opcode.ping p).1 _ later)
            ∙ try_parse_frame-encode Opcode.ping p behind ping-IsOpcode short peer,
      )

  module _ (fuel : ℕ) (ih : Arrives fuel) where
    waiting_step :
        (peer : Sender) (pings : List (List ℕ)) (ws : WebSocket) (reads : List (List ℕ))
        → IsShort pings
        → ws.rxbuf ++ concat reads ≡ frames peer pings op payload ++ later
        → length pings + length reads < suc fuel
        → try_parse_frame ws.rxbuf ≡ some none
        → (r : Received) × (recv_loop (suc fuel) ws start reads ≡ some r)
          × Delivers ws pings op payload later r
    unfolding recv_loop recv_round read_more Arrives
    waiting_step peer pings ws [] short e enough waits =
        let (f, rest, front) = first_frame peer pings short in
        let impossible =
          some_inj (sym waits ∙ ap try_parse_frame (sym (append-nil ws.rxbuf) ∙ e) ∙ front) in
        absurd (cc)
    waiting_step peer pings ws (c ∷ reads) short e enough waits =
        let (r, done, good) =
          ih peer pings (record ws { rxbuf = ws.rxbuf ++ c }) reads short
            (append_assoc ws.rxbuf c (concat reads) ∙ e) (omega arith) in
        (
          r,
          rw (waits, ◌>>=◌) done,
          record { result_is = good.result_is; sent_is = good.sent_is; left_is = good.left_is },
        )

    frame_step :
        (peer : Sender) (pings : List (List ℕ)) (ws : WebSocket) (reads : List (List ℕ))
        → IsShort pings
        → ws.rxbuf ++ concat reads ≡ frames peer pings op payload ++ later
        → length pings + length reads < suc fuel
        → try_parse_frame ws.rxbuf ≢ some none
        → (r : Received) × (recv_loop (suc fuel) ws start reads ≡ some r)
          × Delivers ws pings op payload later r
    unfolding recv_loop recv_round recv_next recv_after take_frame send_pong send frames pongs
        IsShort Arrives
    frame_step peer [] ws reads short e enough ready =
        let (left, here, rest) =
          ready_front ws.rxbuf (concat reads) (final op payload) later ready (
            ap try_parse_frame e
            ∙ try_parse_frame-encode op payload later message-IsOpcode room peer) in
        (
          record { socket = record ws { rxbuf = left }; left = reads; result = some (op, payload) },
          rw (here, ◌>>=◌)
              (ap (recv_next (recv_loop fuel) reads) (message_lem (record ws { rxbuf = left }))),
          record { result_is = refl; sent_is = sym (append-nil ws.sent); left_is = rest },
        )
    frame_step peer (p ∷ pings) ws reads (short, shorts) e enough ready =
        let behind = frames (encode peer Opcode.ping p).0 pings op payload ++ later in
        let (left, here, rest) =
          ready_front ws.rxbuf (concat reads) (final Opcode.ping p) behind ready (
            ap try_parse_frame (e ∙ append_assoc (encode peer Opcode.ping p).1 _ later)
            ∙ try_parse_frame-encode Opcode.ping p behind ping-IsOpcode short peer) in
        let (r, done, good) =
          ih (encode peer Opcode.ping p).0 pings (send_pong (record ws { rxbuf = left }) p) reads
            shorts rest (omega arith) in
        (
          r,
          rw (here, ◌>>=◌) done,
          record {
            result_is = good.result_is;
            sent_is = good.sent_is ∙ append_assoc ws.sent (encode ws.sender Opcode.pong p).1 _;
            left_is = good.left_is;
          },
        )

  arrives : (fuel : ℕ) → Arrives fuel
  unfolding Arrives
  arrives zero peer pings ws reads short e enough = absurd (omega arith)
  arrives (suc fuel) peer pings ws reads short e enough =
      elim (waits_or_ready (try_parse_frame ws.rxbuf)) [
        | inl waits ↦ waiting_step fuel (arrives fuel) peer pings ws reads short e enough waits
        | inr ready ↦ frame_step fuel (arrives fuel) peer pings ws reads short e enough ready
      ]

-- Let the peer send pings and then a text or binary message, as frames one after the other, masked
-- or not, each payload shorter than 2^63 bytes, with any bytes behind them; and let these come in
-- any reads whatever, even one byte at a time, part of them in the buffer already. Given a round
-- for each ping and each read, and one more, recv returns that message with no panic; it has sent
-- a pong for each ping, with the bytes of the ping and in their order; and what is left in the
-- buffer and in the reads is just the bytes behind the message.
pub recv-Delivers :
    (op : Opcode) (payload later : List ℕ) (peer : Sender) (pings : List (List ℕ)) (ws : WebSocket)
    (reads : List (List ℕ)) (fuel : ℕ)
    → (op ≡ Opcode.text) ⊎ (op ≡ Opcode.binary)
    → length payload < 2 ^ 63
    → IsShort pings
    → ws.rxbuf ++ concat reads ≡ frames peer pings op payload ++ later
    → length pings + length reads < fuel
    → (r : Received) × (recv fuel ws reads ≡ some r) × Delivers ws pings op payload later r
unfolding recv Arrives
recv-Delivers op payload later peer pings ws reads fuel message room short e enough =
    arrives op payload later message room fuel peer pings ws reads short e enough
