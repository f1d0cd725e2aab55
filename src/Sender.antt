-- ===== src/Sender.antt =====
-- src/rdt/SlidingWindow.cpp, RDTWindowSender: the Go-Back-N sender with flow and congestion control.
-- Each round of its loops takes what the cancellation callback says, which `sendTo` calls succeed,
-- and what `recvFrom` returns.
pub mod Run
pub mod Segments
pub mod Window
pub mod Ends
pub mod Rounds
pub mod Steps
pub mod Sent
pub mod Progress
pub mod Blocked
use text.Mathlib.Text.{◌==◌ as str_eq}
use mathlib.Core.Option
use hybrid_ftp.Base.{
  ℕ, zero, suc, ◌+◌, ◌-◌, ◌%◌, ◌^◌, min, Bool, true, false, not, ◌&&◌, ◌||◌, Option, none, some,
  List, [], ◌∷◌, map, ltb, leb, ◌==◌, if◌then◌else◌, length, get_or, take, drop,
}
use hybrid_ftp.Header.{
  CustomUdpHeader, header_size, empty_header, flag_ack, flag_data, flag_fin, set_flag, has_flag,
  deserialize_header, verify_checksum, make_packet,
}
use hybrid_ftp.Udp.{Endpoint, Datagram, received, Outcome, continue, return}
use hybrid_ftp.Receiver.{u32_max}
use hybrid_ftp.Double.{Double}

-- `recvBuf` of `sendData`, and `ackBuf` of its FIN loop
abbrev pub ack_buffer_size : ℕ
ack_buffer_size = header_size + 64

-- The fields of the object that its setters and its constructor give.
pub record SenderConfig (D : Type 0) : Type 0 where
  pub dest : Endpoint
  pub mss : ℕ
  pub initial_cwnd : D
  pub initial_ssthresh : D
  pub max_window_segments : ℕ
  pub max_retransmit_rounds : ℕ

-- The fields of the object that `sendData` resets, and its local variables.
pub record SenderState (D : Type 0) : Type 0 where
  pub cwnd : D
  pub ssthresh : D
  pub recv_window : ℕ
  pub total_timeouts : ℕ
  pub total_packets_sent : ℕ
  pub base : ℕ
  pub next_seq : ℕ
  pub retry_rnd : ℕ
  pub last_duplicate_ack : ℕ
  pub duplicate_ack_count : ℕ

pub record SendEvent : Type 0 where
  pub cancel_before : Bool
  -- whether `sendTo` succeeds for the packet with this sequence number
  pub sends : ℕ → Bool
  pub cancel_after : Bool
  -- `none`: `recvFrom` failed, or its time ran out
  pub reply : Option Datagram

-- The loop that cuts the data into segments; `none`: it has not ended within the fuel.
unfoldable pub segments_loop : ℕ → ℕ → List ℕ → Option (List (List ℕ))
segments_loop fuel mss [] = some []
segments_loop zero mss (x ∷ xs) = none
segments_loop (suc fuel) mss (x ∷ xs) =
    let size = min mss (length (x ∷ xs)) in
    Option.map (λ segs. take size (x ∷ xs) ∷ segs) (segments_loop fuel mss (drop size (x ∷ xs)))

-- One empty segment for empty data.
unfoldable pub at_least_one : List (List ℕ) → List (List ℕ)
at_least_one [] = [] ∷ []
at_least_one (seg ∷ segs) = seg ∷ segs

unfoldable pub segments : ℕ → List ℕ → Option (List (List ℕ))
unfolding at_least_one
segments mss content = Option.map at_least_one (segments_loop (length content) mss content)

abbrev pub data_header : ℕ → ℕ → ℕ → CustomUdpHeader
data_header window seq size =
    set_flag
      (record empty_header {
        seq_num = seq;
        payload_len = size % 2 ^ 16;
        window_size = window % 2 ^ 16;
      })
      flag_data

-- `sendSegment`: what it hands to `sendTo`.
unfoldable pub data_packet : ℕ → ℕ → List ℕ → List ℕ
data_packet window seq payload = make_packet (data_header window seq (length payload)) payload

abbrev pub fin_header : ℕ → ℕ → CustomUdpHeader
fin_header window seq =
    set_flag (record empty_header { seq_num = seq; window_size = window % 2 ^ 16 }) flag_fin

-- `sendFIN`
unfoldable pub fin_packet : ℕ → ℕ → List ℕ
fin_packet window seq = make_packet (fin_header window seq) []

-- `N`, a `uint32_t`
unfoldable pub segment_count : List (List ℕ) → ℕ
segment_count segs = length segs % 2 ^ 32

-- What the loop over the window leaves: whether every `sendTo` went well, and what was sent.
pub record Filled (D : Type 0) : Type 0 where
  pub sent_all : Bool
  pub state : SenderState D
  pub sent : List Datagram

module _ {D : Type 0} ⦃f : Double D⦄ (cfg : SenderConfig D) where
  -- The state in which `sendData` enters its loop.
  abbrev pub start_sender : SenderState D
  start_sender = record {
    cwnd = cfg.initial_cwnd;
    ssthresh = cfg.initial_ssthresh;
    recv_window = f.to_u32 cfg.initial_ssthresh;
    total_timeouts = 0;
    total_packets_sent = 0;
    base = 0;
    next_seq = 0;
    retry_rnd = 0;
    last_duplicate_ack = u32_max;
    duplicate_ack_count = 0;
  }

  unfoldable pub compute_effective_window : SenderState D → ℕ
  compute_effective_window s =
      let cw = f.to_u32 (f.larger f.one (f.floor s.cwnd)) in
      let rw = if s.recv_window == 0 then 1 else s.recv_window in
      let eff = min cw (min rw cfg.max_window_segments) in if eff == 0 then 1 else eff

  -- The loop that sends the segments of the window; `rounds` counts the segments that are left, so
  -- its end is the test `nextSeq < N`.
  unfoldable pub fill_window :
      List (List ℕ) → (ℕ → Bool) → ℕ → (rounds : ℕ) → SenderState D → Filled D
  fill_window segs sends wnd zero s = record { sent_all = true; state = s; sent = [] }
  fill_window segs sends wnd (suc rounds) s =
      let seg = get_or segs s.next_seq [] in
      let s' = record s {
        total_packets_sent = (s.total_packets_sent + 1) % 2 ^ 32;
        next_seq = (s.next_seq + 1) % 2 ^ 32;
      } in
      let rest = fill_window segs sends wnd rounds s' in
      if not (ltb s.next_seq ((s.base + wnd) % 2 ^ 32))
      then record { sent_all = true; state = s; sent = [] }
      else if not (sends s.next_seq)
      then record { sent_all = false; state = s; sent = [] }
      else record rest {
        sent = record { bytes = data_packet wnd s.next_seq seg; peer = cfg.dest } ∷ rest.sent;
      }

  -- What a loss does to the congestion window, and Go-Back-N.
  pub multiplicative_decrease : SenderState D → SenderState D
  multiplicative_decrease s = record s {
    ssthresh = f.larger (f.divide s.cwnd f.two) f.one;
    cwnd = f.one;
    next_seq = s.base;
  }

  unfoldable pub timeout_round : SenderState D → List Datagram → Outcome (SenderState D)
  unfolding multiplicative_decrease
  timeout_round s sent =
      let s' = record s { total_timeouts = s.total_timeouts + 1; retry_rnd = s.retry_rnd + 1 } in
      if ltb cfg.max_retransmit_rounds s'.retry_rnd
      then return false s' sent
      else continue (multiplicative_decrease s') sent

  -- Slow start below `ssthresh`, congestion avoidance from there on, once for each new segment.
  unfoldable pub grow_cwnd : ℕ → D → D → D
  grow_cwnd zero ssthresh cwnd = cwnd
  grow_cwnd (suc n) ssthresh cwnd = grow_cwnd n ssthresh (
      f.smaller (f.add cwnd (if f.less cwnd ssthresh then f.one else f.divide f.one cwnd))
        (f.of_u32 cfg.max_window_segments))

  pub slide_window : ℕ → SenderState D → SenderState D
  slide_window ack s = record s {
    cwnd = grow_cwnd ((ack + 1 + 2 ^ 32 - s.base) % 2 ^ 32) s.ssthresh s.cwnd;
    base = (ack + 1) % 2 ^ 32;
    retry_rnd = 0;
    duplicate_ack_count = 0;
    last_duplicate_ack = u32_max;
  }

  pub duplicate_ack : ℕ → SenderState D → List Datagram → Outcome (SenderState D)
  unfolding multiplicative_decrease
  duplicate_ack ack s sent =
      let count = if ack == s.last_duplicate_ack then s.duplicate_ack_count + 1 else 1 in
      let s' = record s { last_duplicate_ack = ack; duplicate_ack_count = count } in
      let s'' = record s' { retry_rnd = s.retry_rnd + 1 } in
      if leb 3 count
      then (if ltb cfg.max_retransmit_rounds s''.retry_rnd
          then return false s'' sent
          else continue (record (multiplicative_decrease s'') { duplicate_ack_count = 0 }) sent)
      else continue s' sent

  -- The three branches on a valid ACK for `n` segments.
  unfoldable pub process_ack : ℕ → ℕ → SenderState D → List Datagram → Outcome (SenderState D)
  unfolding slide_window duplicate_ack
  process_ack n ack s sent =
      if leb s.base ack && ltb ack s.next_seq && ltb ack n
      then continue (slide_window ack s) sent
      else if ltb ack s.base || ack == u32_max
      then duplicate_ack ack s sent
      else continue s sent

  -- The round from `recvFrom` on.
  unfoldable pub handle_reply :
      ℕ → SenderState D → List Datagram → Option Datagram → Outcome (SenderState D)
  handle_reply n s sent none = timeout_round s sent
  handle_reply n s sent (some d) =
      let packet = received ack_buffer_size d in
      let h = deserialize_header packet in
      let s' = if ltb 0 h.window_size then record s { recv_window = h.window_size } else s in
      if ltb (length packet) header_size
      then timeout_round s sent
      else if not (verify_checksum h (drop header_size packet))
      then continue s sent
      else if not (has_flag h flag_ack)
      then continue s sent
      else if not (d.peer.port == cfg.dest.port) || not (str_eq d.peer.ip cfg.dest.ip)
      then continue s sent
      else process_ack n h.ack_num s' sent

  -- One round of the loop `while (base < N)`.
  unfoldable pub send_round : List (List ℕ) → SenderState D → SendEvent → Outcome (SenderState D)
  send_round segs s e =
      let wnd = compute_effective_window s in
      let filled = fill_window segs e.sends wnd (segment_count segs - s.next_seq) s in
      if e.cancel_before
      then return false s []
      else if not filled.sent_all
      then return false filled.state filled.sent
      else if e.cancel_after
      then return false filled.state filled.sent
      else handle_reply (segment_count segs) filled.state filled.sent e.reply
