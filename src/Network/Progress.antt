-- ===== src/Network/Progress.antt =====
-- Rounds of a transfer in which the network delivers: what the receiver takes while the sender waits.
use native.Mathlib.Decide.{dec_lt}
use mathlib.Core.Path.{subst}
use hybrid_ftp.Base.{
  ℕ, zero, suc, ◌+◌, ◌^◌, ◌≤◌, ◌<◌, ◌≡◌, refl, sym, Bool, List, [], ◌∷◌, ◌++◌, arith, length,
  get_or, All,
}
use hybrid_ftp.Header.{header_size}
use hybrid_ftp.Udp.{Endpoint, Datagram, continue, return, running, returned}
use hybrid_ftp.Receiver.{
  receive_buffer_size, ReceiverState, ReceiveEvent, ack_packet, receive_round,
}
use hybrid_ftp.Double.{Double}
use hybrid_ftp.Sender.{SenderConfig, data_packet}
use hybrid_ftp.Receiver.Progress.{IsKnown, got_datagram, receive_round-segment}
use hybrid_ftp.Sender.Window.{window_packets}
use hybrid_ftp.Network.{
  In, here, there, arrived, System, bytes_of, after_receive, receiver_in, receiver_moves, Waits,
  meanwhile,
}
use hybrid_ftp.Network.Arrivals.{segment_fits}

pub In-append : {A : Type 0} {a : A} {l : List A} (r : List A) → In a l → In a (l ++ r)
In-append r here = here
In-append r (there i) = there (In-append r i)

module _ {D : Type 0} ⦃f : Double D⦄ (cfg : SenderConfig D) where
  -- Each packet of a window is among those that are sent.
  pub window_packets-In :
      (segs : List (List ℕ)) (wnd seq count i : ℕ)
      → seq ≤ i
      → i < seq + count
      → In (data_packet wnd i (get_or segs i [])) (bytes_of (window_packets cfg segs wnd seq count))
  unfolding window_packets
  window_packets-In segs wnd seq zero i le lt = absurd (omega arith)
  window_packets-In segs wnd seq (suc count) i le lt = elim (dec_lt seq i) [
    | yes later ↦ there (window_packets-In segs wnd (seq + 1) count i (omega arith) (omega arith))
    | no first ↦
        let same : seq ≡ i = omega arith in
        subst
          (λ j.
            In (data_packet wnd j (get_or segs j []))
              (bytes_of (window_packets cfg segs wnd seq (suc count))))
          same here
  ]

module _ {D : Type 0} (window : ℕ) (sys : System D) (e : ReceiveEvent)
    (running_now : sys.receiver_phase ≡ running) where
  -- A round of a receiver that has not returned.
  receiver_moves-continue :
      (s : ReceiverState) (sent : List Datagram)
      → receive_round window sys.receiver_state e ≡ continue s sent
      → receiver_moves window sys e
        ≡ record sys { receiver_state = s; ack_channel = bytes_of sent ++ sys.ack_channel }
  unfolding receiver_moves receiver_in after_receive
  receiver_moves-continue s sent eq = rw (running_now, eq) refl

  pub receiver_moves-return :
      (result : Bool) (s : ReceiverState) (sent : List Datagram)
      → receive_round window sys.receiver_state e ≡ return result s sent
      → receiver_moves window sys e ≡ record sys {
        receiver_state = s;
        receiver_phase = returned result;
        ack_channel = bytes_of sent ++ sys.ack_channel;
      }
  unfolding receiver_moves receiver_in after_receive
  receiver_moves-return result s sent eq = rw (running_now, eq) refl

module _ {D : Type 0} ⦃f : Double D⦄ (cfg : SenderConfig D) (window : ℕ) (segs : List (List ℕ))
    (small : length segs < 2 ^ 32)
    (fits : All (λ seg. header_size + length seg ≤ receive_buffer_size) segs) (peer : Endpoint)
    (known : IsKnown peer) (start : System D) where
  -- The receiver has gone on, to `a` segments, while the sender waits.
  pub record Follows (a : ℕ) (sys : System D) : Type 0 where
    pub path : Waits cfg window segs start sys
    pub running_now : sys.receiver_phase ≡ running
    pub expected : sys.receiver_state.expected_seq ≡ a
    pub same_run : sys.sender_run ≡ start.sender_run
    pub same_channel : sys.data_channel ≡ start.data_channel

  accept_one :
      (w a : ℕ) (sys : System D)
      → a < length segs
      → In (data_packet w a (get_or segs a [])) start.data_channel
      → Follows a sys
      → (sys' : System D) × Follows (a + 1) sys' × In (ack_packet window (a + 1)) sys'.ack_channel
  accept_one w a sys more inside g =
      let s = sys.receiver_state in
      let seg = get_or segs a [] in
      let bytes = data_packet w a seg in
      let accepted : ReceiverState = record {
        expected_seq = s.expected_seq + 1;
        out_data = s.out_data ++ seg;
        sender = peer;
      } in
      let ack : Datagram = record { bytes = ack_packet window (s.expected_seq + 1); peer = peer } in
      let sys' : System D = record sys {
        receiver_state = accepted;
        ack_channel = ack.bytes ∷ sys.ack_channel;
      } in
      let round : receive_round window s (got_datagram bytes peer) ≡ continue accepted (ack ∷ []) =
        subst
          (λ j.
            receive_round window s (got_datagram (data_packet w j seg) peer)
            ≡ continue accepted (ack ∷ []))
          g.expected
          (receive_round-segment window s peer w seg (omega (arith, g.expected))
            (segment_fits segs a more fits) known) in
      let arrival =
        arrived (record { bytes = bytes; peer = peer })
          (subst (In bytes) (sym g.same_channel) inside) in
      let moved =
        receiver_moves-continue window sys (got_datagram bytes peer) g.running_now accepted
          (ack ∷ []) round in
      (
        sys',
        record {
          path = subst (Waits cfg window segs start) moved (meanwhile g.path _ arrival);
          running_now = g.running_now;
          expected = omega (arith, g.expected);
          same_run = g.same_run;
          same_channel = g.same_channel;
        },
        subst (λ j. In (ack_packet window (j + 1)) sys'.ack_channel) g.expected here,
      )

  -- It takes all the segments of a window, one round each, and its last ACK is for all of them.
  pub accept_all :
      (w more a : ℕ) (sys : System D)
      → a + more < length segs
      → ((i : ℕ)
          → a ≤ i
          → i < a + suc more
          → In (data_packet w i (get_or segs i [])) start.data_channel)
      → Follows a sys
      → (sys' : System D) × Follows (a + suc more) sys'
        × In (ack_packet window (a + suc more)) sys'.ack_channel
  accept_all w zero a sys le inside g =
      accept_one w a sys (omega arith) (inside a (omega arith) (omega arith)) g
  accept_all w (suc more) a sys le inside g =
      let (mid, g', _) =
        accept_one w a sys (omega arith) (inside a (omega arith) (omega arith)) g in
      let (sys', g'', acked) =
        accept_all w more (a + 1) mid (omega arith)
          (λ i le' lt. inside i (omega arith) (omega arith)) g' in
      let same : a + 1 + suc more ≡ a + suc (suc more) = omega arith in
      (
        sys',
        subst (λ j. Follows j sys') same g'',
        subst (λ j. In (ack_packet window j) sys'.ack_channel) same acked,
      )
