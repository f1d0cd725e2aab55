-- ===== src/Network/Windows.antt =====
-- One window of a transfer over src/rdt/SlidingWindow.cpp that the network delivers, and the FIN: each is
-- one round of the sender.
use mathlib.Core.Path.{subst}
use hybrid_ftp.Base.{
  ℕ, suc, ◌+◌, ◌-◌, ◌^◌, ◌≤◌, ◌<◌, min, max, ◌≡◌, refl, sym, ap, ◌∙◌, ◌⊎◌, inl, inr, true, none,
  List, [], ◌∷◌, ◌++◌, arith, ltb, ltb→lt, not_ltb→le, Bool-cases, length, get_or, All,
}
use hybrid_ftp.Header.{header_size}
use hybrid_ftp.Udp.{Endpoint, Datagram, running, returned}
use hybrid_ftp.Receiver.{receive_buffer_size, ReceiveEvent, ack_packet, fin_ack_packet}
use hybrid_ftp.Double.{Double}
use hybrid_ftp.Sender.{
  SenderConfig, SenderState, SendEvent, data_packet, fin_packet, segment_count,
  compute_effective_window,
}
use hybrid_ftp.Sender.Run.{
  SendPhase, sending, closing, sent_result, closing_phase, phase_after, send_step,
}
use hybrid_ftp.Receiver.Progress.{IsKnown, got_datagram, receive_round-fin}
use hybrid_ftp.Sender.Window.{compute_effective_window_bounds, window_packets}
use hybrid_ftp.Sender.Sent.{send_step-sent}
use hybrid_ftp.Sender.Progress.{from_receiver, good_round, send_step-ack, send_step-fin_ack}
use hybrid_ftp.Network.{
  In, here, arrived, System, bytes_of, receiver_moves, sender_sends, sender_ends, Waits, at_once,
  meanwhile, Step, sender_step,
}
use hybrid_ftp.Network.Progress.{In-append, window_packets-In, receiver_moves-return, accept_all}

-- Where both ends agree on the number of segments that have passed, and nothing is in flight.
pub record IsAt {D : Type 0} (a : ℕ) (phase : SendPhase) (sys : System D) : Type 0 where
  pub phase_eq : sys.sender_run.phase ≡ phase
  pub base_eq : sys.sender_run.state.base ≡ a
  pub next_eq : sys.sender_run.state.next_seq ≡ a
  pub expected : sys.receiver_state.expected_seq ≡ a
  pub running_now : sys.receiver_phase ≡ running

-- Both ends have returned true.
abbrev pub IsDone : {D : Type 0} → System D → Type 0
IsDone sys = (sys.sender_run.phase ≡ sent_result true) × (sys.receiver_phase ≡ returned true)

-- What follows a window: the next one, or the FIN loop.
abbrev pub IsAfter : {D : Type 0} → SenderConfig D → List (List ℕ) → ℕ → System D → Type 0
IsAfter cfg segs a sys =
    (IsAt a sending sys × (a < length segs))
    ⊎ (IsAt a (closing_phase cfg.max_retransmit_rounds) sys × (a ≡ length segs))

module _ {D : Type 0} ⦃f : Double D⦄ (cfg : SenderConfig D) (window : ℕ) (segs : List (List ℕ))
    (hw : window < 2 ^ 16) (small : length segs + max 1 cfg.max_window_segments < 2 ^ 32)
    (fits : All (λ seg. header_size + length seg ≤ receive_buffer_size) segs) (peer : Endpoint)
    (known : IsKnown peer) where
  count_small : length segs < 2 ^ 32
  count_small = omega arith

  -- How a round of the sender ends, from what `send_step` gives.
  sender_ends_at :
      (sys sys' : System D) (e : SendEvent) (s' : SenderState D) (a : ℕ) (l : List Datagram)
      → sys'.sender_run ≡ record { state = sys.sender_run.state; phase = sending }
      → send_step cfg segs (record { state = sys.sender_run.state; phase = sending }) e
        ≡ (record { state = s'; phase = phase_after cfg segs s' }, l)
      → s'.base ≡ a
      → s'.next_seq ≡ a
      → a ≤ length segs
      → sys'.receiver_state.expected_seq ≡ a
      → sys'.receiver_phase ≡ running
      → IsAfter cfg segs a (sender_ends cfg window segs sys' e)
  unfolding sender_ends phase_after
  sender_ends_at sys sys' e s' a l run step base_eq next_eq le expected running_now =
      let counted : segment_count segs ≡ length segs = unfold segment_count in omega arith in
      elim (Bool-cases (ltb s'.base (segment_count segs))) [
        | inl more ↦ inl (
          record {
            phase_eq = rw (run, step, more) refl;
            base_eq = rw (run, step) base_eq;
            next_eq = rw (run, step) next_eq;
            expected = expected;
            running_now = running_now;
          },
          omega (arith, ltb→lt _ _ more, counted),
        )
        | inr all ↦ inr (
          record {
            phase_eq = rw (run, step, all) refl;
            base_eq = rw (run, step) base_eq;
            next_eq = rw (run, step) next_eq;
            expected = expected;
            running_now = running_now;
          },
          omega (arith, not_ltb→le _ _ all, counted),
        )
      ]

  -- One window passes in one round of the sender.
  pub window_passes :
      (a : ℕ) (sys : System D)
      → IsAt a sending sys
      → a < length segs
      → (sys' : System D) × (b : ℕ) × Step cfg window segs sys sys'
        × (a < b)
        × IsAfter cfg segs b sys'
  unfolding sender_sends
  window_passes a sys g more =
      let s = sys.sender_run.state in
      let wnd : ℕ = compute_effective_window cfg s in
      let bounds = compute_effective_window_bounds cfg s in
      let count : ℕ = min (length segs - s.base) wnd in
      let some_sent : suc (count - 1) ≡ count = omega (arith, g.base_eq, bounds) in
      let e : SendEvent = good_round cfg (ack_packet window (s.base + count)) in
      let (s', step, base', next') =
        send_step-ack cfg window segs count_small s count hw (g.next_eq ∙ sym g.base_eq)
          (omega (arith, g.base_eq)) (omega (arith, bounds, g.base_eq)) refl in
      let run : sys.sender_run ≡ record { state = s; phase = sending } =
        ap (λ p. record { state = s; phase = p }) g.phase_eq in
      let sent : (send_step cfg segs sys.sender_run (record e { reply = none })).1
          ≡ window_packets cfg segs wnd s.base count =
        sym (send_step-sent cfg segs sys.sender_run e)
        ∙ ap (λ r. (send_step cfg segs r e).1) run
        ∙ ap (λ p. p.1) step in
      let start = sender_sends cfg window segs sys e in
      let carried : (i : ℕ)
          → s.base ≤ i
          → i < s.base + suc (count - 1)
          → In (data_packet wnd i (get_or segs i [])) start.data_channel =
        λ i le lt.
          subst (λ l. In (data_packet wnd i (get_or segs i [])) (bytes_of l ++ sys.data_channel))
            (sym sent)
            (In-append sys.data_channel
              (window_packets-In cfg segs wnd s.base count i le (omega (arith, some_sent)))) in
      let (mid, g', acked) =
        accept_all cfg window segs count_small fits peer known start wnd (count - 1) s.base start
          (omega (arith, g.base_eq, some_sent)) carried
          (record {
            path = at_once;
            running_now = g.running_now;
            expected = g.expected ∙ sym g.base_eq;
            same_run = refl;
            same_channel = refl;
          }) in
      let answered : In (ack_packet window (s.base + count)) mid.ack_channel =
        subst (λ c. In (ack_packet window (s.base + c)) mid.ack_channel) some_sent acked in
      (
        sender_ends cfg window segs mid e,
        s.base + count,
        sender_step sys e g'.path
            (arrived (from_receiver cfg (ack_packet window (s.base + count))) answered),
        omega (arith, g.base_eq, some_sent),
        sender_ends_at sys mid e s' (s.base + count) _ (g'.same_run ∙ run) step base' next'
            (omega (arith, g.base_eq)) (g'.expected ∙ ap (λ c. s.base + c) some_sent)
            g'.running_now,
      )

  -- The FIN and its answer, in one round of the sender.
  pub fin_passes :
      (left : ℕ) (sys : System D)
      → IsAt (length segs) (closing (suc left)) sys
      → (sys' : System D) × Step cfg window segs sys sys' × IsDone sys'
  unfolding sender_sends sender_ends
  fin_passes left sys g =
      let s = sys.sender_run.state in
      let n : ℕ = length segs in
      let wnd : ℕ = compute_effective_window cfg s in
      let e : SendEvent = good_round cfg (fin_ack_packet window n) in
      let e' : ReceiveEvent = got_datagram (fin_packet wnd n) peer in
      let step = send_step-fin_ack cfg window segs count_small s left hw in
      let run : sys.sender_run ≡ record { state = s; phase = closing (suc left) } =
        ap (λ p. record { state = s; phase = p }) g.phase_eq in
      let sent : (send_step cfg segs sys.sender_run (record e { reply = none })).1
          ≡ from_receiver cfg (fin_packet wnd n) ∷ [] =
        sym (send_step-sent cfg segs sys.sender_run e)
        ∙ ap (λ r. (send_step cfg segs r e).1) run
        ∙ ap (λ p. p.1) step in
      let start = sender_sends cfg window segs sys e in
      let carried : In (fin_packet wnd n) start.data_channel =
        subst (λ l. In (fin_packet wnd n) (bytes_of l ++ sys.data_channel)) (sym sent) here in
      let reply : Datagram = record { bytes = fin_ack_packet window n; peer = peer } in
      let mid : System D = record start {
        receiver_state = record sys.receiver_state { sender = peer };
        receiver_phase = returned true;
        ack_channel = reply.bytes ∷ sys.ack_channel;
      } in
      let moved : receiver_moves window start e' ≡ mid =
        receiver_moves-return window start e' g.running_now true _ (reply ∷ [])
          (receive_round-fin window sys.receiver_state peer wnd n count_small) in
      let path : Waits cfg window segs start mid = subst (Waits cfg window segs start) moved (
        meanwhile at_once e'
          (arrived (record { bytes = fin_packet wnd n; peer = peer }) carried)) in
      (
        sender_ends cfg window segs mid e,
        sender_step sys e path (arrived (from_receiver cfg (fin_ack_packet window n)) here),
        (rw (run, step) refl, refl),
      )
