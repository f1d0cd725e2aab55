-- ===== src/Network/Runs.antt =====
-- What each end has been given in a transfer: the inputs of the rounds of `sendData` and of
-- `receiveData` in src/rdt/SlidingWindow.cpp, apart from each other.
use hybrid_ftp.Base.{ℕ, ◌≡◌, refl, sym, ap, ◌∙◌, List, [], ◌∷◌, ◌++◌, arith}
use hybrid_ftp.Udp.{Endpoint, Outcome, continue, return, Phase, running, returned}
use hybrid_ftp.Receiver.{ReceiverState, ReceiveEvent, receive_round, start_receiver, receive_loop}
use hybrid_ftp.Double.{Double}
use hybrid_ftp.Sender.{SenderConfig, SendEvent, start_sender}
use hybrid_ftp.Sender.Run.{sending, SenderRun, send_step, send_loop}
use hybrid_ftp.Network.{
  System, after_receive, receiver_in, receiver_moves, sender_sends, sender_ends, Waits, at_once,
  meanwhile, Step, sender_step, receiver_step, Reach, begin, next, initial,
}

module _ {D : Type 0} ⦃f : Double D⦄ (cfg : SenderConfig D) (segs : List (List ℕ)) where
  send_loop-snoc :
      (r : SenderRun D) (es : List SendEvent) (e : SendEvent)
      → send_loop cfg segs r (es ++ e ∷ []) ≡ (send_step cfg segs (send_loop cfg segs r es) e).0
  unfolding send_loop
  send_loop-snoc r [] e = refl
  send_loop-snoc r (e' ∷ es) e = send_loop-snoc (send_step cfg segs r e').0 es e

-- One more round of a receiver, if it has not returned.
received_more : ℕ → ReceiverState × Phase → ReceiveEvent → ReceiverState × Phase
received_more window (s, running) e = receive_loop window s (e ∷ [])
received_more window (s, returned result) e = (s, returned result)

receive_loop-snoc :
    (window : ℕ) (s : ReceiverState) (es : List ReceiveEvent) (e : ReceiveEvent)
    → receive_loop window s (es ++ e ∷ []) ≡ received_more window (receive_loop window s es) e
unfolding receive_loop received_more
receive_loop-snoc window s [] e = refl
receive_loop-snoc window s (e' ∷ es) e =
    on_outcome (receive_round window s e') refl (λ s'. receive_loop-snoc window s' es e)
  where
    on_outcome :
        (o : Outcome ReceiverState)
        → receive_round window s e' ≡ o
        → ((s' : ReceiverState)
            → receive_loop window s' (es ++ e ∷ [])
              ≡ received_more window (receive_loop window s' es) e)
        → receive_loop window s ((e' ∷ es) ++ e ∷ [])
          ≡ received_more window (receive_loop window s (e' ∷ es)) e
    on_outcome (continue s' sent) eq ih = rw (receive_loop, eq) (ih s')
    on_outcome (return result s' sent) eq ih = rw (receive_loop, eq) refl

receiver_moves-received_more :
    {D : Type 0} (window : ℕ) (sys : System D) (e : ReceiveEvent)
    → received_more window (sys.receiver_state, sys.receiver_phase) e
      ≡ ((receiver_moves window sys e).receiver_state, (receiver_moves window sys e).receiver_phase)
unfolding receiver_moves receiver_in after_receive received_more receive_loop
receiver_moves-received_more window sys e = in_phase sys.receiver_phase refl
  where
    on_outcome :
        (o : Outcome ReceiverState)
        → receive_round window sys.receiver_state e ≡ o
        → sys.receiver_phase ≡ running
        → receive_loop window sys.receiver_state (e ∷ [])
          ≡ ((after_receive sys o).receiver_state, (after_receive sys o).receiver_phase)
    on_outcome (continue s' sent) eq on = rw (receive_loop, eq) (ap (λ phase. (s', phase)) (sym on))
    on_outcome (return result s' sent) eq on = rw (receive_loop, eq) refl

    in_phase :
        (phase : Phase)
        → sys.receiver_phase ≡ phase
        → received_more window (sys.receiver_state, phase) e ≡ (
          (receiver_in phase window sys e).receiver_state,
          (receiver_in phase window sys e).receiver_phase,
        )
    in_phase running eq = on_outcome (receive_round window sys.receiver_state e) refl eq
    in_phase (returned result) eq = ap (λ phase. (sys.receiver_state, phase)) (sym eq)

receiver_moves-same_run :
    {D : Type 0} (window : ℕ) (sys : System D) (e : ReceiveEvent)
    → (receiver_moves window sys e).sender_run ≡ sys.sender_run
unfolding receiver_moves receiver_in after_receive
receiver_moves-same_run window sys e = ground arith

module _ {D : Type 0} ⦃f : Double D⦄ (cfg : SenderConfig D) (window : ℕ) (segs : List (List ℕ))
    (peer : Endpoint) where
  -- The two functions on these inputs stand where the system does.
  pub record Runs (sys : System D) (sends : List SendEvent) (receives : List ReceiveEvent)
      : Type 0 where
    pub sender_eq :
        send_loop cfg segs (record { state = start_sender cfg; phase = sending }) sends
        ≡ sys.sender_run
    pub receiver_eq :
        receive_loop window (start_receiver peer) receives
        ≡ (sys.receiver_state, sys.receiver_phase)

  -- One more round of the receiver.
  one_more :
      (sys : System D) (receives : List ReceiveEvent) (e : ReceiveEvent)
      → receive_loop window (start_receiver peer) receives
        ≡ (sys.receiver_state, sys.receiver_phase)
      → receive_loop window (start_receiver peer) (receives ++ e ∷ []) ≡ (
        (receiver_moves window sys e).receiver_state,
        (receiver_moves window sys e).receiver_phase,
      )
  one_more sys receives e eq =
      receive_loop-snoc window (start_receiver peer) receives e
      ∙ ap (λ p. received_more window p e) eq
      ∙ receiver_moves-received_more window sys e

  Waits-receives :
      {start sys : System D} (receives : List ReceiveEvent)
      → receive_loop window (start_receiver peer) receives
        ≡ (start.receiver_state, start.receiver_phase)
      → Waits cfg window segs start sys
      → (all : List ReceiveEvent) × (receive_loop window (start_receiver peer) all
          ≡ (sys.receiver_state, sys.receiver_phase))
        × (sys.sender_run ≡ start.sender_run)
  Waits-receives receives eq at_once = (receives, eq, refl)
  Waits-receives receives eq (meanwhile {sys = sys} w e arrival) =
      let (all, eq', same) = Waits-receives receives eq w in
      (all ++ e ∷ [], one_more sys all e eq', receiver_moves-same_run window sys e ∙ same)

  Step-Runs :
      {sys sys' : System D} (sends : List SendEvent) (receives : List ReceiveEvent)
      → Runs sys sends receives
      → Step cfg window segs sys sys'
      → (sends' : List SendEvent) × (receives' : List ReceiveEvent) × Runs sys' sends' receives'
  unfolding sender_sends sender_ends
  Step-Runs sends receives g (receiver_step sys e arrival) = (
    sends,
    receives ++ e ∷ [],
    record {
      sender_eq = g.sender_eq ∙ sym (receiver_moves-same_run window sys e);
      receiver_eq = one_more sys receives e g.receiver_eq;
    },
  )
  Step-Runs sends receives g (sender_step {sys' = mid} sys e w arrival) =
      let (all, eq, same) = Waits-receives receives g.receiver_eq w in
      (
        sends ++ e ∷ [],
        all,
        record {
          sender_eq =
              send_loop-snoc cfg segs (record { state = start_sender cfg; phase = sending }) sends e
              ∙ ap (λ r. (send_step cfg segs r e).0) (g.sender_eq ∙ sym same);
          receiver_eq = eq;
        },
      )

  -- What a transfer has come to is what its two functions make of their inputs.
  pub Reach-Runs :
      {sys : System D}
      → Reach cfg window segs (initial cfg window segs peer) sys
      → (sends : List SendEvent) × (receives : List ReceiveEvent) × Runs sys sends receives
  unfolding send_loop receive_loop
  Reach-Runs begin = ([], [], record { sender_eq = refl; receiver_eq = refl })
  Reach-Runs (next r step) =
      let (sends, receives, g) = Reach-Runs r in Step-Runs sends receives g step
