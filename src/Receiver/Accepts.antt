-- ===== src/Receiver/Accepts.antt =====
-- What every round of the receiver keeps, if each packet that passes its check was sent by the
-- sender of the segments `segs`: its output is the front part of the data that it has counted.
use mathlib.Core.List.{flatten}
use text.Mathlib.Text.{◌==◌ as str_eq}
use hybrid_ftp.Base.{
  ℕ, zero, suc, ◌+◌, ◌%◌, ◌^◌, ◌≤◌, ◌<◌, ◌≡◌, refl, sym, ap, ◌∙◌, ◌⊎◌, inl, inr, Bool, true, false,
  ◌||◌, Option, none, some, List, [], ◌∷◌, ◌++◌, append-nil, append_assoc, arith, ltb, ◌==◌,
  if◌then◌else◌, not_ltb→le, ==_iff, Bool-cases, length, get_or, take, All,
}
use hybrid_ftp.Header.{header_size, set_flag}
use hybrid_ftp.Header.Detection.{passes}
use hybrid_ftp.Udp.{Datagram, received, Outcome, continue, return}
use hybrid_ftp.Receiver.{
  receive_buffer_size, ReceiverState, ReceiveEvent, ack_packet, fin_ack_packet, send_cumulative_ack,
  accept_segment, receive_packet, receive_incoming, receive_round,
}
use hybrid_ftp.Receiver.Rounds.{receive_packet-damaged, receive_packet-data, receive_packet-fin}
use hybrid_ftp.Sender.{data_packet, fin_packet}
use hybrid_ftp.Sender.Segments.{data_packet-Reads, fin_packet-Reads}

pub flatten-take_next :
    (k : ℕ) (segs : List (List ℕ))
    → k < length segs
    → flatten (take (suc k) segs) ≡ flatten (take k segs) ++ get_or segs k []
unfolding flatten
flatten-take_next k [] h = absurd (omega arith)
flatten-take_next zero (seg ∷ segs) h = append-nil seg
flatten-take_next (suc k) (seg ∷ segs) h =
    ap (λ r. seg ++ r) (flatten-take_next k segs (omega arith))
    ∙ sym (append_assoc seg (flatten (take k segs)) (get_or segs k []))

pub record HasAccepted (segs : List (List ℕ)) (s : ReceiverState) : Type 0 where
  pub expected_le : s.expected_seq ≤ length segs
  pub out_eq : s.out_data ≡ flatten (take s.expected_seq segs)

-- An ACK for at most `accepted` segments, or the answer to the FIN.
abbrev pub IsAckPacket : ℕ → List (List ℕ) → ℕ → List ℕ → Type 0
IsAckPacket window segs accepted bytes =
    ((k : ℕ) × (k ≤ accepted) × (bytes ≡ ack_packet window k))
    ⊎ (bytes ≡ fin_ack_packet window (length segs))

-- What the receiver answers once it has accepted `accepted` segments: the ACK of these, or the answer
-- to the FIN.
abbrev pub IsAnswer : ℕ → List (List ℕ) → ℕ → List ℕ → Type 0
IsAnswer window segs accepted bytes =
    (bytes ≡ ack_packet window accepted) ⊎ (bytes ≡ fin_ack_packet window (length segs))

-- What the sender's packets look like to a receiver that has accepted `accepted` segments.
abbrev pub IsTruePacket : List (List ℕ) → ℕ → List ℕ → Type 0
IsTruePacket segs accepted bytes =
    ((i : ℕ) × (w : ℕ) × (i < length segs) × (bytes ≡ data_packet w i (get_or segs i [])))
    ⊎ ((w : ℕ) × (bytes ≡ fin_packet w (length segs)) × (accepted ≡ length segs))

abbrev pub IsTrueIncoming : List (List ℕ) → ℕ → Option Datagram → Type 0
IsTrueIncoming segs accepted none = Unit
IsTrueIncoming segs accepted (some d) =
    (length (received receive_buffer_size d) < header_size)
    ⊎ (passes (received receive_buffer_size d) ≡ false)
    ⊎ IsTruePacket segs accepted (received receive_buffer_size d)

module _ (window : ℕ) (segs : List (List ℕ)) where
  -- A round that began with `accepted` segments: none is lost, and only a complete transfer returns
  -- true.
  abbrev pub RoundIn : ℕ → Outcome ReceiverState → Type 0
  RoundIn accepted (continue s sent) =
      HasAccepted segs s
      × (accepted ≤ s.expected_seq)
      × All (λ (d : Datagram). IsAnswer window segs s.expected_seq d.bytes) sent
  RoundIn accepted (return result s sent) =
      HasAccepted segs s
      × (accepted ≤ s.expected_seq)
      × All (λ (d : Datagram). IsAnswer window segs s.expected_seq d.bytes) sent
      × (result ≡ true → s.expected_seq ≡ length segs)

  pub record Round (accepted : ℕ) (o : Outcome ReceiverState) : Type 0 where
    pub holds : RoundIn accepted o

  Round-if :
      {accepted : ℕ} (b : Bool) {o o' : Outcome ReceiverState}
      → (b ≡ true → Round accepted o)
      → (b ≡ false → Round accepted o')
      → Round accepted (if b then o else o')
  Round-if true h h' = h refl
  Round-if false h h' = h' refl

  send_cumulative_ack-IsAnswer :
      (s : ReceiverState)
      → All
          (λ (d : Datagram). IsAnswer window segs s.expected_seq d.bytes)
          (send_cumulative_ack window s)
  unfolding send_cumulative_ack
  send_cumulative_ack-IsAnswer s = elim (Bool-cases (str_eq s.sender.ip "" || s.sender.port == 0)) [
    | inl unknown ↦ rw unknown tt
    | inr known ↦ rw known (inl refl, tt)
  ]

  -- A round that only acknowledges what was accepted.
  answered :
      (s : ReceiverState)
      → HasAccepted segs s
      → Round s.expected_seq (continue s (send_cumulative_ack window s))
  answered s g = record { holds = (g, omega arith, send_cumulative_ack-IsAnswer s) }

  stopped : (s : ReceiverState) → HasAccepted segs s → Round s.expected_seq (return false s [])
  stopped s g = record { holds = (g, omega arith, tt, λ e. cc) }

  accept_segment-HasAccepted :
      (s : ReceiverState) (i : ℕ)
      → length segs < 2 ^ 32
      → i < length segs
      → i ≡ s.expected_seq
      → HasAccepted segs s
      → HasAccepted segs (accept_segment window s (get_or segs i []))
        × ((accept_segment window s (get_or segs i [])).expected_seq ≡ suc s.expected_seq)
  unfolding accept_segment
  accept_segment-HasAccepted s i small lt e g =
      let next : (s.expected_seq + 1) % 2 ^ 32 ≡ suc s.expected_seq =
        omega (arith, g.expected_le) in
      (
        record {
          expected_le = omega arith;
          out_eq =
              ap (λ l. l ++ get_or segs i []) g.out_eq
              ∙ ap (λ j. flatten (take s.expected_seq segs) ++ get_or segs j []) e
              ∙ sym (flatten-take_next s.expected_seq segs (omega arith))
              ∙ ap (λ j. flatten (take j segs)) (sym next);
        },
        next,
      )

  receive_packet-Round :
      (s : ReceiverState) (packet : List ℕ)
      → length segs < 2 ^ 32
      → IsTruePacket segs s.expected_seq packet
      → HasAccepted segs s
      → Round s.expected_seq (receive_packet window s packet)
  unfolding set_flag
  receive_packet-Round s packet small (inl (i, w, lt, e)) g =
      let seg : List ℕ = get_or segs i [] in
      let reads = data_packet-Reads w i seg (omega arith) in
      rw (e, receive_packet-data window s reads refl)
        (Round-if (i == s.expected_seq)
          (λ turn.
            let (g', next) =
              accept_segment-HasAccepted s i small lt ((==_iff i s.expected_seq).0 turn) g in
            record {
              holds = (
                g',
                omega (arith, next),
                send_cumulative_ack-IsAnswer (accept_segment window s seg),
              );
            })
          (λ _. answered s g))
  receive_packet-Round s packet small (inr (w, e, all)) g =
      let reads = fin_packet-Reads w (length segs) small in
      rw (e, receive_packet-fin window s reads refl)
        (record { holds = (g, omega arith, (inr refl, tt), λ _. all) })

  receive_incoming-Round :
      (s : ReceiverState) (cancel : Bool) (incoming : Option Datagram)
      → length segs < 2 ^ 32
      → IsTrueIncoming segs s.expected_seq incoming
      → HasAccepted segs s
      → Round s.expected_seq (receive_incoming window s cancel incoming)
  unfolding receive_incoming
  receive_incoming-Round s cancel none small h g =
      Round-if cancel (λ _. stopped s g) (λ _. answered s g)
  receive_incoming-Round s cancel (some d) small h g =
      let s' = record s { sender = d.peer } in
      let g' : HasAccepted segs s' = record { expected_le = g.expected_le; out_eq = g.out_eq } in
      let packet = received receive_buffer_size d in
      Round-if cancel (λ _. stopped s' g')
        λ _.
          Round-if (ltb (length packet) header_size) (λ _. answered s' g')
            λ long. elim h [
              | inl short ↦ absurd (omega (arith, short, not_ltb→le _ _ long))
              | inr (inl bad) ↦ rw (receive_packet-damaged window s' packet bad) (answered s' g')
              | inr (inr true_packet) ↦ receive_packet-Round s' packet small true_packet g'
            ]

  -- A round keeps what was accepted, answers only with that, and returns true only when all was
  -- accepted.
  pub receive_round-Round :
      (s : ReceiverState) (e : ReceiveEvent)
      → length segs < 2 ^ 32
      → IsTrueIncoming segs s.expected_seq e.incoming
      → HasAccepted segs s
      → Round s.expected_seq (receive_round window s e)
  unfolding receive_round
  receive_round-Round s e small h g =
      Round-if e.cancel_before (λ _. stopped s g)
        (λ _. receive_incoming-Round s e.cancel_after e.incoming small h g)
