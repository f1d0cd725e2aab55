-- ===== src/Network/Reliability.antt =====
-- What a transfer delivers, whatever the network does.
use mathlib.Core.List.{flatten}
use hybrid_ftp.Base.{
  ℕ, zero, suc, ◌+◌, ◌^◌, ◌≤◌, ◌<◌, ◌≡◌, refl, sym, ap, ◌∙◌, true, some, List, [], ◌∷◌, ◌++◌,
  append_assoc, arith, length, take, drop, All, take_all, All-map,
}
use hybrid_ftp.Header.{header_size}
use hybrid_ftp.Udp.{Endpoint, returned}
use hybrid_ftp.Receiver.{receive_buffer_size}
use hybrid_ftp.Double.{Double}
use hybrid_ftp.Sender.{SenderConfig, segments}
use hybrid_ftp.Sender.Run.{sent_result}
use hybrid_ftp.Sender.Segments.{segments_lem}
use hybrid_ftp.Network.{
  System, Waits, at_once, meanwhile, Step, sender_step, receiver_step, Reach, begin, next, initial,
}
use hybrid_ftp.Network.Invariant.{
  IsSound, receiver_moves-IsSound, sender_sends-IsSound, sender_ends-IsSound,
}

module _ {D : Type 0} ⦃f : Double D⦄ (cfg : SenderConfig D) (window : ℕ)
    (segs : List (List ℕ)) where
  initial-IsSound : (peer : Endpoint) → IsSound window segs (initial cfg window segs peer)
  unfolding flatten
  initial-IsSound peer = record {
    ordered = omega arith;
    accepted = record { expected_le = omega arith; out_eq = refl };
    packets = tt;
    acks = tt;
    closed = tt;
    finished = λ h. cc;
  }

  module _ (hw : window < 2 ^ 16) (small : length segs < 2 ^ 32)
      (fits : All (λ seg. header_size + length seg ≤ receive_buffer_size) segs) where
    Waits-IsSound :
        {start sys : System D}
        → IsSound window segs start
        → Waits cfg window segs start sys
        → IsSound window segs sys
    Waits-IsSound g at_once = g
    Waits-IsSound g (meanwhile w e arrival) =
        receiver_moves-IsSound window segs _ (Waits-IsSound g w) e small fits arrival

    Step-IsSound :
        {sys sys' : System D}
        → Step cfg window segs sys sys'
        → IsSound window segs sys
        → IsSound window segs sys'
    Step-IsSound (sender_step sys e w arrival) g =
        sender_ends-IsSound window segs _
          (Waits-IsSound (sender_sends-IsSound window segs sys g cfg e small) w) cfg e hw small
          arrival
    Step-IsSound (receiver_step sys e arrival) g =
        receiver_moves-IsSound window segs sys g e small fits arrival

    pub Reach-IsSound :
        {peer : Endpoint} {sys : System D}
        → Reach cfg window segs (initial cfg window segs peer) sys
        → IsSound window segs sys
    Reach-IsSound {peer = peer} begin = initial-IsSound peer
    Reach-IsSound (next r step) = Step-IsSound step (Reach-IsSound r)

flatten-take-drop :
    (k : ℕ) (segs : List (List ℕ)) → flatten segs ≡ flatten (take k segs) ++ flatten (drop k segs)
unfolding flatten
flatten-take-drop zero segs = refl
flatten-take-drop (suc k) [] = refl
flatten-take-drop (suc k) (seg ∷ segs) =
    ap (λ r. seg ++ r) (flatten-take-drop k segs)
    ∙ sym (append_assoc seg (flatten (take k segs)) (flatten (drop k segs)))

-- All that is known of one transfer: the receiver's output so far is a front part of the data, and
-- it is the data once either end has returned true.
pub record Delivers {D : Type 0} (content : List ℕ) (sys : System D) : Type 0 where
  pub rest : List ℕ
  pub front : content ≡ sys.receiver_state.out_data ++ rest
  pub received_all : sys.receiver_phase ≡ returned true → sys.receiver_state.out_data ≡ content
  pub sent_all : sys.sender_run.phase ≡ sent_result true → sys.receiver_state.out_data ≡ content

module _ {D : Type 0} (window : ℕ) (segs : List (List ℕ)) (sys : System D)
    (g : IsSound window segs sys) where
  all_accepted :
      sys.receiver_state.expected_seq ≡ length segs → sys.receiver_state.out_data ≡ flatten segs
  all_accepted e =
      g.accepted.out_eq ∙ ap flatten (take_all sys.receiver_state.expected_seq segs (omega arith))

  IsSound-Delivers : Delivers (flatten segs) sys
  IsSound-Delivers = record {
    rest = flatten (drop sys.receiver_state.expected_seq segs);
    front =
        flatten-take-drop sys.receiver_state.expected_seq segs
        ∙ ap (λ l. l ++ flatten (drop sys.receiver_state.expected_seq segs))
            (sym g.accepted.out_eq);
    received_all = λ h. all_accepted (g.finished h);
    sent_all = λ h.
        let closed : sys.sender_run.state.base ≡ length segs = rw h at g.closed in
        all_accepted (omega (arith, closed, g.ordered, g.accepted.expected_le));
  }

-- The segments that an MSS cuts fit the receiver's buffer, if the MSS does.
pub segments_fit :
    (mss : ℕ) (content : List ℕ) (segs : List (List ℕ))
    → 0 < mss
    → header_size + mss ≤ receive_buffer_size
    → segments mss content ≡ some segs
    → All (λ seg. header_size + length seg ≤ receive_buffer_size) segs
segments_fit mss content segs pos fits cut =
    let (segs', found, _, _, sizes) = segments_lem mss content pos in
    let same : segs' ≡ segs = cc (found, cut) in rw same at (All-map in_mss segs' sizes)
  where
    in_mss : (seg : List ℕ) → length seg ≤ mss → header_size + length seg ≤ receive_buffer_size
    in_mss seg le = omega arith

-- Reliability of a transfer: the data is cut by the configured MSS, which is positive and fits the
-- receiver's buffer, into fewer than 2 ^ 32 segments. Then, whatever is lost, repeated, reordered or
-- visibly damaged, wherever a transfer is cancelled and whichever `sendTo` calls fail, the receiver's
-- output is at every moment a front part of the data, and it is all of the data once `receiveData`
-- has returned true, and once `sendData` has returned true.
pub reliable_transfer :
    {D : Type 0} ⦃f : Double D⦄ (cfg : SenderConfig D) (window : ℕ) (content : List ℕ)
    (segs : List (List ℕ)) (peer : Endpoint) (sys : System D)
    → 0 < cfg.mss
    → header_size + cfg.mss ≤ receive_buffer_size
    → segments cfg.mss content ≡ some segs
    → length segs < 2 ^ 32
    → window < 2 ^ 16
    → Reach cfg window segs (initial cfg window segs peer) sys
    → Delivers content sys
reliable_transfer cfg window content segs peer sys pos fits cut small hw r =
    let (segs', found, joined, _, _) = segments_lem cfg.mss content pos in
    let same : segs' ≡ segs = cc (found, cut) in
    let in_buffer = segments_fit cfg.mss content segs pos fits cut in
    let sound = Reach-IsSound cfg window segs hw small in_buffer r in
    rw (sym (rw same at joined)) (IsSound-Delivers window segs sys sound)
