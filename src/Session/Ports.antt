-- ===== src/Session/Ports.antt =====
-- What PORT leaves in the session.
use hybrid_ftp.Base.{
  ℕ, ◌+◌, ◌*◌, ◌<◌, ◌≡◌, refl, ap, ◌≢◌, ◌⊎◌, inl, inr, Bool, true, false, Option, none, some, [],
  ◌∷◌, ◌++◌, arith, if◌then◌else◌, bit_or-byte,
}
use hybrid_ftp.Text.{Text, text}
use hybrid_ftp.Path.Listing.{decimal}
use hybrid_ftp.Session.{
  mode_active, SessionState, PortNumbers, CommandEvent, Handled, reply_line, answer,
}
use hybrid_ftp.Session.Channel.{
  out_of_range, dotted, port_of, set_active, use_numbers, port_command,
}

-- Six numbers that fit a byte each.
pub record AreBytes (n : PortNumbers) : Type 0 where
  pub b1 : n.h1 < 256
  pub b2 : n.h2 < 256
  pub b3 : n.h3 < 256
  pub b4 : n.h4 < 256
  pub b5 : n.p1 < 256
  pub b6 : n.p2 < 256

-- PORT names a destination: it has an argument, six numbers are read from it, and each fits a byte.
pub Names : Text → Option PortNumbers → PortNumbers → Type 0
Names a scanned n = (a ≢ []) × (scanned ≡ some n) × AreBytes n

-- The address with its dots.
abbrev pub address : PortNumbers → Text
address n = decimal n.h1 ++ 46 ∷ decimal n.h2 ++ 46 ∷ decimal n.h3 ++ 46 ∷ decimal n.h4

-- The destination is taken, for active transfers, with no passive socket beside it.
pub Takes : {F : Type 0} → F → SessionState → PortNumbers → Handled F → Type 0
Takes f s n h =
    (h
      ≡ answer f
          (record s {
            active_ip = address n;
            active_port = n.p1 * 256 + n.p2;
            data_mode = mode_active;
            passive_socket = none;
          })
          (reply_line "200 PORT command successful."))
    × (n.p1 * 256 + n.p2 < 65536)

-- A 501 reply, and nothing else.
pub Refuses : {F : Type 0} → F → SessionState → Handled F → Type 0
Refuses f s h = (why : Text) × (h ≡ answer f s (text "501 " ++ why))

port_of_lem : (n : PortNumbers) → n.p1 < 256 → n.p2 < 256 → port_of n ≡ n.p1 * 256 + n.p2
unfolding port_of
port_of_lem n h1 h2 = omega (arith, bit_or-byte n.p1 n.p2 h2)

in_range : (n : PortNumbers) → out_of_range n ≡ false → AreBytes n
unfolding out_of_range
in_range n h = record {
  b1 = ground arith;
  b2 = ground arith;
  b3 = ground arith;
  b4 = ground arith;
  b5 = ground arith;
  b6 = ground arith;
}

AreBytes-in_range : (n : PortNumbers) → AreBytes n → out_of_range n ≡ false
unfolding out_of_range
AreBytes-in_range n b = ground arith

module _ {F : Type 0} (f : F) (s : SessionState) where
  -- The destination that PORT names is taken, or it names none and is refused.
  pub IsPortOutcome : Text → Option PortNumbers → Handled F → Type 0
  IsPortOutcome a scanned h =
      ((n : PortNumbers) × (Names a scanned n × Takes f s n h))
      ⊎ (((n : PortNumbers) → ¬ Names a scanned n) × Refuses f s h)

  set_active-Takes :
      (n : PortNumbers)
      → AreBytes n
      → Takes f s n (answer f (set_active n s) (reply_line "200 PORT command successful."))
  unfolding Takes set_active answer dotted
  set_active-Takes n b =
      let p = port_of_lem n b.b5 b.b6 in
      (
        ap
            (λ (p : ℕ).
              answer f
                (record s {
                  active_ip = address n;
                  active_port = p;
                  data_mode = mode_active;
                  passive_socket = none;
                })
                (reply_line "200 PORT command successful."))
            p,
        omega (arith, b.b5, b.b6),
      )

  use_range-IsPortOutcome :
      (a : Text) (n : PortNumbers) (b : Bool)
      → a ≢ []
      → out_of_range n ≡ b
      → IsPortOutcome a (some n) (
          if b
          then answer f s (reply_line "501 Invalid IP/port values.")
          else answer f (set_active n s) (reply_line "200 PORT command successful."))
  unfolding IsPortOutcome Names Refuses answer
  use_range-IsPortOutcome a n true given e = inr (
    (λ m named. let fits = AreBytes-in_range m named.2 in cc),
    (reply_line "Invalid IP/port values.", refl),
  )
  use_range-IsPortOutcome a n false given e =
      inl (n, ((given, refl, in_range n e), set_active-Takes n (in_range n e)))

  use_numbers-IsPortOutcome :
      (a : Text) (o : Option PortNumbers) → a ≢ [] → IsPortOutcome a o (use_numbers f s o)
  unfolding use_numbers IsPortOutcome Names Refuses answer
  use_numbers-IsPortOutcome a none given =
      inr ((λ n named. cc), (reply_line "Invalid PORT format.", refl))
  use_numbers-IsPortOutcome a (some n) given =
      use_range-IsPortOutcome a n (out_of_range n) given refl

  -- PORT names a destination if it has an argument and the six numbers that are read from it fit a byte
  -- each. It takes this destination: the address is the first four numbers with dots between them, the
  -- port is 256 times the fifth and the sixth, which fits 16 bits, the mode is active, no passive socket
  -- is left, the rest of the session is as it was, and the reply is 200. If it names no destination, the
  -- reply is a 501 and the session is as it was.
  pub port_command-IsPortOutcome :
      (e : CommandEvent) (a : Text) → IsPortOutcome a e.scanned (port_command f e s a)
  unfolding port_command IsPortOutcome Names Refuses answer
  port_command-IsPortOutcome e [] =
      inr ((λ n named. named.0 refl), (reply_line "Missing IP and port.", refl))
  port_command-IsPortOutcome e (c ∷ cs) = use_numbers-IsPortOutcome (c ∷ cs) e.scanned (λ e'. cc)
