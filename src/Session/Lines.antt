-- ===== src/Session/Lines.antt =====
-- That command lines are read as they were sent, and replies are sent whole.
use hybrid_ftp.Base.{
  ℕ, zero, suc, ◌+◌, ◌-◌, ◌≤◌, ◌<◌, ◌≡◌, refl, sym, ap, ◌∙◌, ◌≢◌, inl, inr, Bool, true, false, some,
  List, [], ◌∷◌, ◌++◌, append-nil, append_assoc, arith, leb, ◌==◌, if◌then◌else◌, not_leb→lt,
  Bool-cases, length, take, drop, length-append, take-append-drop,
}
use hybrid_ftp.Text.{Text}
use hybrid_ftp.Session.Loop.{
  Recv, byte, hung_up, interrupted, failed, no_line, got_line, read_loop, read_line, Send, accepts,
  send_interrupted, send_failed, send_all,
}

-- What `recv` gives is a line of text with its newline, and what is left behind it. Calls may be
-- interrupted, and carriage returns do not count.
pub data IsLine : List Recv → Text → List Recv → Type 0 where
  newline : {rest : List Recv} → IsLine (byte 10 ∷ rest) [] rest
  interruption :
      {es rest : List Recv} {t : Text} → IsLine es t rest → IsLine (interrupted ∷ es) t rest
  return_char : {es rest : List Recv} {t : Text} → IsLine es t rest → IsLine (byte 13 ∷ es) t rest
  character :
      {es rest : List Recv} {t : Text} (c : ℕ)
      → c ≢ 10
      → c ≢ 13
      → IsLine es t rest
      → IsLine (byte c ∷ es) (c ∷ t) rest

ne→==_false : (a b : ℕ) → a ≢ b → (a == b) ≡ false
ne→==_false a b h = ground arith

read_loop_lem :
    {es rest : List Recv} {t : Text}
    → IsLine es t rest
    → (room : ℕ) (buffer : Text) → length t < room
    → read_loop room buffer es ≡ got_line (buffer ++ t) rest
unfolding read_loop
read_loop_lem newline zero buffer h = absurd (omega arith)
read_loop_lem newline (suc room) buffer h = rw (append-nil buffer) refl
read_loop_lem (interruption l) zero buffer h = absurd (omega arith)
read_loop_lem (interruption l) (suc room) buffer h = read_loop_lem l (suc room) buffer h
read_loop_lem (return_char l) zero buffer h = absurd (omega arith)
read_loop_lem (return_char l) (suc room) buffer h = read_loop_lem l (suc room) buffer h
read_loop_lem (character c n10 n13 l) zero buffer h = absurd (omega arith)
read_loop_lem (character {t = t} c n10 n13 l) (suc room) buffer h =
    rw (ne→==_false c 10 n10, ne→==_false c 13 n13)
      (rw (append_assoc buffer (c ∷ []) t) at
        (read_loop_lem l room (buffer ++ c ∷ []) (omega arith)))

-- What is left of a line that does not fit.
read_loop_full :
    {es rest : List Recv} {t : Text}
    → IsLine es t rest
    → (room : ℕ) (buffer : Text) → room ≤ length t
    → (es' : List Recv) × (read_loop room buffer es ≡ got_line (buffer ++ take room t) es')
      × IsLine es' (drop room t) rest
unfolding read_loop
read_loop_full (newline {rest = rest}) zero buffer h =
    (byte 10 ∷ rest, rw (append-nil buffer) refl, newline)
read_loop_full newline (suc room) buffer h = absurd (omega arith)
read_loop_full (interruption {es = es} l) zero buffer h =
    (interrupted ∷ es, rw (append-nil buffer) refl, interruption l)
read_loop_full (interruption l) (suc room) buffer h = read_loop_full l (suc room) buffer h
read_loop_full (return_char {es = es} l) zero buffer h =
    (byte 13 ∷ es, rw (append-nil buffer) refl, return_char l)
read_loop_full (return_char l) (suc room) buffer h = read_loop_full l (suc room) buffer h
read_loop_full (character {es = es} c n10 n13 l) zero buffer h =
    (byte c ∷ es, rw (append-nil buffer) refl, character c n10 n13 l)
read_loop_full (character {t = t} c n10 n13 l) (suc room) buffer h =
    let (es', e, l') = read_loop_full l room (buffer ++ c ∷ []) (omega arith) in
    (
      es',
      rw (ne→==_false c 10 n10, ne→==_false c 13 n13)
          (rw (append_assoc buffer (c ∷ []) (take room t)) at e),
      l',
    )

buffer_test : (n : ℕ) → 1 < n → leb n 1 ≡ false
buffer_test n h = ground arith

-- A line that fits into the buffer, with two bytes to spare, is read as it was sent, up to its newline
-- and no further. Of a longer line the first part is given as if it were a line, and the rest of it
-- is left to be read as the next line.
pub read_line_lem :
    (es rest : List Recv) (t : Text) (n : ℕ)
    → 1 < n
    → IsLine es t rest
    → (length t + 1 < n → read_line n es ≡ got_line t rest)
      × (n ≤ length t + 1
          → (es' : List Recv) × (read_line n es ≡ got_line (take (n - 1) t) es')
            × IsLine es' (drop (n - 1) t) rest)
unfolding read_line
read_line_lem es rest t n big l = (
  λ h. rw (buffer_test n big) (read_loop_lem l (n - 1) [] (omega arith)),
  λ h. rw (buffer_test n big) (read_loop_full l (n - 1) [] (omega arith)),
)

no_longer :
    (b : Bool) (room n : ℕ) (buffer : Text) (c : ℕ)
    → n ≤ length (if b then buffer else buffer ++ c ∷ []) + (if b then suc room else room)
    → n ≤ length buffer + suc room
no_longer true room n buffer c h = h
no_longer false room n buffer c h = omega (arith, length-append buffer (c ∷ []))

read_loop_bound :
    (es : List Recv) (room : ℕ) (buffer t : Text) (rest : List Recv)
    → read_loop room buffer es ≡ got_line t rest
    → length t ≤ length buffer + room
unfolding read_loop
read_loop_bound [] zero buffer t rest h =
    let same_text : buffer ≡ t = cc in rw same_text (omega arith)
read_loop_bound [] (suc room) buffer t rest h = absurd (cc)
read_loop_bound (r ∷ es) zero buffer t rest h =
    let same_text : buffer ≡ t = cc in rw same_text (omega arith)
read_loop_bound (hung_up ∷ es) (suc room) buffer t rest h = absurd (cc)
read_loop_bound (failed ∷ es) (suc room) buffer t rest h = absurd (cc)
read_loop_bound (interrupted ∷ es) (suc room) buffer t rest h =
    read_loop_bound es (suc room) buffer t rest h
read_loop_bound (byte c ∷ es) (suc room) buffer t rest h = elim (Bool-cases (c == 10)) [
  | inl over ↦
      let same_line : got_line buffer es ≡ got_line t rest = rw over at h in
      let same_text : buffer ≡ t = cc in rw same_text (omega arith)
  | inr goes_on ↦
      no_longer (c == 13) room (length t) buffer c (read_loop_bound es _ _ t rest (rw goes_on at h))
]

-- Every line that `read_line` gives fits into the buffer with the zero behind it.
read_line_bound :
    (n : ℕ) (es : List Recv) (t : Text) (rest : List Recv)
    → read_line n es ≡ got_line t rest
    → length t < n
unfolding read_line
read_line_bound n es t rest h = elim (Bool-cases (leb n 1)) [
  | inl tiny ↦ let clash : no_line es ≡ got_line t rest = rw tiny at h in absurd (cc)
  | inr large ↦
      let bound = read_loop_bound es (n - 1) [] t rest (rw large at h) in
      let some_room : 1 < n = not_leb→lt n 1 large in omega arith
]

pieces : (n : ℕ) (s sent r : Text) → drop n s ≡ sent ++ r → s ≡ (take n s ++ sent) ++ r
pieces n s sent r e =
    sym (take-append-drop n s)
    ∙ ap (λ (x : Text). take n s ++ x) e
    ∙ sym (append_assoc (take n s) sent r)

-- A reply that is sent goes out from its start, in order and without gaps. If `send_all` returns true,
-- all of it has been sent.
pub send_all_lem :
    (s : Text) (es : List Send)
    → (r : Text) × (s ≡ (send_all s es).0 ++ r) × ((send_all s es).1 ≡ some true → r ≡ [])
unfolding send_all
send_all_lem [] es = ([], refl, λ h. refl)
send_all_lem (c ∷ cs) [] = (c ∷ cs, refl, λ h. absurd (cc))
send_all_lem (c ∷ cs) (send_failed ∷ es) = (c ∷ cs, refl, λ h. absurd (cc))
send_all_lem (c ∷ cs) (send_interrupted ∷ es) = send_all_lem (c ∷ cs) es
send_all_lem (c ∷ cs) (accepts n ∷ es) = elim (Bool-cases (n == 0)) [
  | inl idle ↦ rw idle (c ∷ cs, refl, λ h. absurd (cc))
  | inr moved ↦
      let (r, e, all) = send_all_lem (drop n (c ∷ cs)) es in
      rw moved (r, pieces n (c ∷ cs) _ r e, all)
]
