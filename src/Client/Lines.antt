-- ===== src/Client/Lines.antt =====
-- How the client reads the server's replies from the control connection.
use hybrid_ftp.Base.{
  ℕ, zero, suc, ◌≡◌, refl, sym, ap, ◌∙◌, ◌≢◌, Bool, false, ◌||◌, List, [], ◌∷◌, ◌++◌, map,
  append-nil, append_assoc, arith, ◌==◌, length, All,
}
use hybrid_ftp.Text.{Text, text}
use hybrid_ftp.Session.{SessionState}
use hybrid_ftp.Session.Channel.{abor_command}
use hybrid_ftp.Session.Loop.{Recv, byte, without_return}
use hybrid_ftp.Server.Table.{count}
use hybrid_ftp.Client.Replies.{recv_line, is_multi_line, recv_reply}

-- What arrives when a text is sent.
abbrev pub arriving : Text → List Recv
arriving [] = []
arriving (c ∷ cs) = byte c ∷ arriving cs

abbrev pub all_arriving : List Text → List Recv
all_arriving [] = []
all_arriving (t ∷ ts) = arriving t ++ all_arriving ts

without_return-append : (t : Text) → without_return (t ++ 13 ∷ []) ≡ t
unfolding without_return
without_return-append [] = refl
without_return-append (c ∷ []) = refl
without_return-append (c ∷ d ∷ t) = rw (without_return-append (d ∷ t)) refl

ne→test_false : (c : ℕ) → c ≢ 10 → (c == 10) ≡ false
ne→test_false c h = ground arith

recv_line-arriving :
    (t buffer : Text) (rest : List Recv)
    → All (λ c. c ≢ 10) t
    → recv_line buffer (arriving (t ++ 13 ∷ 10 ∷ []) ++ rest) ≡ (buffer ++ t, rest)
unfolding recv_line
recv_line-arriving [] buffer rest h = rw (without_return-append buffer, append-nil buffer) refl
recv_line-arriving (c ∷ t) buffer rest h =
    rw (ne→test_false c h.0)
      (rw (append_assoc buffer (c ∷ []) t) at (recv_line-arriving t (buffer ++ c ∷ []) rest h.1))

-- A reply of one line is read as it was sent, without its line end, and nothing behind it is read.
pub recv_reply_lem :
    (n c : ℕ) (t : Text) (rest : List Recv)
    → All (λ d. d ≢ 10) (c ∷ t)
    → is_multi_line (c ∷ t) ≡ false
    → recv_reply n (arriving ((c ∷ t) ++ 13 ∷ 10 ∷ []) ++ rest) ≡ (c ∷ t, rest)
unfolding recv_reply
recv_reply_lem n c t rest h alone = rw (recv_line-arriving (c ∷ t) [] rest h, alone) refl

has_newline : Text → Bool
has_newline [] = false
has_newline (c ∷ cs) = (c == 10) || has_newline cs

has_newline-All : (t : Text) → has_newline t ≡ false → All (λ c. c ≢ 10) t
unfolding has_newline
has_newline-All [] e = tt
has_newline-All (c ∷ cs) e = ((λ is. ground arith), has_newline-All cs (ground arith))

-- A reply that is one line, without its line end.
pub record IsOneLine (t : Text) : Type 0 where
  pub not_empty : t ≢ []
  pub no_newline : All (λ c. c ≢ 10) t
  pub not_multi : is_multi_line t ≡ false

abbrev pub with_end : Text → Text
with_end t = t ++ 13 ∷ 10 ∷ []

-- What the client shows for so many commands in a row, and what it has not read behind them.
abbrev pub read_replies : ℕ → ℕ → List Recv → List Text × List Recv
read_replies n zero es = ([], es)
read_replies n (suc count) es =
    let r = recv_reply n es in let rest = read_replies n count r.1 in (r.0 ∷ rest.0, rest.1)

module _ (n : ℕ) where
  recv_reply-with_end :
      (t : Text) (rest : List Recv)
      → IsOneLine t
      → recv_reply n (arriving (with_end t) ++ rest) ≡ (t, rest)
  recv_reply-with_end [] rest one = absurd (one.not_empty refl)
  recv_reply-with_end (c ∷ t) rest one = recv_reply_lem n c t rest one.no_newline one.not_multi

  read_replies-with_end :
      (ts : List Text) (rest : List Recv)
      → All IsOneLine ts
      → read_replies n (length ts) (all_arriving (map with_end ts) ++ rest) ≡ (ts, rest)
  read_replies-with_end [] rest h = refl
  read_replies-with_end (t ∷ ts) rest h =
      let others = all_arriving (map with_end ts) in
      rw (append_assoc (arriving (with_end t)) others rest)
        (rw (recv_reply-with_end t (others ++ rest) h.0, read_replies-with_end ts rest h.1) refl)

  all_arriving-last :
      (ts : List Text) (t : Text) (rest : List Recv)
      → all_arriving (map with_end (ts ++ t ∷ [])) ++ rest
        ≡ all_arriving (map with_end ts) ++ (arriving (with_end t) ++ rest)
  all_arriving-last [] t rest = append_assoc (arriving (with_end t)) [] rest
  all_arriving-last (u ∷ ts) t rest =
      let a = arriving (with_end u) in
      append_assoc a (all_arriving (map with_end (ts ++ t ∷ []))) rest
      ∙ ap (λ (l : List Recv). a ++ l) (all_arriving-last ts t rest)
      ∙ sym (append_assoc a (all_arriving (map with_end ts)) (arriving (with_end t) ++ rest))

  -- An ABOR with no transfer puts the client behind by one reply for good. Whatever commands follow it,
  -- if the server answers each by one line, the client shows for the first of them the second reply to
  -- the ABOR, and for each later one the reply to the command before it; the reply to the last one is
  -- left unread.
  pub replies_shifted :
      {F : Type 0} (f : F) (s : SessionState) (ts : List Text) (t : Text) (rest : List Recv)
      → All IsOneLine ts
      → read_replies n
          (suc (suc (length ts)))
          (all_arriving ((abor_command f s).replies ++ map with_end (ts ++ t ∷ [])) ++ rest)
        ≡ (
          text "426 Connection closed; transfer aborted." ∷ text "226 Abort successful." ∷ ts,
          arriving (with_end t) ++ rest,
        )
  unfolding abor_command is_multi_line has_newline
  replies_shifted f s ts t rest h =
      let first = text "426 Connection closed; transfer aborted." in
      let second = text "226 Abort successful." in
      let one_lines : All IsOneLine (first ∷ second ∷ ts) = (
        record { not_empty = λ e. cc; no_newline = has_newline-All first refl; not_multi = refl },
        (
          record {
            not_empty = λ e. cc;
            no_newline = has_newline-All second refl;
            not_multi = refl;
          },
          h,
        ),
      ) in
      ap (read_replies n (suc (suc (length ts)))) (all_arriving-last (first ∷ second ∷ ts) t rest)
      ∙ read_replies-with_end (first ∷ second ∷ ts) (arriving (with_end t) ++ rest) one_lines
