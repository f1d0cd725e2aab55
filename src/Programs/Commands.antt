-- ===== src/Programs/Commands.antt =====
-- What the entry of the client in src/client/main_client.cpp sends and leaves.
use hybrid_ftp.Base.{
  ℕ, ◌≡◌, refl, sym, ap, ◌∙◌, ◌⊎◌, inl, inr, Bool, true, false, Option, none, some, List, [], ◌∷◌,
  ◌++◌, map, drop,
}
use hybrid_ftp.Udp.Descriptors.{close_own}
use hybrid_ftp.Text.{Text, text}
use hybrid_ftp.Session.Loop.{Recv, Send, accepts, send_interrupted, send_failed, send_all}
use hybrid_ftp.Session.Lines.{send_all_lem}
use hybrid_ftp.Client.Replies.{recv_reply}
use hybrid_ftp.Programs.Entries.{
  connect_to_server, client_send_all, reply_after, send_command, client_end, client_main,
}

-- An interrupted `send` is an error to the client, while the server tries again.
as_failure : Send → Send
as_failure (accepts n) = accepts n
as_failure send_interrupted = send_failed
as_failure send_failed = send_failed

client_send_all-send_all :
    (s : Text) (es : List Send) → client_send_all s es ≡ send_all s (map as_failure es)
unfolding client_send_all send_all as_failure
client_send_all-send_all [] es = refl
client_send_all-send_all (c ∷ cs) [] = refl
client_send_all-send_all (c ∷ cs) (send_failed ∷ es) = refl
client_send_all-send_all (c ∷ cs) (send_interrupted ∷ es) = refl
client_send_all-send_all (c ∷ cs) (accepts n ∷ es) =
    rw (client_send_all-send_all (drop n (c ∷ cs)) es) refl

reply_cases :
    (o : Option Bool) (r : Text) (fuel : ℕ) (es : List Recv)
    → (o ≡ some true → r ≡ [])
    → (reply_after o fuel es ≡ none)
      ⊎ (reply_after o fuel es ≡ some (text "Error: Cannot send command."))
      ⊎ ((r ≡ []) × (reply_after o fuel es ≡ some (recv_reply fuel es).0))
unfolding reply_after
reply_cases none r fuel es h = inl refl
reply_cases (some false) r fuel es h = inr (inl refl)
reply_cases (some true) r fuel es h = inr (inr (h refl, refl))

-- What the client puts on the connection for a command is the line with its end, or a front part of
-- it. It then waits, or gives an error text, or reads a reply, and this only when all has been sent.
send_command_lem :
    (line : Text) (sends : List Send) (fuel : ℕ) (es : List Recv)
    → (r : Text) × (line ++ 13 ∷ 10 ∷ [] ≡ (send_command line sends fuel es).0 ++ r)
      × (((send_command line sends fuel es).1 ≡ none)
          ⊎ ((send_command line sends fuel es).1 ≡ some (text "Error: Cannot send command."))
          ⊎ ((r ≡ []) × ((send_command line sends fuel es).1 ≡ some (recv_reply fuel es).0)))
unfolding send_command
send_command_lem line sends fuel es =
    let whole : Text = line ++ 13 ∷ 10 ∷ [] in
    let same = client_send_all-send_all whole sends in
    let (r, e, all) = send_all_lem whole (map as_failure sends) in
    (
      r,
      e ∙ ap (λ p. p.0 ++ r) (sym same),
      reply_cases (client_send_all whole sends).1 r fuel es
          (λ h. all (sym (ap (λ p. p.1) same) ∙ h)),
    )

-- The client leaves no descriptor open, however it ends.
client_main-closes :
    (live : List ℕ) (made : Option ℕ) (parsed connected : Bool)
    → (client_main live made parsed connected).0 ≡ live
unfolding client_main connect_to_server client_end
client_main-closes live none parsed connected = refl
client_main-closes live (some d) true true = close_own d live
client_main-closes live (some d) true false = close_own d live
client_main-closes live (some d) false connected = close_own d live
