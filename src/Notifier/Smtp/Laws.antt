-- ===== src/Notifier/Smtp/Laws.antt =====
-- The conversation with the mail server, against the list of the commands that a mail takes.
use domainturva.Prelude.{
  ℕ, suc, String, ◌==◌, ◌≡◌, refl, ap, Bool, not, none, some, Option-cases, List, [], ◌∷◌, ◌++◌,
  map, ◌⊎◌, inl, inr, if◌then◌else◌, Bool-cases,
}
use mathlib.Core.List.{append_assoc}
use domainturva.Notifier.Backend.{Smtp}
use domainturva.Notifier.Smtp.{
  SmtpCommand, dial, greet, start_tls, auth_plain, mail, rcpt, begin_data, write_data, close_data,
  quit, Server, Talk, Part, send, send_rcpts, send_data, with_client, converse,
}

-- The commands of a session: TLS where the server offers it, then the user where there is one, then
-- the sender, each recipient and the message.
abbrev pub session : Bool → Smtp → String → List SmtpCommand
session offers_tls s msg =
    (if offers_tls then start_tls s.host ∷ [] else [])
    ++ ((if not (s.username == "") then auth_plain s.username s.password s.host ∷ [] else [])
        ++ (mail s.from ∷ (map rcpt s.to ++ (begin_data ∷ write_data msg ∷ close_data ∷ []))))

module _ (server : Server) where
  -- Commands one after the other, up to the first that the server refuses.
  abbrev say : List SmtpCommand → Part
  say [] n = ([], none)
  say (c ∷ cs) n = send server c (say cs) n

  send_rcpts-say :
      (tos : List String) (cs : List SmtpCommand)
      → send_rcpts server tos (say cs) ≡ say (map rcpt tos ++ cs)
  unfolding send_rcpts
  send_rcpts-say [] cs = refl
  send_rcpts-say (to ∷ tos) cs = ap (send server (rcpt to)) (send_rcpts-say tos cs)

  with_client-say :
      (s : Smtp) (msg : String) (n : ℕ)
      → with_client server s msg n ≡ (
        (say (session server.offers_tls s msg) n).0 ++ quit ∷ [],
        (say (session server.offers_tls s msg) n).1,
      )
  unfolding with_client send_data
  with_client-say s msg n =
      let data_part = begin_data ∷ write_data msg ∷ close_data ∷ [] in
      rw (send_rcpts-say s.to data_part) (elim (Bool-cases server.offers_tls) [
        | inl tls ↦ elim (Bool-cases (s.username == "")) [
          | inl anonymous ↦ rw (tls, anonymous)
          | inr named ↦ rw (tls, named)
        ]
        | inr clear ↦ elim (Bool-cases (s.username == "")) [
          | inl anonymous ↦ rw (clear, anonymous)
          | inr named ↦ rw (clear, named)
        ]
      ])

  -- The server accepts these commands, which come after the first `n`.
  abbrev pub IsAccepted : ℕ → List SmtpCommand → Type 0
  IsAccepted n [] = Unit
  IsAccepted n (c ∷ cs) = (server.answer n c ≡ none) × IsAccepted (suc n) cs

  -- The number of commands after some more.
  abbrev pub number_after : ℕ → List SmtpCommand → ℕ
  number_after n [] = n
  number_after n (c ∷ cs) = number_after (suc n) cs

  -- The first command that the server refuses, with its error, and what was accepted before it.
  pub record IsRefused (n : ℕ) (cs : List SmtpCommand) (message : String) : Type 0 where
    pub accepted : List SmtpCommand
    pub refused : SmtpCommand
    pub unsent : List SmtpCommand
    pub split : cs ≡ accepted ++ (refused ∷ unsent)
    pub were_accepted : IsAccepted n accepted
    pub was_refused : server.answer (number_after n accepted) refused ≡ some message

  abbrev IsSaid : ℕ → List SmtpCommand → Talk → Type 0
  IsSaid n cs talk =
      (IsAccepted n cs × (talk ≡ (cs, none)))
      ⊎ ((message : String) × (r : IsRefused n cs message) × (talk
            ≡ (r.accepted ++ (r.refused ∷ []), some message)))

  say-IsSaid : (cs : List SmtpCommand) (n : ℕ) → IsSaid n cs (say cs n)
  say-IsSaid [] n = inl (tt, refl)
  say-IsSaid (c ∷ cs) n = elim (Option-cases (server.answer n c)) [
    | inl fine ↦ elim (say-IsSaid cs (suc n)) [
      | inl (all, same) ↦ inl ((fine, all), rw fine (rw same))
      | inr (message, r, same) ↦ inr (
        message,
        record {
          accepted = c ∷ r.accepted;
          refused = r.refused;
          unsent = r.unsent;
          split = ap (λ x. c ∷ x) r.split;
          were_accepted = (fine, r.were_accepted);
          was_refused = r.was_refused;
        },
        rw fine (rw same),
      )
    ]
    | inr (message, no_more) ↦ inr (
      message,
      record {
        accepted = [];
        refused = c;
        unsent = cs;
        split = refl;
        were_accepted = tt;
        was_refused = no_more;
      },
      rw no_more refl,
    )
  ]

  -- `Quit` ends the conversation once there is a client, which is from the third command on.
  abbrev pub closing : List SmtpCommand → List SmtpCommand
  closing [] = []
  closing (c ∷ []) = []
  closing (c ∷ d ∷ cs) = quit ∷ []

  -- All the commands that a mail takes.
  abbrev pub full : Smtp → String → List SmtpCommand
  full s msg = dial s.host s.port ∷ greet s.host ∷ session server.offers_tls s msg

  abbrev pub IsTalk : List SmtpCommand → Talk → Type 0
  IsTalk cs talk =
      (IsAccepted 0 cs × (talk ≡ (cs ++ (quit ∷ []), none)))
      ⊎ ((message : String) × (r : IsRefused 0 cs message) × (talk
            ≡ (r.accepted ++ (r.refused ∷ closing r.accepted), some message)))

  with_client-IsTalk :
      (c d : SmtpCommand) (s : Smtp) (msg : String)
      → server.answer 0 c ≡ none
      → server.answer 1 d ≡ none
      → IsTalk
          (c ∷ d ∷ session server.offers_tls s msg)
          (send server c (send server d (with_client server s msg)) 0)
  with_client-IsTalk c d s msg ac ad = elim (say-IsSaid (session server.offers_tls s msg) 2) [
    | inl (all, same) ↦ inl ((ac, (ad, all)), rw (ac, ad, with_client-say s msg 2, same) refl)
    | inr (message, r, same) ↦ inr (
      message,
      record {
        accepted = c ∷ d ∷ r.accepted;
        refused = r.refused;
        unsent = r.unsent;
        split = ap (λ x. c ∷ d ∷ x) r.split;
        were_accepted = (ac, (ad, r.were_accepted));
        was_refused = r.was_refused;
      },
      rw
          (
            ac,
            ad,
            with_client-say s msg 2,
            same,
            append_assoc r.accepted (r.refused ∷ []) (quit ∷ []),
          )
          refl,
    )
  ]

  -- The goroutine of an SMTP notification sends the commands of a mail in order: to connect, TLS
  -- where the server offers it, the user where one is set, the sender, each recipient and the
  -- message, and `QUIT`. There is no error where the server accepts all of them but the last;
  -- elsewhere the error is that of the first command that it refuses, nothing of the mail is sent
  -- after that, and `QUIT` ends the session if it was opened. The server may answer the same
  -- command differently at another point of the session.
  pub converse-IsTalk : (s : Smtp) (msg : String) → IsTalk (full s msg) (converse server s msg)
  unfolding converse
  converse-IsTalk s msg = elim (Option-cases (server.answer 0 (dial s.host s.port))) [
    | inr (message, no_dial) ↦ inr (
      message,
      record {
        accepted = [];
        refused = dial s.host s.port;
        unsent = greet s.host ∷ session server.offers_tls s msg;
        split = refl;
        were_accepted = tt;
        was_refused = no_dial;
      },
      rw no_dial refl,
    )
    | inl dialled ↦ elim (Option-cases (server.answer 1 (greet s.host))) [
      | inr (message, no_greet) ↦ inr (
        message,
        record {
          accepted = dial s.host s.port ∷ [];
          refused = greet s.host;
          unsent = session server.offers_tls s msg;
          split = refl;
          were_accepted = (dialled, tt);
          was_refused = no_greet;
        },
        rw (dialled, no_greet) refl,
      )
      | inl greeted ↦ with_client-IsTalk _ _ s msg dialled greeted
    ]
  ]
