-- ===== src/Registry/Reads.antt =====
-- The operations of message.go that leave the messages as they are.
use wmq.Common.{
  ok, not, ◌&&◌, Result, ℕ, ◌⊎◌, inl, inr, ◌≢◌, false, true, ==_iff, arith, List, [], ◌∷◌, ◌≡◌,
  refl, Text, text, err, Bool, Bool-cases, ◌==◌,
}
use wmq.Registry.{message_is_exists, Message, Consumer, get_message}
use wmq.Registry.Backend.{Backend, State, ◌>>=◌, call, gets}
use wmq.Registry.Lookups.{IsFirst, get_message_lem}
use wmq.Registry.Leads.{Leads, Leads-then, Leads-gets, Leads-pure, Leads-ignore}
use wmq.Registry.Changes.{init_messages-messages, stop_each_lem}
use wmq.Registry.Operations.{
  notify_consumer_manager, queue_status, status_consumer, status_each, status_message, stop_each,
  stop_all, init_messages, restart, reload, publish,
}

module _ {W : Type 0} (b : Backend W) (P : List Message → Type 0) where
  Leads-init_messages : Leads P P (init_messages b)
  Leads-init_messages = record { leads = λ s p. rw (init_messages-messages b s) p }

  Leads-stop_all : (ms : List Message) → Leads P P (stop_all b ms)
  unfolding stop_all
  Leads-stop_all [] = Leads-pure P tt
  Leads-stop_all (m ∷ ms) =
      Leads-then P (stop_each b m m.consumers) _
        (record { leads = λ s p. rw ((stop_each_lem b m m.consumers s).1) p })
        (λ u. Leads-stop_all ms)

  pub Leads-restart : Leads P P (restart b)
  unfolding restart
  Leads-restart =
      Leads-then P (λ s. stop_all b s.messages s) _
        (record { leads = λ s p. (Leads-stop_all s.messages).leads s p })
        (λ u. Leads-ignore P (init_messages b) Leads-init_messages)

  pub Leads-reload : Leads P P (reload b)
  unfolding reload
  Leads-reload = Leads-ignore P (init_messages b) Leads-init_messages

  Leads-notify :
      (action : Text) (c : Consumer) (m : Message)
      → Leads P P (notify_consumer_manager b action c m)
  unfolding notify_consumer_manager
  Leads-notify action c m = record { leads = λ s p. ground arith }

  Leads-queue_status : (key : Text) (durable : Bool) → Leads P P (queue_status b key durable)
  unfolding queue_status
  Leads-queue_status key durable = record { leads = λ s p. p }

  pub Leads-status_consumer : (name id : Text) → Leads P P (status_consumer b name id)
  unfolding status_consumer
  Leads-status_consumer name id =
      search (Leads-then P, Leads-gets P, Leads-pure P, Leads-queue_status, Leads-notify) depth 10

  status_each-keeps :
      (m : Message) (cs : List Consumer) (s : State W)
      → P s.messages
      → P (status_each b m cs s).1.messages
  unfolding status_each
  status_each-keeps m [] s p = p
  status_each-keeps m (c ∷ cs) s p =
      status_each-keeps m cs _ ((Leads-status_consumer m.name c.id).leads s p)

  pub Leads-status_message : (name : Text) → Leads P P (status_message b name)
  unfolding status_message
  Leads-status_message name =
      Leads-then P (gets (get_message name)) _ (Leads-gets P _)
        (λ (m, i). record { leads = status_each-keeps m m.consumers })

module _ {W : Type 0} (b : Backend W) where
  -- The message is found and the token fits.
  pub publish-call :
      (body name key token : Text) (s : State W) {m : Message} {i : ℕ}
      → get_message name s.messages ≡ ok (m, i)
      → (m.is_need_token && not (token == m.token)) ≡ false
      → publish b body name key token s ≡ call (b.publish_on_channel name key body) s
  unfolding publish
  publish-call body name key token s found fits = rw (found, ◌>>=◌, fits)

  abbrev pub PublishOutcome :
      (body name key token : Text) → State W → Result (Unit {0}) → State W → Type 0
  PublishOutcome body name key token s r s' =
      ((message_is_exists name s.messages ≡ false)
        × (r ≡ err (text "message not found"))
        × (s' ≡ s))
      ⊎ ((m : Message) × (i : ℕ) × IsFirst name s.messages i m
          × (((m.is_need_token ≡ true)
                × (token ≢ m.token)
                × (r ≡ err (text "token error"))
                × (s' ≡ s))
              ⊎ (((m.is_need_token ≡ true) → token ≡ m.token)
                  × ((r, s') ≡ call (b.publish_on_channel name key body) s))))

  -- `publish` hands the body to the broker, with that outcome, only when the message exists and
  -- the token is its own where it needs one; otherwise it fails and does nothing.
  publish_lem :
      (body name key token : Text) (s : State W)
      → PublishOutcome body name key token s
          (publish b body name key token s).0
          (publish b body name key token s).1
  unfolding publish
  publish_lem body name key token s = elim (get_message_lem name s.messages) [
    | inl (m, i, found, first) ↦ elim (Bool-cases m.is_need_token) [
      | inl needs ↦ elim (Bool-cases (token == m.token)) [
        | inl same ↦
            rw (found, ◌>>=◌, needs, same)
              (inr (m, i, first, inr (λ h. (==_iff token m.token).0 same, refl)))
        | inr other ↦
            rw (found, ◌>>=◌, needs, other)
              (inr (m, i, first, inl (needs, ground (arith, ==_iff token m.token), refl, refl)))
      ]
      | inr free ↦ rw (found, ◌>>=◌, free) (inr (m, i, first, inr (λ h. cc, refl)))
    ]
    | inr (missing, absent) ↦ rw (missing, ◌>>=◌) (inl (absent, refl, refl))
  ]
