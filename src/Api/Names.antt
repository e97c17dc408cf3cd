-- ===== src/Api/Names.antt =====
-- The requests keep the names of the messages apart (api.go).
use wmq.Common.{
  ◌≡◌, refl, inl, inr, not, ◌&&◌, ◌==◌, Bool, true, false, List, [], ◌∷◌, Text, text, ok,
  Bool-cases,
}
use wmq.Registry.{Message, Consumer, message_is_exists, get_message}
use wmq.Registry.Lookups.{DistinctNames, get_message_lem}
use wmq.Registry.Backend.{State, M, pure, ◌>>=◌, ◌>>◌}
use wmq.Registry.Leads.{Leads, Leads-then, Leads-gets, Leads-pure}
use wmq.Registry.Reads.{Leads-status_message, Leads-status_consumer, Leads-reload, Leads-restart}
use wmq.Registry.Operations.{
  add_message, update_message, delete_message, add_consumer, update_consumer, delete_consumer,
}
use wmq.Registry.Distinct.{
  add_message-DistinctNames, update_message-DistinctNames, delete_message-DistinctNames,
  add_consumer-DistinctNames, update_consumer-DistinctNames, delete_consumer-DistinctNames,
}
use wmq.Api.{Request, Service, Content, null, peek, check_request}
use wmq.Api.Saves.{changes}
use wmq.Api.Handlers.{
  Route, message_add, message_update, message_delete, message_status, consumer_add, consumer_update,
  consumer_delete, consumer_status, reload_all, restart_all, config, save, draw_id, refuse_if,
  known_mode, is_ok, message_of, add_unless, api_message_add, api_message_update,
  api_message_delete, api_consumer_add, api_consumer_update, api_consumer_delete, api_reload,
  api_restart, api_message_status, api_consumer_status, handle, serve, serve_all,
}

module _ {W : Type 0} where
  Leads-refuse_if :
      (P : List Message → Type 0) (test : Bool) (e : Text) → Leads {W = W} P P (refuse_if test e)
  Leads-refuse_if P true e = record { leads = λ s p. p }
  Leads-refuse_if P false e = record { leads = λ s p. p }

  after-refuse_if :
      {P Q : List Message → Type 0}
      → ((ms : List Message) → P ms → Q ms)
      → {A : Type 0} (m : M W A) → Leads P Q m
      → (test : Bool) (e : Text) → Leads P Q (refuse_if test e >> m)
  after-refuse_if weaker m h true e = record { leads = λ s p. weaker s.messages p }
  after-refuse_if weaker m h false e = h

module _ {W : Type 0} (service : Service W) where
  Leads-save : Leads DistinctNames DistinctNames (save service)
  Leads-save = record { leads = λ s p. p }

  Leads-draw_id : Leads DistinctNames DistinctNames (draw_id service)
  Leads-draw_id = record { leads = λ s p. p }

  Leads-update_message :
      (m : Message) → Leads DistinctNames DistinctNames (update_message service.backend m)
  Leads-update_message m = record { leads = update_message-DistinctNames service.backend m }

  Leads-delete_message :
      (m : Message) → Leads DistinctNames DistinctNames (delete_message service.backend m)
  Leads-delete_message m = record { leads = delete_message-DistinctNames service.backend m }

  Leads-add_consumer :
      (m : Message) (c : Consumer)
      → Leads DistinctNames DistinctNames (add_consumer service.backend m c)
  Leads-add_consumer m c = record { leads = add_consumer-DistinctNames service.backend m c }

  Leads-update_consumer :
      (m : Message) (c : Consumer)
      → Leads DistinctNames DistinctNames (update_consumer service.backend m c)
  Leads-update_consumer m c = record { leads = update_consumer-DistinctNames service.backend m c }

  Leads-delete_consumer :
      (m : Message) (c : Consumer)
      → Leads DistinctNames DistinctNames (delete_consumer service.backend m c)
  Leads-delete_consumer m c = record { leads = delete_consumer-DistinctNames service.backend m c }

  ruleset blocks = (
    Leads-then, Leads-gets, Leads-pure, Leads-refuse_if, Leads-save, Leads-draw_id,
    Leads-update_message, Leads-delete_message, Leads-add_consumer, Leads-update_consumer,
    Leads-delete_consumer,
  )

  Absent : Text → List Message → Type 0
  Absent name ms = (message_is_exists name ms ≡ false) × DistinctNames ms

  add_unless-Leads :
      (exists : Bool) (r : Request)
      → Leads (Absent (peek r "Name")) DistinctNames (add_unless service exists r)
  unfolding add_unless add_message Absent
  add_unless-Leads exists r =
      guard _
        (guard _ (guard _ adds (not (known_mode (peek r "Mode"))) (text "args required.10002"))
          (peek r "IsNeedToken" == text "1" && peek r "Token" == []) (text "message exists"))
        exists (text "message exists")
    where
      guard :
          (m : M W Content)
          → Leads (Absent (peek r "Name")) DistinctNames m
          → (test : Bool) (e : Text)
          → Leads (Absent (peek r "Name")) DistinctNames (refuse_if test e >> m)
      guard = after-refuse_if λ ms h. h.1

      adds :
          Leads
            (Absent (peek r "Name"))
            DistinctNames
            (add_message service.backend (message_of r) >> (save service >> pure null))
      adds = record {
        leads = λ s h.
            let rest : Leads DistinctNames DistinctNames (save service >> pure null) =
              search blocks in
            rest.leads _ (add_message-DistinctNames service.backend (message_of r) s h.0 h.1);
      }

  api_message_add-Leads :
      (r : Request) → Leads DistinctNames DistinctNames (api_message_add service r)
  unfolding api_message_add add_unless Absent
  api_message_add-Leads r =
      search (after-refuse_if {W = W} {P = DistinctNames} {Q = DistinctNames} (λ ms h. h), looks_up)
    where
      refused :
          (r : Request) (s : State W)
          → DistinctNames s.messages
          → DistinctNames (add_unless service true r s).1.messages
      refused r s h = h

      looks_up : Leads DistinctNames DistinctNames (
          (λ s. (ok (is_ok (get_message (peek r "Name") s.messages)), s)) >>= λ x.
          add_unless service x r)
      looks_up = record {
        leads = λ s h. elim (get_message_lem (peek r "Name") s.messages) [
          | inl (m, i, found, first) ↦ rw found (refused r s h)
          | inr (missing, absent) ↦ rw missing ((add_unless-Leads false r).leads s (absent, h))
        ];
      }

  handle-reads :
      (P : List Message → Type 0) (route : Route) (r : Request)
      → changes route ≡ false
      → Leads P P (handle service route r)
  unfolding handle api_message_status api_consumer_status api_reload api_restart
  handle-reads P message_status r h =
      search (Leads-status_message service.backend P, Leads-then, Leads-pure)
  handle-reads P consumer_status r h =
      search (Leads-status_consumer service.backend P, Leads-then, Leads-pure)
  handle-reads P reload_all r h = search (Leads-reload service.backend P, Leads-then, Leads-pure)
  handle-reads P restart_all r h = search (Leads-restart service.backend P, Leads-then, Leads-pure)
  handle-reads P config r h = record { leads = λ s p. p }
  handle-reads P message_add r h = cc
  handle-reads P message_update r h = cc
  handle-reads P message_delete r h = cc
  handle-reads P consumer_add r h = cc
  handle-reads P consumer_update r h = cc
  handle-reads P consumer_delete r h = cc

  handle-Leads :
      (route : Route) (r : Request) → Leads DistinctNames DistinctNames (handle service route r)
  unfolding handle api_message_update api_message_delete api_consumer_add api_consumer_update
      api_consumer_delete
  handle-Leads message_add r = api_message_add-Leads r
  handle-Leads message_update r = search blocks depth 10
  handle-Leads message_delete r = search blocks depth 10
  handle-Leads consumer_add r = search blocks depth 10
  handle-Leads consumer_update r = search blocks depth 10
  handle-Leads consumer_delete r = search blocks depth 10
  handle-Leads message_status r = handle-reads DistinctNames message_status r refl
  handle-Leads consumer_status r = handle-reads DistinctNames consumer_status r refl
  handle-Leads reload_all r = handle-reads DistinctNames reload_all r refl
  handle-Leads restart_all r = handle-reads DistinctNames restart_all r refl
  handle-Leads config r = record { leads = λ s p. p }

  pub serve-DistinctNames :
      (route : Route) (r : Request) (s : State W)
      → DistinctNames s.messages
      → DistinctNames (serve service route r s).1.messages
  unfolding serve
  serve-DistinctNames route r s h = elim (Bool-cases (check_request service.api_token r)) [
    | inl allowed ↦ rw allowed ((handle-Leads route r).leads s h)
    | inr refused ↦ rw refused h
  ]

  -- When no two messages have one name, that stays so whatever requests are served one after the
  -- other, and whatever the broker, the manager and the file answer.
  serve_all-DistinctNames :
      (rs : List (Route × Request)) (s : State W)
      → DistinctNames s.messages
      → DistinctNames (serve_all service rs s).1.messages
  unfolding serve_all
  serve_all-DistinctNames [] s h = h
  serve_all-DistinctNames ((route, r) ∷ rs) s h =
      serve_all-DistinctNames rs _ (serve-DistinctNames route r s h)

  -- The routes that only read, and those that declare or start anew, leave the messages as they
  -- are.
  pub serve-messages :
      (route : Route) (r : Request) (s : State W)
      → changes route ≡ false
      → (serve service route r s).1.messages ≡ s.messages
  unfolding serve
  serve-messages route r s h = elim (Bool-cases (check_request service.api_token r)) [
    | inl allowed ↦ rw allowed ((handle-reads (λ ms. ms ≡ s.messages) route r h).leads s refl)
    | inr refused ↦ rw refused
  ]
