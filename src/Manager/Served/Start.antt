-- ===== src/Manager/Served/Start.antt =====
-- `initMessages` of message.go over the RabbitMQ calls of mq.go and the consumer manager: which goroutines there are
-- after it.
use wmq.Common.{subst, ℕ, zero, suc, ◌≡◌, some, List, [], ◌∷◌, ◌++◌, Text, text, ok, get_elem?}
use wmq.Mq.{Amqp}
use wmq.Mq.Declares.{AlwaysChannel}
use wmq.Registry.{Message, Consumer, get_consumer_key}
use wmq.Registry.Backend.{Backend, State}
use wmq.Registry.Operations.{init_messages}
use wmq.Registry.Declaring.{
  Step, declares_exchange, declares_queue, binds_queue, updates_worker, consumer_steps, steps,
  take_step, take_steps, init_messages-take_steps,
}
use wmq.Registry.Broker.{Outside, mq_backend, Willing, step_fine, init_messages-Willing}
use wmq.Manager.{Worker, System}
use wmq.Manager.Served.{update_alone, HasWorker, IsReady, update_alone-Updated}

-- A goroutine for the consumer of the step.
abbrev Serves : List Worker → Step → Type 0
Serves ws (updates_worker m c) = HasWorker (get_consumer_key m c) ws
Serves ws x = Unit

abbrev AllSteps : (Step → Type 0) → List Step → Type 0
AllSteps P [] = Unit
AllSteps P (x ∷ xs) = P x × AllSteps P xs

AllSteps-mono :
    (P Q : Step → Type 0) (xs : List Step)
    → ((x : Step) → P x → Q x)
    → AllSteps P xs
    → AllSteps Q xs
AllSteps-mono P Q [] f h = tt
AllSteps-mono P Q (x ∷ xs) f h = (f x h.0, AllSteps-mono P Q xs f h.1)

some-injective : {A : Type 0} {x y : A} → some x ≡ some y → x ≡ y
some-injective e = cc

module _ (P : Step → Type 0) where
  AllSteps-append : (xs ys : List Step) → AllSteps P (xs ++ ys) → AllSteps P xs × AllSteps P ys
  AllSteps-append [] ys h = (tt, h)
  AllSteps-append (x ∷ xs) ys h =
      let (first, rest) = AllSteps-append xs ys h.1 in ((h.0, first), rest)

  consumer_steps-get :
      (m : Message) (cs : List Consumer) (j : ℕ) (c : Consumer)
      → get_elem? cs j ≡ some c
      → AllSteps P (consumer_steps m cs)
      → P (updates_worker m c)
  consumer_steps-get m [] j c e h = cc
  consumer_steps-get m (x ∷ cs) zero c e h =
      subst (λ y. P (updates_worker m y)) (some-injective e) h.1.1.0
  consumer_steps-get m (x ∷ cs) (suc j) c e h = consumer_steps-get m cs j c e h.1.1.1

  steps-get :
      (ms : List Message) (i j : ℕ) (m : Message) (c : Consumer)
      → get_elem? ms i ≡ some m
      → get_elem? m.consumers j ≡ some c
      → AllSteps P (steps ms)
      → P (updates_worker m c)
  steps-get [] i j m c e e' h = cc
  steps-get (x ∷ ms) zero j m c e e' h =
      let (own, rest) = AllSteps-append (consumer_steps x x.consumers) (steps ms) h.1 in
      consumer_steps-get m m.consumers j c e'
        (subst (λ y. AllSteps P (consumer_steps y y.consumers)) (some-injective e) own)
  steps-get (x ∷ ms) (suc i) j m c e e' h =
      let (own, rest) = AllSteps-append (consumer_steps x x.consumers) (steps ms) h.1 in
      steps-get ms i j m c e e' rest

module _ {B C H : Type 0} (amqp : Amqp B C H) (prefix : Text)
    (answers : Text → Consumer → Message → System → Text × System) (channels : AlwaysChannel amqp)
    (willing : Willing amqp)
    (updates : (c : Consumer) (m : Message) (s : System)
      → answers (text "update") c m s ≡ (text "completed", update_alone c m s)) where
  abbrev backend : Backend (Outside B C H System)
  backend = mq_backend amqp prefix answers

  -- After some steps the manager is ready, no goroutine is lost, and each step's consumer has one.
  record Taken (s t : System) (xs : List Step) : Type 0 where
    ready : IsReady t
    grows : (k : Text) → HasWorker k s.workers → HasWorker k t.workers
    serves : AllSteps (Serves t.workers) xs

  take_step-Taken :
      (x : Step) (w : Outside B C H System)
      → IsReady w.manager
      → Taken w.manager (take_step backend x w).1.manager (x ∷ [])
  take_step-Taken (declares_exchange m) w h = record {
    ready = h;
    grows = λ k old. old;
    serves = (tt, tt);
  }
  take_step-Taken (declares_queue m c) w h = record {
    ready = h;
    grows = λ k old. old;
    serves = (tt, tt);
  }
  take_step-Taken (binds_queue m c) w h = record {
    ready = h;
    grows = λ k old. old;
    serves = (tt, tt);
  }
  take_step-Taken (updates_worker m c) w h =
      let done = update_alone-Updated c m w.manager h in
      rw (updates c m w.manager)
        (record { ready = done.ready; grows = done.grows; serves = (done.served, tt) })

  Serves-grows :
      (ws ws' : List Worker)
      → ((k : Text) → HasWorker k ws → HasWorker k ws')
      → (x : Step) → Serves ws x
      → Serves ws' x
  Serves-grows ws ws' f (declares_exchange m) h = tt
  Serves-grows ws ws' f (declares_queue m c) h = tt
  Serves-grows ws ws' f (binds_queue m c) h = tt
  Serves-grows ws ws' f (updates_worker m c) h = f (get_consumer_key m c) h

  take_steps-Taken :
      (xs : List Step) (s : State (Outside B C H System))
      → IsReady s.world.manager
      → Taken s.world.manager (take_steps backend xs s).1.world.manager xs
  take_steps-Taken [] s h = record { ready = h; grows = λ k old. old; serves = tt }
  take_steps-Taken (x ∷ xs) s h =
      let first = take_step-Taken x s.world h in
      let s₁ : State (Outside B C H System) = record s {
        world = (take_step backend x s.world).1;
      } in
      let rest = take_steps-Taken xs s₁ first.ready in
      rw (step_fine amqp prefix answers channels willing x s.world) (record {
        ready = rest.ready;
        grows = λ k old. rest.grows k (first.grows k old);
        serves = (Serves-grows _ _ rest.grows x first.serves.0, rest.serves);
      })

  -- When channels can be had, the broker declares and binds what it is asked to, the manager is ready at
  -- the start and no goroutine of a consumer moves meanwhile, `initMessages` succeeds, every consumer of every message has a goroutine afterwards,
  -- the state is one that the manager and the goroutines can reach, and no entry is without a goroutine.
  pub init_messages-Served :
      (s : State (Outside B C H System))
      → IsReady s.world.manager
      → ((init_messages backend s).0 ≡ ok tt)
        × IsReady (init_messages backend s).1.world.manager
        × ((i j : ℕ) (m : Message) (c : Consumer)
            → get_elem? s.messages i ≡ some m
            → get_elem? m.consumers j ≡ some c
            → HasWorker (get_consumer_key m c) (init_messages backend s).1.world.manager.workers)
  init_messages-Served s h =
      let taken = take_steps-Taken (steps s.messages) s h in
      let fine = init_messages-Willing amqp prefix answers channels willing s in
      rw (init_messages-take_steps backend s) (
        rw (init_messages-take_steps backend s) at fine,
        taken.ready,
        λ i j m c e e'. steps-get (Serves _) s.messages i j m c e e' taken.serves,
      )
