-- ===== src/Registry/Backend.antt =====
-- What message.go asks of mq.go and of the consumer manager, and a monad for functions that act on
-- these and on `messages` and may return early with an error. What was done before stays done.
use mathlib.Core.Path.{fun_ext}
use wmq.Common.{◌≡◌, Bool, Option, none, some, List, Text, Result, ok, err}
use wmq.Mq.{Queue}
use wmq.Registry.{Message, Consumer}

-- The operations over the state `W` of the pools, the broker and the manager. `answer` is the
-- manager's answer to a command: the action, the consumer and the message.
pub record Backend (W : Type 0) : Type 0 where
  pub exchange_declare : Text → Text → Bool → W → Option Text × W
  pub queue_declare : Text → Bool → W → (Queue × Option Text) × W
  pub queue_bind_to_exchange : Text → Text → Text → W → Option Text × W
  pub delete_queue : Text → W → Option Text × W
  pub delete_exchange : Text → W → Option Text × W
  pub publish_on_channel : Text → Text → Text → W → Option Text × W
  pub answer : Text → Consumer → Message → W → Text × W

pub record State (W : Type 0) : Type 0 where
  pub messages : List Message
  pub world : W

abbrev pub M : Type 0 → Type 0 → Type 0
M W A = State W → Result A × State W

abbrev as_result : Option Text → Result (Unit {0})
as_result none = ok tt
as_result (some e) = err e

module _ {W : Type 0} where
  abbrev pub pure : {A : Type 0} → A → M W A
  pure a s = (ok a, s)

  abbrev pub fail : {A : Type 0} → Text → M W A
  fail e s = (err e, s)

  abbrev pub continue : {A B : Type 0} → Result A → (A → M W B) → M W B
  continue (ok a) f = f a
  continue (err e) f = fail e

  infixl 5 ◌>>=◌ ◌>>◌
  abbrev pub ◌>>=◌ : {A B : Type 0} → M W A → (A → M W B) → M W B
  ◌>>=◌ m f s = let (r, s') = m s in continue r f s'

  abbrev pub ◌>>◌ : {A B : Type 0} → M W A → M W B → M W B
  m >> n = m >>= λ _. n

  -- A call of which the error is returned, and one whose error is dropped.
  abbrev pub call : (W → Option Text × W) → M W (Unit {0})
  call f s = let (e, w) = f s.world in (as_result e, record s { world = w })

  abbrev pub ignore : {A : Type 0} → M W A → M W (Unit {0})
  ignore m s = (ok tt, (m s).1)

  abbrev pub gets : {A : Type 0} → (List Message → Result A) → M W A
  gets f s = (f s.messages, s)

  -- `messages = …`
  abbrev pub modify : (List Message → List Message) → M W (Unit {0})
  modify f s = (ok tt, record s { messages = f s.messages })

  -- Two blocks are equal that are so part by part.
  pub >>-eq :
      {A B : Type 0} (m n : M W A) (k l : M W B) (s : State W)
      → m s ≡ n s
      → ((t : State W) → k t ≡ l t)
      → (m >> k) s ≡ (n >> l) s
  >>-eq m n k l s h rest = λ i. let (r, t) = h i in continue r (λ _. fun_ext rest i) t
