-- ===== src/Registry/Leads.antt =====
-- What a block of calls (message.go, api.go) does to the messages, put together from its parts.
use wmq.Common.{List, Result, ok, err}
use wmq.Registry.{Message}
use wmq.Registry.Backend.{State, M, pure, continue, ◌>>=◌, gets, ignore}

module _ {W : Type 0} where
  -- From messages with `P` a block comes to messages with `Q`, whatever its result.
  pub record Leads (P Q : List Message → Type 0) {A : Type 0} (m : M W A) : Type 0 where
    pub leads : (s : State W) → P s.messages → Q (m s).1.messages

  module _ (P : List Message → Type 0) where
    Leads-continue :
        {A B : Type 0} (f : A → M W B)
        → ((a : A) → Leads P P (f a))
        → (r : Result A) (s : State W) → P s.messages
        → P (continue r f s).1.messages
    Leads-continue f h (ok a) s p = (h a).leads s p
    Leads-continue f h (err x) s p = p

    pub Leads-then :
        {A B : Type 0} (m : M W A) (f : A → M W B)
        → Leads P P m
        → ((a : A) → Leads P P (f a))
        → Leads P P (m >>= f)
    Leads-then m f first h = record {
      leads = λ s p. Leads-continue f h (m s).0 (m s).1 (first.leads s p);
    }

    pub Leads-gets : {A : Type 0} (f : List Message → Result A) → Leads P P (gets f)
    Leads-gets f = record { leads = λ s p. p }

    pub Leads-pure : {A : Type 0} (a : A) → Leads P P (pure a)
    Leads-pure a = record { leads = λ s p. p }

    pub Leads-ignore : {A : Type 0} (m : M W A) → Leads P P m → Leads P P (ignore m)
    Leads-ignore m h = record { leads = h.leads }
