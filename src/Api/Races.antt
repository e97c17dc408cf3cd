-- ===== src/Api/Races.antt =====
-- Two requests that add a message (api.go): `apiMessageAdd` looks for the name without `msgLock`, so the other
-- request may do the same before the message is added.
use wmq.Common.{
  ℕ, subst, ◌≡◌, refl, sym, ap, ◌∙◌, inl, inr, Bool, true, false, ◌&&◌, List, [], ◌∷◌, ◌++◌, some,
  text, ◌==◌, ==_refl, ==_iff, arith, get_elem?, set,
}
use wmq.Registry.{Message, message_is_exists, get_message}
use wmq.Registry.Backend.{State, pure, ◌>>=◌, ◌>>◌}
use wmq.Registry.Lookups.{DistinctNames, get_message_lem}
use wmq.Registry.Names.{exists-append}
use wmq.Registry.Leads.{Leads, Leads-then, Leads-pure}
use wmq.Registry.Changes.{add_message-messages}
use wmq.Registry.Operations.{add_message}
use wmq.Api.{Request, Service, null, peek}
use wmq.Api.Handlers.{
  known_mode, message_of, lacks_message_args, is_ok, add_unless, api_message_add, save,
}

true-false : true ≡ false → ⊥
true-false e = cc

exists_last : (ms : List Message) (m : Message) → message_is_exists m.name (ms ++ m ∷ []) ≡ true
exists_last ms m = ground (arith, exists-append m.name ms m, ==_refl m.name)

-- The search finds a message that stands last.
found_last : (ms : List Message) (m : Message) → is_ok (get_message m.name (ms ++ m ∷ [])) ≡ true
found_last ms m = elim (get_message_lem m.name (ms ++ m ∷ [])) [
  | inl (x, i, found, first) ↦ ap is_ok found
  | inr (missing, absent) ↦ absurd (true-false (sym (exists_last ms m) ∙ absent))
]

DistinctNames-append :
    (ms : List Message) (m : Message)
    → DistinctNames (ms ++ m ∷ [])
    → message_is_exists m.name ms ≡ false
unfolding message_is_exists
DistinctNames-append [] m h = refl
DistinctNames-append (x ∷ xs) m h = ground (
  arith,
  exists-append x.name xs m,
  h.0,
  ==_iff x.name m.name,
  ==_iff m.name x.name,
  DistinctNames-append xs m h.1,
)

-- Where a request stands: before the search for the name, after it with its result, or at its end.
pub data AddPc : Type 0 where
  looks : AddPc
  looked : Bool → AddPc
  answered : AddPc

pub record Adder : Type 0 where
  pub request : Request
  pub pc : AddPc

pub record Adders (W : Type 0) : Type 0 where
  pub state : State W
  pub adders : List Adder

module _ {W : Type 0} (service : Service W) where
  -- One request goes on. The tests on the arguments touch nothing and come with the search.
  pub data AddStep (s : Adders W) : Adders W → Type 0 where
    refuses :
        (i : ℕ) (r : Request)
        → get_elem? s.adders i ≡ some (record { request = r; pc = looks })
        → lacks_message_args r ≡ true
        → AddStep s (record s { adders = set s.adders i (record { request = r; pc = answered }) })
    searches :
        (i : ℕ) (r : Request)
        → get_elem? s.adders i ≡ some (record { request = r; pc = looks })
        → lacks_message_args r ≡ false
        → AddStep s (record s {
          adders = set s.adders i (record {
            request = r;
            pc = looked (is_ok (get_message (peek r "Name") s.state.messages));
          });
        })
    adds :
        (i : ℕ) (r : Request) (exists : Bool)
        → get_elem? s.adders i ≡ some (record { request = r; pc = looked exists })
        → AddStep s (record {
          state = (add_unless service exists r s.state).1;
          adders = set s.adders i (record { request = r; pc = answered });
        })

  pub data AddReach (s : Adders W) : Adders W → Type 0 where
    here : AddReach s s
    next : {t u : Adders W} → AddReach s t → AddStep t u → AddReach s u

  abbrev pub at_pc : Request → AddPc → Adder
  at_pc r pc = record { request = r; pc = pc }

  -- A request that no other one crosses does what `apiMessageAdd` does.
  pub alone :
      (s : State W) (r : Request)
      → lacks_message_args r ≡ false
      → AddReach
          (record { state = s; adders = at_pc r looks ∷ [] })
          (record { state = (api_message_add service r s).1; adders = at_pc r answered ∷ [] })
  unfolding api_message_add
  alone s r args =
      rw (args, ◌>>=◌, ◌>>◌) (next (next here (searches 0 r refl args)) (adds 0 r _ refl))

  -- The request has its arguments, a mode that is known, and a token where it wants one.
  abbrev pub IsGood : Request → Type 0
  IsGood r =
      (lacks_message_args r ≡ false)
      × ((peek r "IsNeedToken" == text "1" && peek r "Token" == []) ≡ false)
      × (known_mode (peek r "Mode") ≡ true)

  add_unless-messages :
      (s : State W) (r : Request)
      → IsGood r
      → (add_unless service false r s).1.messages ≡ s.messages ++ message_of r ∷ []
  unfolding add_unless
  add_unless-messages s r (args, token, mode) =
      let P : List Message → Type 0 = λ ms. ms ≡ s.messages ++ message_of r ∷ [] in
      let saves : Leads P P (save service >> pure null) =
        Leads-then P (save service) _ (record { leads = λ t h. h }) (λ u. Leads-pure P null) in
      let added = add_message service.backend (message_of r) s in
      let (fine, listed) = add_message-messages service.backend (message_of r) s in
      rw (token, mode, ◌>>=◌, ◌>>◌, fine) (saves.leads added.1 listed)

  handler-add_unless :
      (s : State W) (r : Request)
      → lacks_message_args r ≡ false
      → (api_message_add service r s).1
        ≡ (add_unless service (is_ok (get_message (peek r "Name") s.messages)) r s).1
  unfolding api_message_add
  handler-add_unless s r args = rw (args, ◌>>=◌, ◌>>◌)

  refused : (s : State W) (r : Request) → (add_unless service true r s).1 ≡ s
  unfolding add_unless
  refused s r = refl

  refused_later :
      (r r' : Request) (s : State W)
      → IsGood r
      → IsGood r'
      → peek r "Name" ≡ peek r' "Name"
      → is_ok (get_message (peek r "Name") s.messages) ≡ false
      → (api_message_add service r' (api_message_add service r s).1).1.messages
        ≡ s.messages ++ message_of r ∷ []
  refused_later r r' s good good' same free =
      let t = (api_message_add service r s).1 in
      let first : t.messages ≡ s.messages ++ message_of r ∷ [] =
        ap (λ x. x.messages)
          (handler-add_unless s r good.0 ∙ ap (λ b. (add_unless service b r s).1) free)
        ∙ add_unless-messages s r good in
      let found : is_ok (get_message (peek r' "Name") t.messages) ≡ true =
        ap (λ ms. is_ok (get_message (peek r' "Name") ms)) first
        ∙ ap (λ x. is_ok (get_message x (s.messages ++ message_of r ∷ []))) (sym same)
        ∙ found_last s.messages (message_of r) in
      ap (λ x. x.messages)
        (handler-add_unless t r' good'.0
          ∙ ap (λ b. (add_unless service b r' t).1) found
          ∙ refused t r')
      ∙ first

  -- From here the two requests may be answered with both messages in the list, of one name.
  abbrev pub BothMayAdd : Request → Request → State W → Type 0
  BothMayAdd r r' s =
      (t : Adders W) × AddReach (record { state = s; adders = at_pc r looks ∷ at_pc r' looks ∷ [] })
        t
      × (t.adders ≡ at_pc r answered ∷ at_pc r' answered ∷ [])
      × (t.state.messages ≡ (s.messages ++ message_of r ∷ []) ++ message_of r' ∷ [])
      × (DistinctNames t.state.messages → ⊥)

  -- Two requests to add a message of a name that is free, good otherwise, may both be answered with their messages
  -- in the list, since the second may search before the first adds. When the second comes after the
  -- first, only the message of the first is there.
  pub add_message-race :
      (r r' : Request) (s : State W)
      → IsGood r
      → IsGood r'
      → peek r "Name" ≡ peek r' "Name"
      → is_ok (get_message (peek r "Name") s.messages) ≡ false
      → BothMayAdd r r' s
        × ((api_message_add service r' (api_message_add service r s).1).1.messages
            ≡ s.messages ++ message_of r ∷ [])
  add_message-race r r' s good good' same free =
      let m = message_of r in
      let m' = message_of r' in
      let s₁ = (add_unless service false r s).1 in
      let once = add_unless-messages s r good in
      let twice = add_unless-messages s₁ r' good' ∙ ap (λ ms. ms ++ m' ∷ []) once in
      let free' : is_ok (get_message (peek r' "Name") s.messages) ≡ false = rw (← same) free in
      let start : Adders W = record { state = s; adders = at_pc r looks ∷ at_pc r' looks ∷ [] } in
      let both : Adders W = record {
        state = s;
        adders = at_pc r (looked false) ∷ at_pc r' (looked false) ∷ [];
      } in
      let crossed : AddReach start both =
        subst
          (λ b.
            AddReach start
              (record { state = s; adders = at_pc r (looked b) ∷ at_pc r' (looked false) ∷ [] }))
          free
          (subst
            (λ b. AddReach start (record {
              state = s;
              adders =
                  at_pc r (looked (is_ok (get_message (peek r "Name") s.messages)))
                  ∷ at_pc r' (looked b)
                  ∷ [];
            }))
            free' (next (next here (searches 0 r refl good.0)) (searches 1 r' refl good'.0))) in
      (
        (
          record {
            state = (add_unless service false r' s₁).1;
            adders = at_pc r answered ∷ at_pc r' answered ∷ [];
          },
          next (next crossed (adds 0 r false refl)) (adds 1 r' false refl),
          refl,
          twice,
          λ h. true-false (
              sym (exists_last s.messages m)
              ∙ ap (λ x. message_is_exists x (s.messages ++ m ∷ [])) same
              ∙ DistinctNames-append (s.messages ++ m ∷ []) m' (subst DistinctNames twice h)),
        ),
        refused_later r r' s good good' same free,
      )
