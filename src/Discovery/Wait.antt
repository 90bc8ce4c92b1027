-- ===== src/Discovery/Wait.antt =====
-- `MatchWait` of src/node.rs, the future of `wait_for_reader` and `wait_for_writer`, beside the spinner.
-- The spinner first records an event and then announces it on the channel of the waiter, which holds
-- 8 events and drops what does not fit. A poll first drains the channel and then looks at the matches;
-- other steps can come between any two of these.
use ros2_client.Base.{
  ℕ, suc, ◌<◌, Bool, true, false, not, List, [], ◌∷◌, none, some, ltb, if◌then◌else◌, is_empty, ◌≡◌,
  ◌≢◌, refl, arith, ◌∙◌, inl, inr, ◌⊎◌, sym,
}
use ros2_client.Base.Ordered.{Map, nat_key, get}
use ros2_client.Discovery.Matches.{Guid, GuidSet, StatusEvent, Matches, update_matches}

-- Where the future stands: not polled yet or woken, within a poll between its two parts, pending with
-- its waker installed, or resolved.
pub data Phase : Type 0 where
  starting drained pending resolved : Phase

pub record WaitState : Type 0 where
  pub matches : Matches
  pub announcing : Bool
  pub queued : ℕ
  pub phase : Phase

-- `MatchWait::matched`.
unfoldable pub matched : Guid → Map Guid GuidSet → Bool
matched local m = elim (get local m) [ none ↦ false | some remotes ↦ not (is_empty remotes) ]

pub data Step : Type 0 where
  records : StatusEvent → Step
  announces : Step
  drains : Step
  checks : Step

abbrev pub capacity : ℕ
capacity = 8

-- `try_send` on the channel.
abbrev pub try_send : ℕ → ℕ
try_send queued = if ltb queued capacity then suc queued else queued

-- The two parts of `MatchWait::poll`.
abbrev pub drain : Phase → WaitState → WaitState
drain starting s = record s { queued = 0; phase = drained }
drain pending s = record s { queued = 0; phase = drained }
drain drained s = s
drain resolved s = s

abbrev pub check : Guid → Phase → WaitState → WaitState
check local drained s = record s {
  phase = if matched local s.matches.writers_to_remote_readers then resolved else pending;
}
check local starting s = s
check local pending s = s
check local resolved s = s

-- The two parts of what the spinner does with an event, by whether it is about to announce one: it does
-- not record before it has announced.
abbrev pub record_event : StatusEvent → Bool → WaitState → WaitState
record_event e true s = s
record_event e false s = record s { matches = update_matches e s.matches; announcing = true }

abbrev pub announce : Bool → WaitState → WaitState
announce true s = record s { announcing = false; queued = try_send s.queued }
announce false s = s

unfoldable pub step : Guid → WaitState → Step → WaitState
step local s (records e) = record_event e s.announcing s
step local s announces = announce s.announcing s
step local s drains = drain s.phase s
step local s checks = check local s.phase s

abbrev pub run : Guid → WaitState → List Step → WaitState
run local s [] = s
run local s (t ∷ ts) = run local (step local s t) ts

-- A future that is pending although there is a match is about to be woken: an event is in its channel,
-- or the spinner is about to announce one.
abbrev pub IsAwake : Guid → WaitState → Type 0
IsAwake local s =
    s.phase ≡ pending
    → matched local s.matches.writers_to_remote_readers ≡ true
    → (s.announcing ≡ true) ⊎ (0 < s.queued)

drain-IsAwake :
    (local : Guid) (phase : Phase) (s : WaitState)
    → s.phase ≡ phase
    → IsAwake local s
    → IsAwake local (drain phase s)
drain-IsAwake local starting s e h p m = cc
drain-IsAwake local pending s e h p m = cc
drain-IsAwake local drained s e h p m = h p m
drain-IsAwake local resolved s e h p m = h p m

check-IsAwake :
    (local : Guid) (phase : Phase) (s : WaitState)
    → s.phase ≡ phase
    → IsAwake local s
    → IsAwake local (check local phase s)
check-IsAwake local drained s e h p m = ground (arith, p, m)
check-IsAwake local starting s e h p m = h p m
check-IsAwake local pending s e h p m = h p m
check-IsAwake local resolved s e h p m = h p m

record_event-IsAwake :
    (local : Guid) (e : StatusEvent) (a : Bool) (s : WaitState)
    → IsAwake local s
    → IsAwake local (record_event e a s)
record_event-IsAwake local e true s h p m = h p m
record_event-IsAwake local e false s h p m = inl refl

try_send_positive : (queued : ℕ) → 0 < try_send queued
try_send_positive queued = ground arith

announce-IsAwake :
    (local : Guid) (a : Bool) (s : WaitState) → IsAwake local s → IsAwake local (announce a s)
announce-IsAwake local true s h p m = inr (try_send_positive s.queued)
announce-IsAwake local false s h p m = h p m

step-IsAwake :
    (local : Guid) (s : WaitState) (t : Step) → IsAwake local s → IsAwake local (step local s t)
unfolding step
step-IsAwake local s (records e) h = record_event-IsAwake local e s.announcing s h
step-IsAwake local s announces h = announce-IsAwake local s.announcing s h
step-IsAwake local s drains h = drain-IsAwake local s.phase s refl h
step-IsAwake local s checks h = check-IsAwake local s.phase s refl h

IsAwake-run :
    (local : Guid) (s : WaitState) (ts : List Step)
    → IsAwake local s
    → IsAwake local (run local s ts)
IsAwake-run local s [] h = h
IsAwake-run local s (t ∷ ts) h = IsAwake-run local (step local s t) ts (step-IsAwake local s t h)

starting_ne : starting ≢ pending
starting_ne e = cc

stays :
    (local : Guid) (phase : Phase) (s : WaitState)
    → phase ≡ resolved
    → s.phase ≡ resolved
    → (check local phase s).phase ≡ resolved
stays local resolved s p e = e
stays local pending s p e = e
stays local starting s p e = e
stays local drained s p e = absurd (drained_ne p)
  where
    drained_ne : drained ≡ resolved → ⊥
    drained_ne q = cc

resolves :
    (local : Guid) (phase : Phase) (s : WaitState)
    → s.phase ≡ phase
    → matched local s.matches.writers_to_remote_readers ≡ true
    → (check local (drain phase s).phase (drain phase s)).phase ≡ resolved
resolves local starting s e m = rw m refl
resolves local pending s e m = rw m refl
resolves local drained s e m = rw (e, m) refl
resolves local resolved s e m = stays local s.phase s e e

-- No wakeup is lost, however the spinner and the polls of the future interleave and whatever does not
-- fit into the channel: a future that is pending although its endpoint has a match finds an event in
-- its channel, or the spinner is about to announce one and the channel has an event then. And a poll
-- while there is a match resolves the future.
pub run-IsAwake :
    (local : Guid) (s : WaitState) (ts : List Step)
    → s.phase ≡ starting
    → let s' = run local s ts in
      matched local s'.matches.writers_to_remote_readers ≡ true
      → (s'.phase ≡ pending → (0 < s'.queued) ⊎ (0 < (step local s' announces).queued))
        × ((run local s' (drains ∷ checks ∷ [])).phase ≡ resolved)
unfolding step
run-IsAwake local s ts fresh m =
    let s' = run local s ts in
    (
      λ p. elim (IsAwake-run local s ts (λ q. absurd (starting_ne (sym fresh ∙ q))) p m) [
        | inl a ↦ inr (rw a (try_send_positive s'.queued))
        | inr q ↦ inl q
      ],
      resolves local s'.phase s' refl m,
    )
