-- ===== src/Task/Channel/Schedule.antt =====
-- A channel under calls and handlers in any order. Assertions are not compiled in.
use cyng.Base.{
  ℕ, ◌<◌, Bool, true, List, [], ◌∷◌, ◌++◌, Option, none, some, ltb, if◌then◌else◌, All, ◌≡◌,
}
use cyng.Base.Result.{Result, ok, ◌>>=◌}
use cyng.Task.Channel.{
  Job, message, halt, Reply, nothing, Channel, send, suspend, cancel_timer, expire, stop, run_next,
}

module _ (Msg : Type 0) where
  -- A call of the channel, the end of its timer, or a turn of its strand.
  pub data Action : Type 0 where
    sending : Reply → ℕ → Msg → Action
    suspending : ℕ → Msg → Action
    cancelling expiring stopping running : Action

module _ {Msg : Type 0} where
  unfoldable pub perform : Bool → Action Msg → Channel Msg → Result (Channel Msg)
  unfolding send suspend cancel_timer expire stop run_next
  perform checked (sending reply slot msg) c = send checked reply slot msg c
  perform checked (suspending slot msg) c = suspend checked slot msg c >>= λ r. ok r.0
  perform checked cancelling c = ok (cancel_timer c).0
  perform checked expiring c = ok (expire c)
  perform checked stopping c = ok (stop c).0
  perform checked running c = run_next checked c

  unfoldable pub play : Bool → List (Action Msg) → Channel Msg → Result (Channel Msg)
  unfolding perform
  play checked [] c = ok c
  play checked (a ∷ rest) c = perform checked a c >>= play checked rest

  -- What an action puts on the strand of an open channel with `n` slots and the timer `t`.
  abbrev pub offer : ℕ → Option (ℕ × Msg) → Action Msg → List (Job Msg)
  offer n t (sending reply slot msg) = if ltb slot n then message slot msg reply ∷ [] else []
  offer n (some (slot, msg)) expiring = message slot msg nothing ∷ []
  offer n t _ = []

  abbrev pub timer_after : ℕ → Option (ℕ × Msg) → Action Msg → Option (ℕ × Msg)
  timer_after n t (suspending slot msg) = if ltb slot n then some (slot, msg) else t
  timer_after n t cancelling = none
  timer_after n t expiring = none
  timer_after n t _ = t

  -- The messages that the actions offer, with those of the timer where it ends.
  abbrev pub offered : ℕ → Option (ℕ × Msg) → List (Action Msg) → List (Job Msg)
  offered n t [] = []
  offered n t (a ∷ rest) = offer n t a ++ offered n (timer_after n t a) rest

  abbrev pub KeepsOpen : Action Msg → Type 0
  KeepsOpen stopping = ⊥
  KeepsOpen a = Unit

  abbrev pub InRange : ℕ → Job Msg → Type 0
  InRange n (message slot msg reply) = slot < n
  InRange n halt = ⊥

  abbrev pub TimerFits : ℕ → Option (ℕ × Msg) → Type 0
  TimerFits n none = Unit
  TimerFits n (some (slot, msg)) = slot < n

  -- An open channel whose pending messages have a slot.
  pub record IsSound (c : Channel Msg) : Type 0 where
    pub opened : c.open_ ≡ true
    pub fits : All (InRange c.signature_count) c.queue
    pub timed : TimerFits c.signature_count c.timer
