-- ===== src/Task/Channel/Stop.antt =====
-- A channel behind `stop`.
use cyng.Base.{
  ℕ, suc, true, false, List, [], ◌∷◌, ◌++◌, none, ltb, if◌then◌else◌, length, All, ◌≡◌, ◌⊎◌, refl,
  sym, ap, ◌∙◌, arith, inl, inr,
}
use cyng.Base.Result.{ok, err, undefined}
use cyng.Task.Channel.{
  Job, message, halt, Reply, Channel, is_open, send, suspend, cancel_timer, expire, stop, run_job,
  run_next,
}
use cyng.Task.Channel.Schedule.{
  Action, sending, suspending, cancelling, expiring, stopping, running, perform, play, InRange,
  IsSound,
}

module _ {Msg : Type 0} where
  -- The turns of the strand in a schedule.
  abbrev pub turns : List (Action Msg) → ℕ
  turns [] = 0
  turns (running ∷ rest) = suc (turns rest)
  turns (_ ∷ rest) = turns rest

  -- A closed channel with no timer, and what is left on its strand.
  record IsClosed (c : Channel Msg) (q : List (Job Msg)) : Type 0 where
    closed : c.open_ ≡ false
    untimed : c.timer ≡ none
    left : c.queue ≡ q

  abbrev IsMessage : Job Msg → Type 0
  IsMessage (message slot msg reply) = Unit
  IsMessage halt = ⊥

  abbrev Ends : List (Action Msg) → Channel Msg → List (Job Msg) → Type 0
  Ends actions c log = (c' : Channel Msg) × (play false actions c ≡ ok c') × (c'.log ≡ log)

  untimed_lem : (c : Channel Msg) → c.timer ≡ none → record c { timer = none } ≡ c
  untimed_lem c e = λ i. record c { timer = sym e i }

  -- Nothing but a turn of the strand has an effect on a closed channel.
  still :
      (a : Action Msg) (c : Channel Msg) (q : List (Job Msg))
      → IsClosed c q
      → turns (a ∷ []) ≡ 0
      → perform false a c ≡ ok c
  unfolding perform is_open send suspend cancel_timer expire stop
  still (sending reply slot msg) c q v h = rw v.closed refl
  still (suspending slot msg) c q v h = rw v.closed refl
  still cancelling c q v h = ap ok (untimed_lem c v.untimed)
  still expiring c q v h = rw v.untimed refl
  still stopping c q v h = rw v.closed refl
  still running c q v h = absurd (omega (arith, h))

  Action-cases :
      (a : Action Msg)
      → (a ≡ running) ⊎ ((rest : List (Action Msg)) → turns (a ∷ rest) ≡ turns rest)
  Action-cases running = inl refl
  Action-cases (sending r s m) = inr (λ rest. refl)
  Action-cases (suspending s m) = inr (λ rest. refl)
  Action-cases cancelling = inr (λ rest. refl)
  Action-cases expiring = inr (λ rest. refl)
  Action-cases stopping = inr (λ rest. refl)

  play-done : (actions : List (Action Msg)) (c : Channel Msg) → IsClosed c [] → Ends actions c c.log
  unfolding play
  play-done [] c v = (c, refl, refl)
  play-done (a ∷ rest) c v =
      let (c', e, f) = play-done rest c v in
      elim (Action-cases a) [
        | inl turn ↦
            let idle : perform false running c ≡ ok c = unfold perform run_next in rw v.left refl in
            (c', rw (turn, idle) e, f)
        | inr other ↦ (c', rw (still a c [] v (other [])) e, f)
      ]

  other_turn :
      (a : Action Msg) (rest : List (Action Msg)) (c : Channel Msg) (q : List (Job Msg))
      {log : List (Job Msg)}
      → IsClosed c q
      → turns (a ∷ []) ≡ 0
      → Ends rest c log
      → Ends (a ∷ rest) c log
  unfolding play
  other_turn a rest c q v h (c', e, f) = (c', rw (still a c q v h) e, f)

  -- What the strand of a closed channel does: it drops the messages, and calls the task's stop.
  play-closed :
      (actions : List (Action Msg)) (c : Channel Msg) (messages : List (Job Msg))
      → All IsMessage messages
      → IsClosed c (messages ++ halt ∷ [])
      → Ends actions c (if ltb (length messages) (turns actions) then c.log ++ halt ∷ [] else c.log)
  unfolding play
  play-closed [] c messages m v = (c, refl, ground arith)
  play-closed (a ∷ rest) c [] m v = elim (Action-cases a) [
    | inl turn ↦
        let halted : Channel Msg = record c { queue = []; log = c.log ++ halt ∷ [] } in
        let first : perform false running c ≡ ok halted =
          unfold perform run_next run_job in rw v.left refl in
        let (c', e, f) =
          play-done rest halted (record { closed = v.closed; untimed = v.untimed; left = refl }) in
        (c', rw (turn, first) e, f ∙ rw turn (ground arith))
    | inr other ↦
        rw (other rest) (other_turn a rest c (halt ∷ []) v (other []) (play-closed rest c [] m v))
  ]
  play-closed (a ∷ rest) c (halt ∷ messages) m v = absurd m.0
  play-closed (a ∷ rest) c (message slot msg reply ∷ messages) m v = elim (Action-cases a) [
    | inl turn ↦
        let dropped : Channel Msg = record c { queue = messages ++ halt ∷ [] } in
        let first : perform false running c ≡ ok dropped =
          unfold perform run_next run_job is_open in rw (v.left, v.closed) refl in
        let (c', e, f) =
          play-closed rest dropped messages m.1
            (record { closed = v.closed; untimed = v.untimed; left = refl }) in
        (c', rw (turn, first) e, f ∙ rw turn (ground arith))
    | inr other ↦ rw (other rest) (
        other_turn a rest c (message slot msg reply ∷ (messages ++ halt ∷ [])) v (other [])
          (play-closed rest c (message slot msg reply ∷ messages) m v))
  ]

  All-IsMessage : (n : ℕ) (jobs : List (Job Msg)) → All (InRange n) jobs → All IsMessage jobs
  All-IsMessage n [] h = tt
  All-IsMessage n (message slot msg reply ∷ jobs) h = (tt, All-IsMessage n jobs h.1)
  All-IsMessage n (halt ∷ jobs) h = absurd h.0

  -- Without assertions compiled in: behind `stop`, which returns true once, every schedule goes well, and no message is handled any more:
  -- neither those that were waiting nor a later one nor that of the timer. The strand calls the task's
  -- stop, once, exactly when it has had more turns than there were messages waiting.
  pub play-stop :
      (actions : List (Action Msg)) (c : Channel Msg)
      → IsSound c
      → ((stop c).1 ≡ true)
        × ((stop (stop c).0).1 ≡ false)
        × ((c' : Channel Msg) × (play false actions (stop c).0 ≡ ok c')
            × (c'.log
                ≡ (if ltb (length c.queue) (turns actions) then c.log ++ halt ∷ [] else c.log)))
  unfolding stop cancel_timer
  play-stop actions c v =
      let m = All-IsMessage c.signature_count c.queue v.fits in
      (
        rw v.opened refl,
        rw v.opened refl,
        rw v.opened (
            play-closed actions
              (record c { open_ = false; timer = none; queue = c.queue ++ halt ∷ [] }) c.queue m
              (record { closed = refl; untimed = refl; left = refl })),
      )

  -- With assertions compiled in, a message that waits while an open channel is stopped makes the strand
  -- read the task of a channel that has none.
  pub run_next-stop_checked :
      (c : Channel Msg) (slot : ℕ) (msg : Msg) (reply : Reply) (q : List (Job Msg))
      → c.open_ ≡ true
      → c.queue ≡ message slot msg reply ∷ q
      → run_next true (stop c).0 ≡ err undefined
  unfolding run_next run_job is_open stop cancel_timer
  run_next-stop_checked c slot msg reply q h e = rw (h, e) refl
