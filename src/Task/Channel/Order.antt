-- ===== src/Task/Channel/Order.antt =====
-- The messages of an open channel, in their order.
use cyng.Base.{
  ℕ, true, false, List, [], ◌∷◌, ◌++◌, Option, none, some, ltb, lt→ltb, All, All-append, ◌≡◌, refl,
  sym, ◌∙◌, arith, append_assoc, append-nil, Bool-cases, inl, inr,
}
use cyng.Base.Result.{ok}
use cyng.Task.Channel.{Job, message, halt, Reply, nothing, Channel, post, is_open, send}
use cyng.Task.Channel.Schedule.{
  Action, sending, suspending, cancelling, expiring, stopping, running, perform, play, offer,
  timer_after, offered, KeepsOpen, InRange, IsSound,
}

module _ {Msg : Type 0} where
  -- What one action does to a sound channel.
  record Done (a : Action Msg) (c c' : Channel Msg) : Type 0 where
    sound : IsSound c'
    count : c'.signature_count ≡ c.signature_count
    timer : c'.timer ≡ timer_after c.signature_count c.timer a
    jobs : c'.log ++ c'.queue ≡ (c.log ++ c.queue) ++ offer c.signature_count c.timer a

  abbrev Performs : Action Msg → Channel Msg → Type 0
  Performs a c = (c' : Channel Msg) × (perform false a c ≡ ok c') × Done a c c'

  sending-Done :
      (reply : Reply) (slot : ℕ) (msg : Msg) (c : Channel Msg)
      → IsSound c
      → Performs (sending reply slot msg) c
  unfolding perform is_open send
  sending-Done reply slot msg c v = elim (Bool-cases (ltb slot c.signature_count)) [
    | inl fits ↦ (
      post (message slot msg reply) c,
      rw (v.opened, fits) refl,
      record {
        sound = record {
          opened = v.opened;
          fits = All-append (InRange c.signature_count) c.queue _ v.fits (ground arith, tt);
          timed = v.timed;
        };
        count = refl;
        timer = refl;
        jobs = rw fits (sym (append_assoc c.log c.queue (message slot msg reply ∷ [])));
      },
    )
    | inr out ↦ (
      c,
      rw (v.opened, out) refl,
      record {
        sound = v;
        count = refl;
        timer = refl;
        jobs = rw out (sym (append-nil (c.log ++ c.queue)));
      },
    )
  ]

  suspending-Done :
      (slot : ℕ) (msg : Msg) (c : Channel Msg) → IsSound c → Performs (suspending slot msg) c
  unfolding perform is_open
  suspending-Done slot msg c v = elim (Bool-cases (ltb slot c.signature_count)) [
    | inl fits ↦ (
      record c { timer = some (slot, msg) },
      rw (v.opened, fits) refl,
      record {
        sound = record { opened = v.opened; fits = v.fits; timed = ground arith };
        count = refl;
        timer = rw fits refl;
        jobs = sym (append-nil (c.log ++ c.queue));
      },
    )
    | inr out ↦ (
      c,
      rw (v.opened, out) refl,
      record {
        sound = v;
        count = refl;
        timer = rw out refl;
        jobs = sym (append-nil (c.log ++ c.queue));
      },
    )
  ]

  cancelling-Done : (c : Channel Msg) → IsSound c → Performs cancelling c
  unfolding perform
  cancelling-Done c v = (
    record c { timer = none },
    refl,
    record {
      sound = record { opened = v.opened; fits = v.fits; timed = tt };
      count = refl;
      timer = refl;
      jobs = sym (append-nil (c.log ++ c.queue));
    },
  )

  expiring-Done :
      (c : Channel Msg) → IsSound c → (x : Option (ℕ × Msg)) → c.timer ≡ x → Performs expiring c
  unfolding perform
  expiring-Done c v none e = (
    c,
    rw e refl,
    record {
      sound = v;
      count = refl;
      timer = e;
      jobs = rw e (sym (append-nil (c.log ++ c.queue)));
    },
  )
  expiring-Done c v (some (slot, msg)) e = (
    record c { timer = none; queue = c.queue ++ message slot msg nothing ∷ [] },
    rw e refl,
    record {
      sound = record {
        opened = v.opened;
        fits = All-append (InRange c.signature_count) c.queue _ v.fits (rw e at v.timed, tt);
        timed = tt;
      };
      count = refl;
      timer = refl;
      jobs = rw e (sym (append_assoc c.log c.queue (message slot msg nothing ∷ [])));
    },
  )

  running-Done :
      (c : Channel Msg) → IsSound c → (x : List (Job Msg)) → c.queue ≡ x → Performs running c
  unfolding perform is_open
  running-Done c v [] e = (
    c,
    rw e refl,
    record { sound = v; count = refl; timer = refl; jobs = sym (append-nil (c.log ++ c.queue)) },
  )
  running-Done c v (halt ∷ q) e = absurd ((rw e at v.fits).0)
  running-Done c v (message slot msg reply ∷ q) e =
      let front : ltb slot c.signature_count ≡ true =
        lt→ltb slot c.signature_count ((rw e at v.fits).0) in
      (
        record c { queue = q; log = c.log ++ message slot msg reply ∷ [] },
        rw (e, v.opened, front) refl,
        record {
          sound = record { opened = v.opened; fits = (rw e at v.fits).1; timed = v.timed };
          count = refl;
          timer = refl;
          jobs = rw e (
              append_assoc c.log (message slot msg reply ∷ []) q
              ∙ sym (append-nil (c.log ++ message slot msg reply ∷ q)));
        },
      )

  perform-Done : (a : Action Msg) (c : Channel Msg) → IsSound c → KeepsOpen a → Performs a c
  perform-Done (sending reply slot msg) c v k = sending-Done reply slot msg c v
  perform-Done (suspending slot msg) c v k = suspending-Done slot msg c v
  perform-Done cancelling c v k = cancelling-Done c v
  perform-Done expiring c v k = expiring-Done c v c.timer refl
  perform-Done stopping c v k = absurd k
  perform-Done running c v k = running-Done c v c.queue refl

  -- Without assertions compiled in: until a channel is stopped, every schedule of calls and handlers goes well and leaves it open. The
  -- messages handled and those waiting are the ones that were offered, in their order: with a slot that
  -- the task has, or by the end of the timer.
  pub play-offered :
      (actions : List (Action Msg)) (c : Channel Msg)
      → IsSound c
      → All KeepsOpen actions
      → (c' : Channel Msg) × (play false actions c ≡ ok c')
        × IsSound c'
        × (c'.log ++ c'.queue ≡ (c.log ++ c.queue) ++ offered c.signature_count c.timer actions)
  unfolding play
  play-offered [] c v k = (c, refl, v, sym (append-nil (c.log ++ c.queue)))
  play-offered (a ∷ rest) c v k =
      let (c1, e, done) = perform-Done a c v k.0 in
      let (c2, f, v2, jobs) = play-offered rest c1 done.sound k.1 in
      (
        c2,
        rw e f,
        v2,
        jobs
            ∙ rw (done.jobs, done.count, done.timer)
                (append_assoc (c.log ++ c.queue) (offer c.signature_count c.timer a) _),
      )
