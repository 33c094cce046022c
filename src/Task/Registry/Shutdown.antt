-- ===== src/Task/Registry/Shutdown.antt =====
-- The registry behind `shutdown`.
use cyng.Base.{
  ℕ, Bool, true, false, ◌||◌, List, [], ◌∷◌, ◌++◌, reverse, some, ◌==◌, ==_iff, if◌then◌else◌, ◌≡◌,
  refl, sym, ap, ◌∙◌, arith, Bool-cases, inl, inr, ◌≢◌, ◌⊎◌,
}
use mathlib.Core.List.{reverse-cons}
use cyng.Base.Result.{ok, err, assertion}
use cyng.Task.Channel
use cyng.Task.Channel.{Channel, get_id}
use cyng.Task.Registry.{
  Registry, Call, insert_call, emplace, find, locked, is_nil, set_channel, stop_all, shutdown,
  reset, run_call, run_next,
}

-- The address is in the list.
abbrev pub among : ℕ → List ℕ → Bool
among p [] = false
among p (q ∷ ps) = p == q || among p ps

among-append : (p : ℕ) (ps qs : List ℕ) → among p (ps ++ qs) ≡ (among p ps || among p qs)
among-append p [] qs = refl
among-append p (q ∷ ps) qs = rw (among-append p ps qs) (ground arith)

among-reverse : (p : ℕ) (ps : List ℕ) → among p (reverse ps) ≡ among p ps
among-reverse p [] = refl
among-reverse p (q ∷ ps) =
    ap (among p) (reverse-cons q ps)
    ∙ among-append p (reverse ps) (q ∷ [])
    ∙ rw (among-reverse p ps) (ground arith)

module _ {Msg : Type 0} where
  stop-stop : (c : Channel Msg) → (Channel.stop (Channel.stop c).0).0 ≡ (Channel.stop c).0
  unfolding Channel.stop
  stop-stop c = elim (Bool-cases c.open_) [ inl e ↦ rw e refl | inr e ↦ rw e refl ]

  stop_all-channels :
      (ps : List ℕ) (r : Registry Msg) (p : ℕ)
      → (stop_all ps r).channels p
        ≡ (if among p ps then (Channel.stop (r.channels p)).0 else r.channels p)
  unfolding stop_all
  stop_all-channels [] r p = refl
  stop_all-channels (q ∷ ps) r p =
      let before = stop_all-channels ps (set_channel q (Channel.stop (r.channels q)).0 r) p in
      elim (Bool-cases (p == q)) [
        | inl same ↦
            let here : q ≡ p = sym ((==_iff p q).0 same) in
            before ∙ rw same (once q p here (Bool-cases (among p ps)))
        | inr other ↦ before ∙ rw other refl
      ]
    where
      once :
          (q p : ℕ)
          → q ≡ p
          → (among p ps ≡ true) ⊎ (among p ps ≡ false)
          → (if among p ps
              then (Channel.stop (Channel.stop (r.channels q)).0).0
              else (Channel.stop (r.channels q)).0)
            ≡ (Channel.stop (r.channels p)).0
      once q p here (inl more) =
          rw more (stop-stop (r.channels q) ∙ ap (λ n. (Channel.stop (r.channels n)).0) here)
      once q p here (inr last) = rw last (ap (λ n. (Channel.stop (r.channels n)).0) here)

  stop_all-queue : (ps : List ℕ) (r : Registry Msg) → (stop_all ps r).queue ≡ r.queue
  unfolding stop_all
  stop_all-queue [] r = refl
  stop_all-queue (p ∷ ps) r = stop_all-queue ps (set_channel p (Channel.stop (r.channels p)).0 r)

  abbrev stopped : (ℕ → Bool) → Registry Msg → Registry Msg
  stopped alive r = record (stop_all (reverse (locked alive r.list)) r) {
    is_shutdown = true;
    list = [];
  }

  shutdown-stopped :
      (alive : ℕ → Bool) (r : Registry Msg)
      → r.is_shutdown ≡ false
      → shutdown alive r ≡ (stopped alive r, true)
  unfolding shutdown
  shutdown-stopped alive r h = ap (λ b. if b then (r, false) else (stopped alive r, true)) h

  channels-stopped :
      (alive : ℕ → Bool) (r : Registry Msg) (p : ℕ)
      → (stopped alive r).channels p
        ≡ (if among p (locked alive r.list) then (Channel.stop (r.channels p)).0 else r.channels p)
  channels-stopped alive r p =
      stop_all-channels (reverse (locked alive r.list)) r p
      ∙ rw (among-reverse p (locked alive r.list)) refl

  -- The first `shutdown` returns true: it stops every channel of the list that is alive, changes no other,
  -- and leaves an empty list. Another one returns false and changes nothing.
  pub shutdown_lem :
      (alive : ℕ → Bool) (r : Registry Msg)
      → r.is_shutdown ≡ false
      → let (r', done) = shutdown alive r in
        (done ≡ true)
        × (r'.is_shutdown ≡ true)
        × (r'.list ≡ [])
        × ((p : ℕ)
            → r'.channels p ≡ (
                if among p (locked alive r.list)
                then (Channel.stop (r.channels p)).0
                else r.channels p))
        × (shutdown alive r' ≡ (r', false))
  shutdown_lem alive r h =
      rw (shutdown-stopped alive r h)
        (refl, refl, refl, channels-stopped alive r, unfold shutdown in refl)

  -- An open channel whose insertion still waits for the strand when the registry is shut down is not
  -- stopped. It stands in the list afterwards, and with assertions compiled in `reset` fails.
  pub shutdown-insert :
      (alive : ℕ → Bool) (r : Registry Msg) (p : ℕ) (queue : List (Call Msg))
      → r.is_shutdown ≡ false
      → r.queue ≡ insert_call p ∷ queue
      → (r.channels p).open_ ≡ true
      → (r.channels p).id ≢ 0
      → among p (locked alive r.list) ≡ false
      → (r' : Registry Msg) × (run_next true alive (shutdown alive r).0 ≡ ok r')
        × (r'.channels p ≡ r.channels p)
        × (find (r.channels p).id r'.list ≡ some p)
        × (reset true r' ≡ err assertion)
  shutdown-insert alive r p queue h e open_ id absent =
      let s = stopped alive r in
      let same : s.channels p ≡ r.channels p = channels-stopped alive r p ∙ rw absent refl in
      let waiting : s.queue ≡ insert_call p ∷ queue =
        stop_all-queue (reverse (locked alive r.list)) r ∙ e in
      let known : get_id (s.channels p) ≡ (r.channels p).id =
        unfold get_id in rw (same, open_) refl in
      let named : (get_id (s.channels p) == 0) ≡ false = rw known (ground arith) in
      (
        record s { queue = queue; list = emplace (get_id (s.channels p)) p [] },
        rw (shutdown-stopped alive r h) (unfold run_next run_call in rw (waiting, named) refl),
        same,
        rw known (unfold find emplace in ground arith),
        unfold reset is_nil emplace in refl,
      )
