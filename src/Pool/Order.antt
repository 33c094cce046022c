-- ===== src/Pool/Order.antt =====
-- No session is given twice, and the oldest is given first.
use cyng.Base.{
  ℕ, zero, suc, ◌+◌, ◌-◌, ◌%◌, ◌^◌, ◌≤◌, ◌<◌, Bool, true, false, List, [], ◌∷◌, ◌++◌, ltb, leb,
  ◌==◌, length, length-append, All, All-append, ◌≡◌, refl, sym, ap, ◌∙◌, arith, append_assoc,
  Bool-cases, inl, inr,
}
use cyng.Base.Result.{ok}
use cyng.Pool.{
  SessionPool, add_session, add_sessions, start, get_session, on_timer, stop, pop_front,
  start_timer,
}
use cyng.Pool.Events.{
  Event, starting, IsFresh, AreFresh, getting, ticking, stopping, Given, perform, play, IsAscending,
}

All-weaken : (n : ℕ) (l : List ℕ) → All (λ y. y < n) l → All (λ y. y < n + 1) l
All-weaken n [] h = tt
All-weaken n (y ∷ l) h = (omega arith, All-weaken n l h.1)

-- A list of sessions, all of them older than the attempt `n`.
abbrev pub AreOlder : ℕ → List ℕ → Type 0
AreOlder n l = IsAscending l × All (λ y. y < n) l

snoc-IsAscending : (n : ℕ) (l : List ℕ) → AreOlder n l → IsAscending (l ++ n ∷ [])
snoc-IsAscending n [] h = (tt, tt)
snoc-IsAscending n (x ∷ l) h =
    (All-append (λ y. x < y) l (n ∷ []) h.0.0 (h.1.0, tt), snoc-IsAscending n l (h.0.1, h.1.1))

snoc-AreOlder : (n : ℕ) (l : List ℕ) → AreOlder n l → AreOlder (n + 1) (l ++ n ∷ [])
snoc-AreOlder n l h = (
  snoc-IsAscending n l h,
  All-append (λ y. y < n + 1) l (n ∷ []) (All-weaken n l h.1) (omega arith, tt),
)

All-remove {ℓ} :
    (P : ℕ → Type ℓ) (front : List ℕ) (x : ℕ) (l : List ℕ)
    → All P (front ++ x ∷ l)
    → All P (front ++ l)
All-remove P [] x l h = h.1
All-remove P (y ∷ front) x l h = (h.0, All-remove P front x l h.1)

remove-AreOlder :
    (n : ℕ) (front : List ℕ) (x : ℕ) (l : List ℕ)
    → AreOlder n (front ++ x ∷ l)
    → AreOlder n (front ++ l)
remove-AreOlder n [] x l h = (h.0.1, h.1.1)
remove-AreOlder n (y ∷ front) x l h =
    let older = remove-AreOlder n front x l (h.0.1, h.1.1) in
    ((All-remove (λ z. y < z) front x l h.0.0, older.0), (h.1.0, older.1))

clear-AreOlder : (n : ℕ) (front l : List ℕ) → AreOlder n (front ++ l) → AreOlder n (front ++ [])
clear-AreOlder n front [] h = h
clear-AreOlder n front (x ∷ l) h = clear-AreOlder n front l (remove-AreOlder n front x l h)

module _ (opens : ℕ → Bool) where
  -- The sessions given, then those of the pool, from the oldest on; the pool is not too large.
  pub record IsSound (g : Given) : Type 0 where
    pub older : AreOlder g.sessions.attempts (g.given ++ g.sessions.pool)
    pub fits : length g.sessions.pool ≤ g.sessions.pool_size
    pub several : 1 < g.sessions.pool_size
    pub small : g.sessions.pool_size < 2 ^ 64

  add-AreOlder :
      (front : List ℕ) (p : SessionPool)
      → AreOlder p.attempts (front ++ p.pool)
      → AreOlder (add_session opens p).attempts (front ++ (add_session opens p).pool)
  unfolding add_session
  add-AreOlder front p h = elim (Bool-cases (opens p.attempts)) [
    | inl open_ ↦
        rw (open_, sym (append_assoc front p.pool (p.attempts ∷ [])))
          (snoc-AreOlder p.attempts (front ++ p.pool) h)
    | inr refused ↦ rw refused (h.0, All-weaken p.attempts (front ++ p.pool) h.1)
  ]

  length-add :
      (p : SessionPool)
      → (length p.pool ≤ length (add_session opens p).pool)
        × (length (add_session opens p).pool ≤ length p.pool + 1)
  unfolding add_session
  length-add p = elim (Bool-cases (opens p.attempts)) [
    | inl open_ ↦ rw open_ (omega (arith, length-append p.pool (p.attempts ∷ [])))
    | inr refused ↦ rw refused (omega arith)
  ]

  -- The oldest session is still the first one.
  add-cons :
      (p : SessionPool) (s : ℕ) (rest : List ℕ)
      → p.pool ≡ s ∷ rest
      → (rest' : List ℕ) × ((add_session opens p).pool ≡ s ∷ rest')
        × (length rest' ≤ length rest + 1)
  unfolding add_session
  add-cons p s rest e = elim (Bool-cases (opens p.attempts)) [
    | inl open_ ↦ (
      rest ++ p.attempts ∷ [],
      rw (open_, e) refl,
      omega (arith, length-append rest (p.attempts ∷ [])),
    )
    | inr refused ↦ (rest, rw (refused, e) refl, omega arith)
  ]

  adds-AreOlder :
      (n : ℕ) (front : List ℕ) (p : SessionPool)
      → AreOlder p.attempts (front ++ p.pool)
      → AreOlder (add_sessions opens n p).attempts (front ++ (add_sessions opens n p).pool)
        × (length (add_sessions opens n p).pool ≤ length p.pool + n)
        × ((add_sessions opens n p).pool_size ≡ p.pool_size)
  unfolding add_sessions
  adds-AreOlder zero front p h = (h, omega arith, refl)
  adds-AreOlder (suc n) front p h =
      let (older, len, size) =
        adds-AreOlder n front (add_session opens p) (add-AreOlder front p h) in
      (older, omega (arith, length-add p), size ∙ unfold add_session in refl)

  pop-pool :
      (p : SessionPool) (s : ℕ) (rest : List ℕ) → p.pool ≡ s ∷ rest → (pop_front p).pool ≡ rest
  pop-pool p s rest e = rw e refl

  size-add : (p : SessionPool) → (add_session opens p).pool_size ≡ p.pool_size
  unfolding add_session
  size-add p = refl

  abbrev Performs : Event → Given → Type 0
  Performs e g = (g' : Given) × (perform opens e g ≡ ok g') × IsSound g'

  getting-IsSound : (g : Given) (q : List ℕ) → g.sessions.pool ≡ q → IsSound g → Performs getting g
  unfolding perform get_session
  getting-IsSound g [] e v = (g, rw e refl, v)
  getting-IsSound g (s ∷ rest) e v =
      let p = g.sessions in
      let (rest', f, len) = add-cons p s rest e in
      let many : (p.pool_size == 1) ≡ false = ground (arith, v.several) in
      (
        record { given = g.given ++ s ∷ []; sessions = pop_front (add_session opens p) },
        rw (e, many) refl,
        record {
          older =
              rw (pop-pool (add_session opens p) s rest' f, append_assoc g.given (s ∷ []) rest')
                (rw f at (add-AreOlder g.given p v.older));
          fits =
              rw (pop-pool (add_session opens p) s rest' f)
                (omega (arith, size-add p, ap length e, v.fits));
          several = v.several;
          small = v.small;
        },
      )

  shuffle-IsSound :
      (g : Given) (q : List ℕ)
      → g.sessions.pool ≡ q
      → length q ≡ g.sessions.pool_size
      → IsSound g
      → IsSound (record g { sessions = start_timer (pop_front (add_session opens g.sessions)) })
  unfolding add_session
  shuffle-IsSound g [] e full v = absurd (omega (arith, full, v.several))
  shuffle-IsSound g (s ∷ rest) e full v =
      let p = g.sessions in
      let (rest', f, len) = add-cons p s rest e in
      record {
        older = rw (pop-pool (add_session opens p) s rest' f) (
            remove-AreOlder (add_session opens p).attempts g.given s rest'
              (rw f at (add-AreOlder g.given p v.older)));
        fits =
            rw (pop-pool (add_session opens p) s rest' f)
              (omega (arith, size-add p, ap length e, v.fits));
        several = v.several;
        small = v.small;
      }

  ticking-IsSound : (g : Given) → IsSound g → Performs ticking g
  unfolding perform on_timer
  ticking-IsSound g v =
      let p = g.sessions in
      let room : leb (length p.pool) p.pool_size ≡ true = ground (arith, v.fits) in
      elim (Bool-cases (length p.pool == p.pool_size)) [
        | inl full ↦ (
          record g { sessions = start_timer (pop_front (add_session opens p)) },
          rw (room, full) refl,
          shuffle-IsSound g p.pool refl (ground (arith, full)) v,
        )
        | inr less ↦
            let diff = (p.pool_size + 2 ^ 64 - length p.pool) % 2 ^ 64 in
            let (older, len, size) = adds-AreOlder diff g.given p v.older in
            (
              record g { sessions = start_timer (add_sessions opens diff p) },
              rw (room, less) refl,
              record {
                older = older;
                fits = omega (arith, len, size, v.fits, v.small);
                several = omega (arith, size, v.several);
                small = omega (arith, size, v.small);
              },
            )
      ]

  fresh-IsSound :
      (size life : ℕ) (g : Given)
      → 1 < size
      → IsFresh (starting size life) g
      → IsSound g
      → IsSound (record g {
        sessions =
            add_sessions opens size (record g.sessions { pool_size = size; life_time = life });
      })
  fresh-IsSound size life g several h v =
      let p = record g.sessions { pool_size = size; life_time = life } in
      let (older, len, fixed) = adds-AreOlder size g.given p v.older in
      record {
        older = older;
        fits = omega (arith, len, fixed, ap length h.0);
        several = omega (arith, fixed);
        small = omega (arith, fixed, h.2);
      }

  starting-IsSound :
      (size life : ℕ) (g : Given)
      → IsFresh (starting size life) g
      → IsSound g
      → Performs (starting size life) g
  unfolding perform start
  starting-IsSound size life g h v = elim (Bool-cases (ltb size 1)) [
    | inl nothing ↦ (g, rw nothing refl, v)
    | inr some_size ↦
        let several : 1 < size = ground (arith, some_size, h.1) in
        let more : ltb 1 size ≡ true = ground arith in
        elim (Bool-cases (ltb g.sessions.life_time 5)) [
          | inl short ↦ (
            record g { sessions = record g.sessions { pool_size = size } },
            rw (some_size, short) refl,
            record {
              older = v.older;
              fits = omega (arith, ap length h.0);
              several = several;
              small = h.2;
            },
          )
          | inr long ↦
              let sound = fresh-IsSound size life g several h v in
              (
                record g {
                  sessions = start_timer (
                      add_sessions opens size
                        (record g.sessions { pool_size = size; life_time = life }));
                },
                rw (some_size, long, more) refl,
                record {
                  older = sound.older;
                  fits = sound.fits;
                  several = sound.several;
                  small = sound.small;
                },
              )
        ]
  ]

  stopping-IsSound : (g : Given) → IsSound g → Performs stopping g
  unfolding perform stop
  stopping-IsSound g v = (
    record g { sessions = stop g.sessions },
    refl,
    record {
      older = clear-AreOlder g.sessions.attempts g.given g.sessions.pool v.older;
      fits = omega arith;
      several = v.several;
      small = v.small;
    },
  )

  perform-IsSound : (e : Event) (g : Given) → IsFresh e g → IsSound g → Performs e g
  perform-IsSound (starting size life) g h v = starting-IsSound size life g h v
  perform-IsSound getting g h v = getting-IsSound g g.sessions.pool refl v
  perform-IsSound ticking g h v = ticking-IsSound g v
  perform-IsSound stopping g h v = stopping-IsSound g v

  -- Let `start`, `get_session`, `stop` and the end of the timer come in any order, with any attempts to
  -- connect refused, on a pool of more than one session, for another database than SQLite, where `start`
  -- is called with another size than one, below 2 ^ 64, and only while no session is in the pool. No
  -- assertion fails; the sessions that were given and then those of the pool are in the order of their
  -- creation, so none is given twice or is given and still in the pool, and an older one is given first.
  -- The pool has at most its size.
  pub play-IsSound :
      (events : List Event) (g : Given)
      → AreFresh opens events g
      → IsSound g
      → (g' : Given) × (play opens events g ≡ ok g') × IsSound g'
  unfolding play AreFresh
  play-IsSound [] g h v = (g, refl, v)
  play-IsSound (event ∷ events) g h v =
      let (g1, e, v1) = perform-IsSound event g h.0 v in
      let (g2, f, v2) = play-IsSound events g1 (rw e at h.1) v1 in (g2, rw e f, v2)
