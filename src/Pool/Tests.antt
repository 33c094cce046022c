-- ===== src/Pool/Tests.antt =====
-- A pool of two sessions.
use cyng.Base.{ℕ, ◌+◌, Bool, true, false, [], ◌∷◌, length, ◌≡◌, refl, arith, ◌==◌, not}
use cyng.Base.Result.{ok, err, assertion}
use cyng.Pool.{SessionPool, init, start, on_timer}
use cyng.Pool.Events.{starting, AreFresh, getting, ticking, stopping, Given, play}
use cyng.Pool.Order.{IsSound, play-IsSound}
use cyng.Pool.Start.{on_timer-start}

abbrev always : ℕ → Bool
always n = true

-- Every attempt but that with the number 2 succeeds.
abbrev but_two : ℕ → Bool
but_two n = not (n == 2)

abbrev pair : SessionPool
pair = record {
  pool = 0 ∷ 1 ∷ [];
  pool_size = 2;
  life_time = 120;
  attempts = 2;
  is_waiting = true;
  closed = [];
}

-- The pool behind a refused attempt is refilled by the timer.
refilled :
    play but_two (getting ∷ ticking ∷ getting ∷ []) (record { given = []; sessions = pair })
    ≡ ok (record { given = 0 ∷ 1 ∷ []; sessions = record pair { pool = 3 ∷ 4 ∷ []; attempts = 5 } })
unfolding play
refilled = refl

init-IsSound : IsSound but_two (record { given = []; sessions = init false })
init-IsSound = record {
  older = (tt, tt);
  fits = omega arith;
  several = omega arith;
  small = omega arith;
}

play-IsSound_example :
    (g' : Given) × (play but_two
        (starting 2 60 ∷ getting ∷ ticking ∷ stopping ∷ starting 3 60 ∷ getting ∷ [])
        (record { given = []; sessions = init false })
      ≡ ok g')
    × IsSound but_two g'
unfolding AreFresh
play-IsSound_example =
    play-IsSound but_two
      (starting 2 60 ∷ getting ∷ ticking ∷ stopping ∷ starting 3 60 ∷ getting ∷ [])
      (record { given = []; sessions = init false })
      (
        (refl, omega arith, omega arith),
        (tt, (tt, (tt, ((refl, omega arith, omega arith), (tt, tt))))),
      )
      init-IsSound

on_timer-start_example :
    ((start always 2 60 pair).1 ≡ false)
    × (length (start always 2 60 pair).0.pool ≡ length pair.pool + 2)
    × (on_timer always (start always 2 60 pair).0 ≡ err assertion)
on_timer-start_example =
    on_timer-start always (λ n. refl) 2 60 pair (omega arith) (omega arith) (omega arith)
