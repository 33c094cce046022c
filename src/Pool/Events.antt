-- ===== src/Pool/Events.antt =====
-- A pool under calls of `start`, `get_session` and `stop` and ends of its timer, in any order.
use cyng.Base.{ℕ, ◌<◌, ◌^◌, ◌≡◌, ◌≢◌, List, [], ◌∷◌, ◌++◌, Option, none, some, Bool, All}
use cyng.Base.Result.{Result, ok, err, ◌>>=◌}
use cyng.Pool.{SessionPool, start, get_session, on_timer, stop}

-- `start` with a size and a life time.
pub data Event : Type 0 where
  starting : ℕ → ℕ → Event
  getting ticking stopping : Event

-- The sessions that `get_session` has given, in their order, and the pool.
pub record Given : Type 0 where
  pub given : List ℕ
  pub sessions : SessionPool

abbrev pub add_given : List ℕ → Option ℕ → List ℕ
add_given given none = given
add_given given (some s) = given ++ s ∷ []

unfoldable pub perform : (ℕ → Bool) → Event → Given → Result Given
unfolding start get_session on_timer stop
perform opens (starting size life) g =
    ok (record g { sessions = (start opens size life g.sessions).0 })
perform opens getting g =
    let (p, s) = get_session opens g.sessions in
    ok (record { given = add_given g.given s; sessions = p })
perform opens ticking g = on_timer opens g.sessions >>= λ p. ok (record g { sessions = p })
perform opens stopping g = ok (record g { sessions = stop g.sessions })

unfoldable pub play : (ℕ → Bool) → List Event → Given → Result Given
unfolding perform
play opens [] g = ok g
play opens (e ∷ events) g = perform opens e g >>= play opens events

-- A start, with another size than one, finds no session in the pool.
abbrev pub IsFresh : Event → Given → Type 0
IsFresh (starting size life) g = (g.sessions.pool ≡ []) × (size ≢ 1) × (size < 2 ^ 64)
IsFresh getting g = Unit
IsFresh ticking g = Unit
IsFresh stopping g = Unit

-- Every start of the run is such a start.
unfoldable pub AreFresh : (ℕ → Bool) → List Event → Given → Type 0
unfolding perform
AreFresh opens [] g = Unit
AreFresh opens (e ∷ events) g =
    IsFresh e g × elim (perform opens e g) [ ok g' ↦ AreFresh opens events g' | err fault ↦ Unit ]

-- From the smallest on, none of them twice.
abbrev pub IsAscending : List ℕ → Type 0
IsAscending [] = Unit
IsAscending (x ∷ xs) = All (λ y. x < y) xs × IsAscending xs
