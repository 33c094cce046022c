-- ===== src/Pool.antt =====
-- src/db/src/session_pool.cpp. Every attempt to connect has a number, and so has the session that it
-- opens; `opens` tells which attempts the database accepts. A session without a connection is `none`.
-- The type of the connection is not kept: of debug builds, the assertion of `start` that a pool of SQLite
-- has one session is not modelled.
pub mod Events
pub mod Order
pub mod Start
mod Tests
use cyng.Base.{
  ℕ, zero, suc, ◌+◌, ◌-◌, ◌%◌, ◌^◌, Bool, true, false, List, [], ◌∷◌, ◌++◌, Option, none, some, ltb,
  leb, ◌==◌, if◌then◌else◌, length,
}
use cyng.Base.Result.{Result, ok, ◌>>=◌, ◌>>◌, assert}

-- `pool` has the oldest session first; `attempts` counts the attempts to connect.
pub record SessionPool : Type 0 where
  pub pool : List ℕ
  pub pool_size : ℕ
  pub life_time : ℕ
  pub attempts : ℕ
  pub is_waiting : Bool
  pub closed : List ℕ

-- For SQLite, or any other database.
abbrev pub init : Bool → SessionPool
init sqlite = record {
  pool = [];
  pool_size = if sqlite then 1 else 5;
  life_time = 120;
  attempts = 0;
  is_waiting = false;
  closed = [];
}

abbrev pub start_timer : SessionPool → SessionPool
start_timer p = record p { is_waiting = true }

-- `pop_front`, of a list that has an element.
abbrev pub pop_front : SessionPool → SessionPool
pop_front p = record p { pool = elim p.pool [ [] ↦ [] | s ∷ rest ↦ rest ] }

module _ (opens : ℕ → Bool) where
  unfoldable pub add_session : SessionPool → SessionPool
  add_session p = record p {
    pool = if opens p.attempts then p.pool ++ p.attempts ∷ [] else p.pool;
    attempts = p.attempts + 1;
  }

  -- `while (n-- > 0)`
  unfoldable pub add_sessions : ℕ → SessionPool → SessionPool
  unfolding add_session
  add_sessions zero p = p
  add_sessions (suc n) p = add_sessions n (add_session p)

  unfoldable pub get_session : SessionPool → SessionPool × Option ℕ
  unfolding add_session
  get_session p = elim p.pool [
    | [] ↦ (p, none)
    | s ∷ rest ↦ if p.pool_size == 1 then (p, some s) else (pop_front (add_session p), some s)
  ]

  unfoldable pub start : ℕ → ℕ → SessionPool → SessionPool × Bool
  unfolding add_sessions
  start size life_time p =
      if ltb size 1
      then (p, false)
      else if ltb p.life_time 5
      then (record p { pool_size = size }, false)
      else (let q = add_sessions size (record p { pool_size = size; life_time = life_time }) in
          (if ltb 1 size then start_timer q else q, length q.pool == size))

  -- `on_timer`, where the timer was not cancelled. A pool that is too large would be refilled by the
  -- difference modulo 2 ^ 64; the assertion is compiled in.
  unfoldable pub on_timer : SessionPool → Result SessionPool
  unfolding add_session add_sessions
  on_timer p = do
    assert (leb (length p.pool) p.pool_size)
    ok (
        start_timer (
          if length p.pool == p.pool_size
          then pop_front (add_session p)
          else add_sessions ((p.pool_size + 2 ^ 64 - length p.pool) % 2 ^ 64) p))

unfoldable pub stop : SessionPool → SessionPool
stop p = record p { pool = []; is_waiting = false; closed = p.closed ++ p.pool }

unfoldable pub is_single_mode : SessionPool → Bool
is_single_mode p = length p.pool == 1
