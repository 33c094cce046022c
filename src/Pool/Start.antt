-- ===== src/Pool/Start.antt =====
-- Starting a pool whose database accepts every attempt.
use cyng.Base.{
  ℕ, zero, suc, ◌+◌, ◌≤◌, ◌<◌, Bool, true, false, [], ◌∷◌, ltb, leb, ◌==◌, length, length-append,
  ◌≡◌, refl, ◌∙◌, arith, Bool-cases, inl, inr,
}
use cyng.Base.Result.{err, assertion}
use cyng.Pool.{SessionPool, add_session, add_sessions, start, on_timer}

module _ (opens : ℕ → Bool) (accepted : (n : ℕ) → opens n ≡ true) where
  length-add_session : (p : SessionPool) → length (add_session opens p).pool ≡ length p.pool + 1
  unfolding add_session
  length-add_session p = rw (accepted p.attempts) (length-append p.pool (p.attempts ∷ []))

  add_sessions_lem :
      (n : ℕ) (p : SessionPool)
      → (length (add_sessions opens n p).pool ≡ length p.pool + n)
        × ((add_sessions opens n p).pool_size ≡ p.pool_size)
        × ((add_sessions opens n p).life_time ≡ p.life_time)
  unfolding add_sessions
  add_sessions_lem zero p = (omega arith, refl, refl)
  add_sessions_lem (suc n) p =
      let (len, size, life) = add_sessions_lem n (add_session opens p) in
      (
        omega (arith, len, length-add_session p),
        size ∙ unfold add_session in refl,
        life ∙ unfold add_session in refl,
      )

  -- Starting a pool that has sessions keeps them beside the new ones: `start` returns false though every
  -- attempt succeeded, and the assertion at the next end of the timer fails. The life time that was set
  -- before, the one that `start` tests, is at least five.
  pub on_timer-start :
      (size life : ℕ) (p : SessionPool)
      → 0 < size
      → 5 ≤ p.life_time
      → 0 < length p.pool
      → ((start opens size life p).1 ≡ false)
        × (length (start opens size life p).0.pool ≡ length p.pool + size)
        × (on_timer opens (start opens size life p).0 ≡ err assertion)
  unfolding start on_timer
  on_timer-start size life p h k some_session =
      let some_size : ltb size 1 ≡ false = ground arith in
      let long : ltb p.life_time 5 ≡ false = ground arith in
      let q = add_sessions opens size (record p { pool_size = size; life_time = life }) in
      let (len, fixed, _) =
        add_sessions_lem size (record p { pool_size = size; life_time = life }) in
      let more : (length q.pool == size) ≡ false = ground (arith, len) in
      let large : leb (length q.pool) q.pool_size ≡ false = ground (arith, len, fixed) in
      elim (Bool-cases (ltb 1 size)) [
        | inl several ↦ rw (some_size, long, several, more, large) (refl, len, refl)
        | inr single ↦ rw (some_size, long, single, more, large) (refl, len, refl)
      ]
