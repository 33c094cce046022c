-- ===== src/Task/Channel.antt =====
-- src/task/src/channel.cpp and the calls of include/cyng/task/task.hpp that it makes. The strand runs the
-- handlers that are posted to it one after another, in their order: they are the list `queue`. `log` has
-- the calls of the task's functions. A callback or a consumer of a result is known by a number.
pub mod Schedule
pub mod Order
pub mod Stop
use cyng.Base.{
  ℕ, ◌+◌, Bool, true, false, not, ◌&&◌, ◌||◌, List, [], ◌∷◌, ◌++◌, Option, none, some, ltb, ◌==◌,
  if◌then◌else◌, length,
}
use cyng.Base.Result.{Result, ok, err, undefined, assert, ◌>>=◌, ◌>>◌}
use cyng.Store.Meta.{Text, text_eq, npos}

-- What is done with the result of a slot: nothing, the callback of `dispatch_r`, or the function of
-- `next`.
pub data Reply : Type 0 where
  nothing : Reply
  call_back : ℕ → Reply
  apply : ℕ → Reply

module _ (Msg : Type 0) where
  -- A handler of the strand: a message, or the call of `task_interface::stop`.
  pub data Job : Type 0 where
    message : ℕ → Msg → Reply → Job
    halt : Job

  pub record Channel : Type 0 where
    pub id : ℕ
    pub name : Text
    pub signature_count : ℕ
    pub named_slots : List (Text × ℕ)
    pub open_ : Bool
    pub timer : Option (ℕ × Msg)
    pub queue : List Job
    pub log : List Job

-- `unordered_map::emplace`
unfoldable pub emplace : Text → ℕ → List (Text × ℕ) → List (Text × ℕ) × Bool
unfolding text_eq
emplace name slot [] = ((name, slot) ∷ [], true)
emplace name slot ((n, s) ∷ slots) =
    let (rest, done) = emplace name slot slots in
    if text_eq n name then ((n, s) ∷ slots, false) else ((n, s) ∷ rest, done)

unfoldable pub lookup : Text → List (Text × ℕ) → ℕ
unfolding text_eq
lookup name [] = npos
lookup name ((n, s) ∷ slots) = if text_eq n name then s else lookup name slots

abbrev pub check : Bool → Bool → Result (Unit {0})
check checked test = if checked then assert test else ok tt

module _ {Msg : Type 0} where
  unfoldable pub set_channel_name : Text → ℕ → Channel Msg → Channel Msg × Bool
  unfolding emplace
  set_channel_name name slot c =
      let (slots, done) = emplace name slot c.named_slots in
      (record c { named_slots = slots }, done)

  -- The loop of `set_channel_names`, from the index on.
  unfoldable pub set_channel_names_from : ℕ → List Text → Channel Msg → Channel Msg
  unfolding set_channel_name
  set_channel_names_from idx [] c = c
  set_channel_names_from idx (name ∷ names) c =
      set_channel_names_from (idx + 1) names (set_channel_name name idx c).0

  unfoldable pub set_channel_names : List Text → Channel Msg → Channel Msg
  unfolding set_channel_names_from
  set_channel_names names c = set_channel_names_from (length c.named_slots) names c

  unfoldable pub get_id : Channel Msg → ℕ
  get_id c = if c.open_ then c.id else 0

  abbrev pub post : Job Msg → Channel Msg → Channel Msg
  post job c = record c { queue = c.queue ++ job ∷ [] }

  -- `checked`: assertions are compiled in. The one of `is_open` reads the task of a channel that may
  -- have none.
  module _ (checked : Bool) where
    unfoldable pub is_open : ℕ → Channel Msg → Result Bool
    is_open slot c = do
      if checked && not c.open_ then err undefined else ok tt
      check checked (ltb slot c.signature_count)
      ok (c.open_ && ltb slot c.signature_count)

    -- `dispatch`, `dispatch_r` and `next`, which differ in the reply.
    unfoldable pub send : Reply → ℕ → Msg → Channel Msg → Result (Channel Msg)
    unfolding is_open
    send reply slot msg c = do
      is ← is_open slot c
      check checked (not is || not (slot == npos))
      ok (if is then post (message slot msg reply) c else c)

    unfoldable pub dispatch : Text → Msg → Channel Msg → Result (Channel Msg)
    unfolding send lookup
    dispatch name msg c = send nothing (lookup name c.named_slots) msg c

    unfoldable pub next : Text → ℕ → Msg → Channel Msg → Result (Channel Msg)
    unfolding send lookup
    next name f msg c = send (apply f) (lookup name c.named_slots) msg c

    -- Setting the expiry cancels the wait that is pending; its handler does nothing then.
    unfoldable pub suspend : ℕ → Msg → Channel Msg → Result (Channel Msg × Bool)
    unfolding is_open
    suspend slot msg c = do
      is ← is_open slot c
      ok (if is then (record c { timer = some (slot, msg) }, true) else (c, false))

    -- A handler of the strand; `task::dispatch`, `task::next` and `task::stop` call the task.
    unfoldable pub run_job : Job Msg → Channel Msg → Result (Channel Msg)
    unfolding is_open
    run_job (message slot msg reply) c = do
      is ← is_open slot c
      ok (if is then record c { log = c.log ++ message slot msg reply ∷ [] } else c)
    run_job halt c = ok (record c { log = c.log ++ halt ∷ [] })

    -- The strand runs the handler that was posted first.
    unfoldable pub run_next : Channel Msg → Result (Channel Msg)
    unfolding run_job
    run_next c = elim c.queue [ [] ↦ ok c | job ∷ queue ↦ run_job job (record c { queue = queue }) ]

  unfoldable pub cancel_timer : Channel Msg → Channel Msg × Bool
  cancel_timer c = (record c { timer = none }, elim c.timer [ none ↦ false | some _ ↦ true ])

  -- The time of the timer has come: its handler is posted to the strand.
  unfoldable pub expire : Channel Msg → Channel Msg
  expire c = elim c.timer [
    | none ↦ c
    | some (slot, msg) ↦ record c { timer = none; queue = c.queue ++ message slot msg nothing ∷ [] }
  ]

  unfoldable pub stop : Channel Msg → Channel Msg × Bool
  unfolding cancel_timer
  stop c =
      if c.open_
      then (record (cancel_timer c).0 { open_ = false; queue = c.queue ++ halt ∷ [] }, true)
      else (c, false)
