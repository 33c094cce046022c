-- ===== src/Task/Tests.antt =====
-- Channels and a registry at concrete schedules. A message is a number.
use cyng.Base.{
  ℕ, Bool, true, false, not, ◌&&◌, List, [], ◌∷◌, ◌++◌, none, some, ltb, ◌==◌, if◌then◌else◌, ◌≡◌,
  refl, arith,
}
use cyng.Base.Result.{ok, err, undefined, assertion}
use cyng.Store.Meta.{text_eq}
use cyng.Task.Channel
use cyng.Task.Channel.{Channel, message, halt, nothing, call_back, get_id, run_next}
use cyng.Task.Channel.Schedule.{
  Action, sending, suspending, expiring, running, play, offered, IsSound,
}
use cyng.Task.Channel.Order.{play-offered}
use cyng.Task.Channel.Stop.{play-stop, run_next-stop_checked}
use cyng.Task.Registry
use cyng.Task.Registry.{
  Registry, insert_call, remove_call, exclude_call, find, locked, set_channel, shutdown, reset,
  run_call,
}
use cyng.Task.Registry.Shutdown.{among, shutdown_lem, shutdown-insert}
use cyng.Task.Registry.Dispatch.{reached, run_call-exclude}

-- A task with three slots, the first of them named a.
abbrev fresh : ℕ → Channel ℕ
fresh id = record {
  id = id;
  name = b't' ∷ [];
  signature_count = 3;
  named_slots = (b'a' ∷ [], 0) ∷ [];
  open_ = true;
  timer = none;
  queue = [];
  log = [];
}

fresh-IsSound : IsSound (fresh 7)
fresh-IsSound = record { opened = refl; fits = tt; timed = tt }

-- A message for an unknown slot is dropped; the second timer replaces the first.
abbrev busy : List (Action ℕ)
busy =
    sending nothing 0 10
    ∷ suspending 1 11
    ∷ sending nothing 5 12
    ∷ running
    ∷ suspending 2 13
    ∷ expiring
    ∷ sending (call_back 4) 1 14
    ∷ running
    ∷ []

offered-busy :
    offered 3 none busy
    ≡ message 0 10 nothing ∷ message 2 13 nothing ∷ message 1 14 (call_back 4) ∷ []
offered-busy = refl

play-offered_example :
    (c' : Channel ℕ) × (play false busy (fresh 7) ≡ ok c')
    × IsSound c'
    × (c'.log ++ c'.queue ≡ offered 3 none busy)
play-offered_example = play-offered busy (fresh 7) fresh-IsSound (omega arith)

abbrev pending : Channel ℕ
pending = record (fresh 7) { queue = message 0 10 nothing ∷ []; timer = some (1, 5) }

pending-IsSound : IsSound pending
pending-IsSound = record { opened = refl; fits = (omega arith, tt); timed = omega arith }

play-stop_example :
    ((Channel.stop pending).1 ≡ true)
    × ((Channel.stop (Channel.stop pending).0).1 ≡ false)
    × ((c' : Channel ℕ) × (play false (running ∷ expiring ∷ running ∷ []) (Channel.stop pending).0
          ≡ ok c')
        × (c'.log ≡ (if ltb 1 2 then halt ∷ [] else [])))
play-stop_example = play-stop (running ∷ expiring ∷ running ∷ []) pending pending-IsSound

run_next-stop_checked_example : run_next true (Channel.stop pending).0 ≡ err undefined
run_next-stop_checked_example = run_next-stop_checked pending 0 10 nothing [] refl refl

abbrev all_alive : ℕ → Bool
all_alive p = true

-- The channels at the addresses 1 and 2 are listed, under their ids 1 and 2.
abbrev busy_registry : Registry ℕ
busy_registry = record {
  channels = fresh;
  list = (1, 1) ∷ (2, 2) ∷ [];
  queue = insert_call 3 ∷ [];
  is_shutdown = false;
  answers = [];
}

shutdown_lem_example :
    let (r', done) = shutdown all_alive busy_registry in
    (done ≡ true)
    × (r'.is_shutdown ≡ true)
    × (r'.list ≡ [])
    × ((p : ℕ)
        → r'.channels p ≡ (
            if among p (locked all_alive ((1, 1) ∷ (2, 2) ∷ []))
            then (Channel.stop (fresh p)).0
            else fresh p))
    × (shutdown all_alive r' ≡ (r', false))
shutdown_lem_example = shutdown_lem all_alive busy_registry refl

shutdown-insert_example :
    (r' : Registry ℕ) × (Registry.run_next true all_alive (shutdown all_alive busy_registry).0
      ≡ ok r')
    × (r'.channels 3 ≡ fresh 3)
    × (find 3 r'.list ≡ some 3)
    × (reset true r' ≡ err assertion)
unfolding locked
shutdown-insert_example =
    shutdown-insert all_alive busy_registry 3 [] refl refl refl (λ e. omega (arith, e)) refl

run_call-exclude_example :
    (r' : Registry ℕ) × (run_call false all_alive
        (exclude_call 1 (b't' ∷ []) (b'a' ∷ []) 9)
        busy_registry
      ≡ ok r')
    × ((p : ℕ)
        → r'.channels p ≡ (
            if (among p (1 ∷ 2 ∷ []) && (true && text_eq (b't' ∷ []) (b't' ∷ [])))
              && not (get_id (fresh p) == 1)
            then reached (b'a' ∷ []) 9 (fresh p)
            else fresh p))
run_call-exclude_example =
    run_call-exclude all_alive 1 (b't' ∷ []) (b'a' ∷ []) 9 busy_registry (refl, (refl, tt))
