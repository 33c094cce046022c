-- ===== src/Task/Registry.antt =====
-- src/task/src/registry.cpp. The handlers of the registry's strand are the list `queue`. A channel is known
-- by its address, a number, and `channels` has its state; `alive` tells which weak pointers can be locked.
-- The list is kept in the order of its ids.
pub mod Shutdown
pub mod Insert
pub mod Dispatch
use cyng.Base.{
  ℕ, Bool, true, false, not, ◌&&◌, List, [], ◌∷◌, ◌++◌, reverse, Option, none, some, ltb, ◌==◌,
  if◌then◌else◌,
}
use cyng.Base.Result.{Result, ok, ◌>>=◌, ◌>>◌}
use cyng.Store.Meta.{Text, text_eq}
use cyng.Task.Channel
use cyng.Task.Channel.{Channel, check, get_id}

module _ (Msg : Type 0) where
  -- What is posted to the strand; the callbacks of `lookup` are those of `dispatch_exclude` and `stop`,
  -- and the caller's, known by a number.
  pub data Call : Type 0 where
    insert_call remove_call : ℕ → Call
    dispatch_each : List ℕ → Text → Msg → Call
    dispatch_named : Text → Text → Msg → Call
    dispatch_one : ℕ → Text → Msg → Call
    exclude_call : ℕ → Text → Text → Msg → Call
    stop_call : Text → Call
    lookup_call : Text → ℕ → Call

  pub record Registry : Type 0 where
    pub channels : ℕ → Channel Msg
    pub list : List (ℕ × ℕ)
    pub queue : List Call
    pub is_shutdown : Bool
    pub answers : List (ℕ × List ℕ)

-- `std::map::emplace`
unfoldable pub emplace : ℕ → ℕ → List (ℕ × ℕ) → List (ℕ × ℕ)
emplace id p [] = (id, p) ∷ []
emplace id p ((j, q) ∷ list) =
    let rest = emplace id p list in
    if ltb id j then (id, p) ∷ (j, q) ∷ list else if id == j then (j, q) ∷ list else (j, q) ∷ rest

unfoldable pub find : ℕ → List (ℕ × ℕ) → Option ℕ
find id [] = none
find id ((j, p) ∷ list) = if j == id then some p else find id list

-- `remove_sync`
unfoldable pub remove_sync : ℕ → List (ℕ × ℕ) → List (ℕ × ℕ)
remove_sync id [] = []
remove_sync id ((j, p) ∷ list) = if j == id then list else (j, p) ∷ remove_sync id list

-- The pointers of the list that can be locked.
unfoldable pub locked : (ℕ → Bool) → List (ℕ × ℕ) → List ℕ
locked alive [] = []
locked alive ((id, p) ∷ list) = let rest = locked alive list in if alive p then p ∷ rest else rest

unfoldable pub is_nil : List (ℕ × ℕ) → Bool
is_nil [] = true
is_nil (_ ∷ _) = false

module _ {Msg : Type 0} where
  abbrev pub set_channel : ℕ → Channel Msg → Registry Msg → Registry Msg
  set_channel p c r = record r { channels = λ q. if q == p then c else r.channels q }

  -- The calls post a handler, unless the registry is shut down; `lookup` does so always.
  abbrev pub post : Call Msg → Registry Msg → Registry Msg
  post call r = record r { queue = r.queue ++ call ∷ [] }

  unfoldable pub post_unless : Call Msg → Registry Msg → Registry Msg
  post_unless call r = if r.is_shutdown then r else post call r

  -- The addresses of the channels with the name, from a part of the list on.
  unfoldable pub lookup_from : (ℕ → Bool) → Text → List (ℕ × ℕ) → (ℕ → Channel Msg) → List ℕ
  unfolding text_eq
  lookup_from alive name [] channels = []
  lookup_from alive name ((id, p) ∷ list) channels =
      let rest = lookup_from alive name list channels in
      if alive p && text_eq name (channels p).name then p ∷ rest else rest

  abbrev pub lookup_name : (ℕ → Bool) → Text → Registry Msg → List ℕ
  lookup_name alive name r = lookup_from alive name r.list r.channels

  -- The channels of the callback of `dispatch_exclude` that have another id.
  unfoldable pub without : ℕ → List ℕ → Registry Msg → List ℕ
  unfolding get_id
  without id [] r = []
  without id (p ∷ ps) r =
      let rest = without id ps r in if not (get_id (r.channels p) == id) then p ∷ rest else rest

  unfoldable pub stop_all : List ℕ → Registry Msg → Registry Msg
  unfolding Channel.stop
  stop_all [] r = r
  stop_all (p ∷ ps) r = stop_all ps (set_channel p (Channel.stop (r.channels p)).0 r)

  unfoldable pub shutdown : (ℕ → Bool) → Registry Msg → Registry Msg × Bool
  unfolding locked stop_all
  shutdown alive r = if r.is_shutdown then (r, false) else (
    record (stop_all (reverse (locked alive r.list)) r) { is_shutdown = true; list = [] },
    true,
  )

  unfoldable pub reset : Bool → Registry Msg → Result (Registry Msg × Bool)
  unfolding is_nil
  reset checked r = do
    check checked (is_nil r.list)
    ok (record r { is_shutdown = false }, r.is_shutdown && is_nil r.list)

  module _ (checked : Bool) (alive : ℕ → Bool) where
    unfoldable pub lookup_sync : ℕ → Registry Msg → Option ℕ
    unfolding find
    lookup_sync id r = elim (find id r.list) [
      | none ↦ none
      | some p ↦ if alive p then some p else none
    ]

    unfoldable pub dispatch_to : Text → Msg → ℕ → Registry Msg → Result (Registry Msg)
    unfolding Channel.dispatch
    dispatch_to slot msg p r = do
      c ← Channel.dispatch checked slot msg (r.channels p)
      ok (set_channel p c r)

    unfoldable pub dispatch_all : Text → Msg → List ℕ → Registry Msg → Result (Registry Msg)
    unfolding dispatch_to
    dispatch_all slot msg [] r = ok r
    dispatch_all slot msg (p ∷ ps) r = dispatch_to slot msg p r >>= dispatch_all slot msg ps

    unfoldable pub dispatch_found : ℕ → Text → Msg → Registry Msg → Result (Registry Msg)
    unfolding lookup_sync dispatch_to
    dispatch_found id slot msg r = elim (lookup_sync id r) [
      | none ↦ ok r
      | some p ↦ dispatch_to slot msg p r
    ]

    unfoldable pub dispatch_ids : List ℕ → Text → Msg → Registry Msg → Result (Registry Msg)
    unfolding dispatch_found
    dispatch_ids [] slot msg r = ok r
    dispatch_ids (id ∷ ids) slot msg r = dispatch_found id slot msg r >>= dispatch_ids ids slot msg

    unfoldable pub run_call : Call Msg → Registry Msg → Result (Registry Msg)
    unfolding emplace remove_sync lookup_from dispatch_all dispatch_found dispatch_ids without
        stop_all get_id
    run_call (insert_call p) r = do
      check checked (not (get_id (r.channels p) == 0))
      ok (record r { list = emplace (get_id (r.channels p)) p r.list })
    run_call (remove_call id) r = ok (record r { list = remove_sync id r.list })
    run_call (dispatch_each ids slot msg) r = dispatch_ids ids slot msg r
    run_call (dispatch_named name slot msg) r = dispatch_all slot msg (lookup_name alive name r) r
    run_call (dispatch_one id slot msg) r = dispatch_found id slot msg r
    run_call (exclude_call id name slot msg) r =
        dispatch_all slot msg (without id (lookup_name alive name r) r) r
    run_call (stop_call name) r = ok (stop_all (lookup_name alive name r) r)
    run_call (lookup_call name f) r =
        ok (record r { answers = r.answers ++ (f, lookup_name alive name r) ∷ [] })

    unfoldable pub run_next : Registry Msg → Result (Registry Msg)
    unfolding run_call
    run_next r = elim r.queue [
      | [] ↦ ok r
      | call ∷ queue ↦ run_call call (record r { queue = queue })
    ]
