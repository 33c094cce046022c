-- ===== src/Task/Registry/Insert.antt =====
-- A channel that is stopped before the registry has it in its list.
use cyng.Base.{
  ℕ, Bool, true, false, List, [], ◌∷◌, none, some, ◌==◌, if◌then◌else◌, ◌≡◌, ◌≢◌, refl, ◌∙◌, arith,
}
use cyng.Base.Result.{ok, err, assertion, ◌>>=◌}
use cyng.Task.Channel
use cyng.Task.Channel.{Channel, get_id}
use cyng.Task.Registry.{
  Registry, insert_call, remove_call, set_channel, emplace, find, remove_sync, run_call,
}

find-emplace :
    (id p j : ℕ) (list : List (ℕ × ℕ))
    → find id list ≡ none
    → find j (emplace id p list) ≡ (if id == j then some p else find j list)
unfolding find emplace
find-emplace id p j [] h = refl
find-emplace id p j ((k, q) ∷ list) h = ground (arith, find-emplace id p j list)

find-remove_sync :
    (id j : ℕ) (list : List (ℕ × ℕ)) → id ≢ j → find j (remove_sync id list) ≡ find j list
unfolding find remove_sync
find-remove_sync id j [] h = refl
find-remove_sync id j ((k, q) ∷ list) h = ground (arith, find-remove_sync id j list h)

module _ {Msg : Type 0} where
  -- A channel that is stopped while its insertion waits for the strand has no id any more: with
  -- assertions compiled in the handler fails, and without them the channel is listed under the id 0, where
  -- its removal, by the id of its task, does not find it.
  insert-stop :
      (alive : ℕ → Bool) (r : Registry Msg) (p : ℕ)
      → (r.channels p).open_ ≡ true
      → (r.channels p).id ≢ 0
      → find 0 r.list ≡ none
      → let s = set_channel p (Channel.stop (r.channels p)).0 r in
        (run_call true alive (insert_call p) s ≡ err assertion)
        × ((r' : Registry Msg) × ((run_call false alive (insert_call p) s
                >>= run_call false alive (remove_call (r.channels p).id))
              ≡ ok r')
            × (find 0 r'.list ≡ some p))
  unfolding run_call get_id Channel.stop
  insert-stop alive r p o n h =
      let c = r.channels p in
      let here : (p == p) ≡ true = ground arith in
      rw (here, o)
        (
          refl,
          (
            _,
            refl,
            find-remove_sync c.id 0 (emplace 0 p r.list) n
                ∙ find-emplace 0 p 0 r.list h
                ∙ ground arith,
          ),
        )
