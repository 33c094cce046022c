-- ===== src/Dom/Transform/Agree.antt =====
-- The two walks agree where the callback looks at the object alone.
use cyng.Base.{false, ℕ, ◌+◌, ◌≡◌, refl, List, [], ◌∷◌, ◌++◌, ◌∙◌, ap}
use cyng.Store.Meta.{Text}
use cyng.Dom.{
  param, Key, Object, sequence, map_of, pair, plain, Objects, nil, cons, Pairs, end, entry,
}
use cyng.Dom.Transform.{
  Action, none, replace, remove, decide, transform, transform_all, transform_pairs,
  transform_object, transform_at, transform_all_at, transform_pairs_at, transform_map,
}

module _ (label : Key → Text) (g : Object → Object × Action) where
  decide-none :
      (a : Object × Action) (walked obj : Object)
      → a.1 ≡ none
      → decide a walked obj ≡ (walked, false)
  decide-none (r, none) walked obj h = refl
  decide-none (r, replace) walked obj h = cc
  decide-none (r, remove) walked obj h = cc

  mutual
    unfolding transform transform_at

    agree :
        (o : Object) (depth : ℕ) (path : List Text)
        → transform (λ o d t. g o) o depth ≡ transform_at label (λ o p. g o) o path
    agree (sequence s os) depth path =
        ap (λ l. decide (g (sequence s os)) (sequence s l) (sequence s os))
          (agree_all os depth path)
    agree (map_of k ps) depth path =
        ap (λ l. decide (g (map_of k ps)) (map_of k l) (map_of k ps)) (agree_pairs ps depth path)
    agree (pair k o) depth path = rw (agree o depth (path ++ label k ∷ [])) refl
    agree (plain n bytes) depth path = refl

    agree_all :
        (os : Objects) (depth : ℕ) (path : List Text)
        → transform_all (λ o d t. g o) os depth ≡ transform_all_at label (λ o p. g o) os path
    agree_all nil depth path = refl
    agree_all (cons o os) depth path = rw (agree o (depth + 1) path, agree_all os depth path) refl

    agree_pairs :
        (ps : Pairs) (depth : ℕ) (path : List Text)
        → transform_pairs (λ o d t. g o) ps depth ≡ transform_pairs_at label (λ o p. g o) ps path
    agree_pairs end depth path = refl
    agree_pairs (entry k o ps) depth path =
        rw (agree o (depth + 1) (path ++ label k ∷ []), agree_pairs ps depth path) refl

  -- A callback that looks at the object alone, and has no action for the map itself, makes the same of
  -- a map of parameters whether it is called by depth and type or by path.
  pub transform_object-transform_map :
      (ps : Pairs)
      → (g (map_of param ps)).1 ≡ none
      → transform_object (λ o d t. g o) (map_of param ps)
        ≡ map_of param (transform_map label (λ o p. g o) ps)
  unfolding transform_object transform_map transform
  transform_object-transform_map ps h =
      ap (λ l. l.0) (decide-none (g (map_of param ps)) _ _ h)
      ∙ ap (map_of param) (agree_pairs ps 0 [])
