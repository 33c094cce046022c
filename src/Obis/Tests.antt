-- ===== src/Obis/Tests.antt =====
-- OBIS codes.
use cyng.Base.{[], ◌∷◌, ◌≡◌, refl, arith}
use cyng.Base.Result.{ok, ◌>>=◌}
use cyng.Obis.{to_uint64, make_obis, descend, descend_back, next, next_back}
use cyng.Obis.Laws.{make_obis-to_uint64}

-- The first code of a list.
descend_list :
    descend (0x81 ∷ 0x81 ∷ 0x11 ∷ 6 ∷ 255 ∷ 255 ∷ []) ≡ 0x81 ∷ 0x81 ∷ 0x11 ∷ 6 ∷ 1 ∷ 255 ∷ []
unfolding descend descend_back
descend_list = refl

-- A code of depth 0 is changed, too.
descend_leaf : descend (0x81 ∷ 0x81 ∷ 0x11 ∷ 6 ∷ 1 ∷ 2 ∷ []) ≡ 0x81 ∷ 0x81 ∷ 0x11 ∷ 6 ∷ 1 ∷ 1 ∷ []
unfolding descend descend_back
descend_leaf = refl

next_leaf : next (0x81 ∷ 0x81 ∷ 0x11 ∷ 6 ∷ 1 ∷ 2 ∷ []) ≡ 0x81 ∷ 0x81 ∷ 0x11 ∷ 6 ∷ 2 ∷ 2 ∷ []
unfolding next next_back
next_leaf = refl

make_obis-to_uint64_example :
    (to_uint64 (1 ∷ 0 ∷ 1 ∷ 8 ∷ 0 ∷ 255 ∷ []) >>= λ n. ok (make_obis n))
    ≡ ok (1 ∷ 0 ∷ 1 ∷ 8 ∷ 0 ∷ 255 ∷ [])
make_obis-to_uint64_example =
    make_obis-to_uint64 1 0 1 8 0 255 (omega arith) (omega arith) (omega arith) (omega arith)
      (omega arith) (omega arith)
