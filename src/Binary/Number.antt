-- ===== src/Binary/Number.antt =====
-- `to_buffer` and `to_numeric` of include/cyng/obj/buffer_cast.hpp on a machine with the lowest byte
-- first.
use cyng.Base.{
  ℕ, zero, suc, ◌+◌, ◌*◌, ◌/◌, ◌%◌, List, [], ◌∷◌, ◌++◌, ◌≡◌, refl, arith, length, take,
  length-append,
}

-- The lowest bytes of a number, the highest of them first.
unfoldable pub to_buffer : ℕ → ℕ → List ℕ
to_buffer zero n = []
to_buffer (suc size) n = to_buffer size (n / 256) ++ n % 256 ∷ []

-- `reverse_copy` and `memcpy`, on the bytes from first to last.
unfoldable pub from_bytes : ℕ → List ℕ → ℕ
from_bytes n [] = n
from_bytes n (c ∷ cs) = from_bytes (n * 256 + c) cs

-- A shorter buffer gives a smaller number.
unfoldable pub to_numeric : ℕ → List ℕ → ℕ
unfolding from_bytes
to_numeric size buffer = from_bytes 0 (take size buffer)

pub from_bytes-append :
    (cs : List ℕ) (n c : ℕ) → from_bytes n (cs ++ c ∷ []) ≡ from_bytes n cs * 256 + c
unfolding from_bytes
from_bytes-append [] n c = refl
from_bytes-append (d ∷ cs) n c = from_bytes-append cs (n * 256 + d) c

-- The number has no more than that many bytes.
abbrev pub Fits : ℕ → ℕ → Type 0
Fits zero n = n ≡ 0
Fits (suc size) n = Fits size (n / 256)

from_bytes-to_buffer : (size n : ℕ) → Fits size n → from_bytes 0 (to_buffer size n) ≡ n
unfolding to_buffer
from_bytes-to_buffer zero n h = unfold from_bytes in omega arith
from_bytes-to_buffer (suc size) n h = omega (
  arith,
  from_bytes-append (to_buffer size (n / 256)) 0 (n % 256),
  from_bytes-to_buffer size (n / 256) h,
)

pub length-to_buffer : (size n : ℕ) → length (to_buffer size n) ≡ size
unfolding to_buffer
length-to_buffer zero n = refl
length-to_buffer (suc size) n = omega (
  arith,
  length-append (to_buffer size (n / 256)) (n % 256 ∷ []),
  length-to_buffer size (n / 256),
)

pub take_all : (cs : List ℕ) → take (length cs) cs ≡ cs
take_all [] = refl
take_all (c ∷ cs) = rw (take_all cs) refl

pub to_numeric-to_buffer : (size n : ℕ) → Fits size n → to_numeric size (to_buffer size n) ≡ n
unfolding to_numeric
to_numeric-to_buffer size n h =
    let whole = rw (length-to_buffer size n) at (take_all (to_buffer size n)) in
    rw whole (from_bytes-to_buffer size n h)
