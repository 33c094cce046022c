-- ===== src/Dom.antt =====
-- Trees of objects: the containers of include/cyng/obj/intrinsics/container.h and tag.hpp, as the
-- algorithms of src/obj/src tell them apart. An object owns what it contains.
pub mod Walker
pub mod Transform
pub mod Rename
pub mod Merge
pub mod Find
mod Tests
use cyng.Base.{ℕ, List, Bool, true, false, ◌==◌}
use cyng.Store.Meta.{Text}
use cyng.Obis.{Obis}

pub data Sequence : Type 0 where
  tuple vector deque : Sequence

-- Attributes have an index, parameters a name, and properties an OBIS code.
pub data Kind : Type 0 where
  attr param prop : Kind

pub data Key : Type 0 where
  index : ℕ → Key
  name : Text → Key
  code : Obis → Key

abbrev pub kind_of : Key → Kind
kind_of (index n) = attr
kind_of (name s) = param
kind_of (code o) = prop

-- `type_code`; the types that are no containers of objects by their number.
pub data Tag : Type 0 where
  sequence_tag : Sequence → Tag
  map_tag : Kind → Tag
  pair_tag : Kind → Tag
  plain_tag : ℕ → Tag

-- `plain` is an object of another type, by its tag and its binary form.
mutual
  pub data Object : Type 0 where
    sequence : Sequence → Objects → Object
    map_of : Kind → Pairs → Object
    pair : Key → Object → Object
    plain : ℕ → List ℕ → Object

  pub data Objects : Type 0 where
    nil : Objects
    cons : Object → Objects → Objects

  -- A `std::map`, in the order of its keys, which are of its kind.
  pub data Pairs : Type 0 where
    end : Pairs
    entry : Key → Object → Pairs → Pairs

abbrev pub tag : Object → Tag
tag (sequence s os) = sequence_tag s
tag (map_of k ps) = map_tag k
tag (pair k o) = pair_tag (kind_of k)
tag (plain n bytes) = plain_tag n

-- `is_container`; TC_PRG is 54.
abbrev pub is_container : Tag → Bool
is_container (plain_tag n) = n == 54
is_container _ = true
