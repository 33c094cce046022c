-- ===== src/Store/Database/Tests.antt =====
-- A database of two tables, of numbers that are their own hashes.
use cyng.Base.{ℕ, ◌≡◌, refl, List, [], ◌∷◌, none, true}
use cyng.Base.Result.{ok}
use cyng.Store.Meta.{text_eq, Column, MetaStore, body_size, check_integrity}
use cyng.Store.Pub.{forward, tidy, signal}
use cyng.Store.Table.{Env, key_eq, find, insert as insert_row, emplace, insert_at}
use cyng.Store.Table.Erase.{erase as erase_row}
use cyng.Store.Database.{
  Entry, Tables, lookup, replace, new_table, create, create_table, access, erase, insert,
}
use cyng.Store.Database.Isolation.{only}
use cyng.Store.Database.Isolation.Runs.{play-only}
use cyng.Store.Database.Calls.{play, step, Call, creates, inserts, erases, IsIntact}
use cyng.Store.Database.Integrity.{play-IsIntact}

abbrev first_hash : List ℕ → ℕ
first_hash [] = 0
first_hash (k ∷ key) = k

abbrev env : Env ℕ
env = record { hash = λ x. x; key_hash = first_hash; place = λ rows key. 0; alive = λ s. true }

abbrev column : ℕ → Column
column c = record { name = c ∷ []; type = 9 }

abbrev meta : ℕ → MetaStore
meta c = record { name = c ∷ []; columns = column b'a' ∷ column b'b' ∷ []; pk = 1 }

abbrev entry : ℕ → Entry ℕ
entry c = record { table = new_table (meta c); auto_key = none }

abbrev calls : List (Call ℕ)
calls =
    creates (meta b't')
    ∷ creates (meta b'u')
    ∷ inserts (b'u' ∷ []) (1 ∷ []) (5 ∷ []) 1 0
    ∷ inserts (b'u' ∷ []) (2 ∷ []) (6 ∷ []) 1 0
    ∷ inserts (b'u' ∷ []) (2 ∷ []) (7 ∷ []) 1 0
    ∷ erases (b'u' ∷ []) (1 ∷ []) 0
    ∷ []

abbrev last : Tables ℕ
last =
    (
      b'u' ∷ [],
      record {
        table = record (new_table (meta b'u')) {
          rows = record { key = 2 ∷ []; body = 6 ∷ []; generation = 1 } ∷ [];
        };
        auto_key = none;
      },
    )
    ∷ (b't' ∷ [], entry b't')
    ∷ []

play-IsIntact_example : IsIntact env last
unfolding play step create_table create lookup replace access insert erase insert_row erase_row
    text_eq emplace insert_at find key_eq check_integrity body_size forward tidy signal
play-IsIntact_example = play-IsIntact env true calls refl

-- Behind the creation of the other table the calls to `u` give the same table as on their own.
play-only_example :
    (us' : Tables ℕ) × (play env true (only (b'u' ∷ []) calls) [] ≡ ok us')
    × (lookup (b'u' ∷ []) us' ≡ lookup (b'u' ∷ []) last)
unfolding play step create_table create lookup replace access insert erase insert_row erase_row
    text_eq emplace insert_at find key_eq check_integrity body_size forward tidy signal
play-only_example = play-only env true (b'u' ∷ []) calls [] [] last refl refl
