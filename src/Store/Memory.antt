-- ===== src/Store/Memory.antt =====
-- internal/store/memory.go. The lock makes each operation one step, and the time of a key is in
-- nanoseconds of Unix time.
mod Tests
use amazing_gitlab_exporter.Base.{
  ◌≡◌, refl, String, Bool, Option, none, some, List, [], ◌∷◌, ◌==◌, comparable_string,
  if◌then◌else◌, arith,
}
use amazing_gitlab_exporter.Base.Int.{ℤ}
use amazing_gitlab_exporter.Base.Dict.{Dict, get, put, get-put}
use amazing_gitlab_exporter.Gitlab.RateLimiter.{zero_time}

pub new_memory_store : Dict String ℤ
new_memory_store = []

or_zero : Option ℤ → ℤ
or_zero none = zero_time
or_zero (some t) = t

pub get_last_updated : Dict String ℤ → String → ℤ
get_last_updated m key = or_zero (get m key)

pub set_last_updated : Dict String ℤ → String → ℤ → Dict String ℤ
set_last_updated m key t = put m key t

-- The writes of a history, oldest first.
pub writes : Dict String ℤ → List (String × ℤ) → Dict String ℤ
writes m [] = m
writes m ((key, t) ∷ ws) = writes (set_last_updated m key t) ws

-- What a key holds after a history, by the history alone.
abbrev pub latest : ℤ → List (String × ℤ) → String → ℤ
latest t [] key = t
latest t ((k, u) ∷ ws) key = latest (if k == key then u else t) ws key

get-set :
    (m : Dict String ℤ) (k j : String) (t : ℤ)
    → get_last_updated (set_last_updated m k t) j ≡ (if k == j then t else get_last_updated m j)
unfolding get_last_updated set_last_updated or_zero
get-set m k j t = rw (get-put m k j t) (ground arith)

writes-latest :
    (m : Dict String ℤ) (ws : List (String × ℤ)) (key : String)
    → get_last_updated (writes m ws) key ≡ latest (get_last_updated m key) ws key
unfolding writes
writes-latest m [] key = refl
writes-latest m ((k, t) ∷ ws) key =
    rw (writes-latest (set_last_updated m k t) ws key, get-set m k key t) refl

-- After any history of writes to a new store, a key holds the time that was last written to it, and
-- the zero time if none was.
pub last_write_wins :
    (ws : List (String × ℤ)) (key : String)
    → get_last_updated (writes new_memory_store ws) key ≡ latest zero_time ws key
unfolding new_memory_store get_last_updated or_zero get
last_write_wins ws key = writes-latest new_memory_store ws key
