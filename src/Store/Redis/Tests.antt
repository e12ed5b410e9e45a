-- ===== src/Store/Redis/Tests.antt =====
-- A server that is an association list, and a time of one and a half seconds.
use amazing_gitlab_exporter.Base.{
  ℕ, ◌≡◌, ◌≢◌, refl, ◌∙◌, ◌⊎◌, inl, inr, String, none, List, [], ◌∷◌, ◌==◌, comparable_nat,
  comparable_string, comparable_list, Bool-cases, arith,
}
use amazing_gitlab_exporter.Base.Int.{ℤ, pos, ◌+ℤ◌, ◌≤ℤ◌, ◌<ℤ◌}
use amazing_gitlab_exporter.Base.Dict.{Dict, get, put, get-put, get-put_self}
use amazing_gitlab_exporter.Base.Errors.{Error, foreign, ok}
use amazing_gitlab_exporter.Gitlab.RateLimiter.{nanoseconds}
use amazing_gitlab_exporter.Store.Memory
use amazing_gitlab_exporter.Store.Memory.{writes, new_memory_store}
use amazing_gitlab_exporter.Store.Redis.{
  failed, Server, redis_key, get_last_updated, set_last_updated, unix,
}
use amazing_gitlab_exporter.Store.Redis.History.{
  IsRedis, reply_of, whole_seconds, written, set-get_last_updated, history_refines_memory,
}

abbrev Contents : Type 0
Contents = Dict (List ℕ) (List ℕ)

abbrev server : Server Contents
server = record { get = λ k w. (reply_of (get w k), w); set = λ k v w. (none, put w k v) }

other-get : (w : Contents) (k v j : List ℕ) → k ≢ j → get (put w k v) j ≡ get w j
other-get w k v j differ = elim (Bool-cases (k == j)) [
  | inl same ↦ absurd (differ ((comparable_list.same_iff k j).0 same))
  | inr other ↦ get-put w k j v ∙ rw other refl
]

server-IsRedis : IsRedis server
server-IsRedis = record {
  holds = λ w k. get w k;
  get-answers = λ k w. inr refl;
  get-keeps = λ k j w. refl;
  set-same = λ k v w h. get-put_self w k v;
  set-other = λ k v j w h differ. other-get w k v j differ;
}

abbrev parse_error : List ℕ → Error
parse_error value = foreign "invalid syntax"

abbrev time : ℤ
time = pos 1500000000

set-get_last_updated_example :
    let w1 = (set_last_updated server parse_error "jobs" time []).1 in
    (((e : Error) × ((server.get (redis_key "jobs") w1).0 ≡ failed e))
      ⊎ ((get_last_updated server parse_error "jobs" w1).0 ≡ ok (whole_seconds time)))
    × (whole_seconds time ≤ℤ time)
    × (time <ℤ whole_seconds time +ℤ pos nanoseconds)
unfolding unix set_last_updated
set-get_last_updated_example =
    set-get_last_updated server server-IsRedis parse_error "jobs" time [] (omega arith) refl

abbrev history : List (String × ℤ)
history = ("jobs", pos 7) ∷ ("dora", pos 9) ∷ ("jobs", time) ∷ []

history_refines_memory_example :
    let memory = Memory.get_last_updated (writes new_memory_store history) "jobs" in
    ((e : Error) × ((server.get
          (redis_key "jobs")
          (written server server-IsRedis parse_error history [])).0
        ≡ failed e))
    ⊎ ((get_last_updated server parse_error "jobs"
          (written server server-IsRedis parse_error history [])).0
        ≡ ok (whole_seconds memory))
unfolding unix set_last_updated get server-IsRedis
history_refines_memory_example =
    history_refines_memory server server-IsRedis parse_error history "jobs" [] refl
      (omega arith, refl, (omega arith, refl, (omega arith, refl, tt)))
