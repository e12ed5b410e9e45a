-- ===== src/Store/Memory/Tests.antt =====
-- Two writes to one key.
use amazing_gitlab_exporter.Base.{String, ◌≡◌, List, [], ◌∷◌}
use amazing_gitlab_exporter.Base.Int.{ℤ, pos}
use amazing_gitlab_exporter.Gitlab.RateLimiter.{zero_time}
use amazing_gitlab_exporter.Store.Memory.{
  new_memory_store, get_last_updated, writes, latest, last_write_wins,
}

abbrev history : List (String × ℤ)
history = ("g/a:pipelines", pos 5) ∷ ("g/b:pipelines", pos 6) ∷ ("g/a:pipelines", pos 7) ∷ []

last_write_wins_example :
    get_last_updated (writes new_memory_store history) "g/a:pipelines"
    ≡ latest zero_time history "g/a:pipelines"
last_write_wins_example = last_write_wins history "g/a:pipelines"
