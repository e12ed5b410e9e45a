-- ===== src/Store/Redis.antt =====
-- internal/store/redis.go. The Redis server and its client are parameters: `redis.ParseURL`, a ping,
-- GET and SET. Keys and values are lists of character codes, and a time is in nanoseconds of Unix time.
pub mod History
mod Tests
use amazing_gitlab_exporter.Base.{
  ℕ, suc, ◌-◌, ◌*◌, ◌/◌, String, Option, none, some, List, ◌∷◌, [], ◌++◌,
}
use amazing_gitlab_exporter.Base.Int.{ℤ, pos, negsuc}
use amazing_gitlab_exporter.Base.Strconv.{codes, parse_codes, format_int}
use amazing_gitlab_exporter.Base.Errors.{Error, wrap, foreign, text, Result, ok, err}
use amazing_gitlab_exporter.Gitlab.RateLimiter.{nanoseconds, zero_time}

-- What GET returns: the value, `redis.Nil`, or another error.
pub data GetReply : Type 0 where
  found : List ℕ → GetReply
  missing : GetReply
  failed : Error → GetReply

pub record Server (World : Type 0) : Type 0 where
  pub get : List ℕ → World → GetReply × World
  -- SET without an expiration.
  pub set : List ℕ → List ℕ → World → Option Error × World

-- `redisKeyPrefix + key`.
pub redis_key : String → List ℕ
redis_key key = codes "age:last_updated:" ++ codes key

-- `t.Unix()` rounds down, and `time.Unix(epoch, 0)`.
pub unix : ℤ → ℤ
unix (pos n) = pos (n / nanoseconds)
unix (negsuc n) = negsuc (n / nanoseconds)

pub from_unix : ℤ → ℤ
from_unix (pos n) = pos (n * nanoseconds)
from_unix (negsuc n) = negsuc (suc n * nanoseconds - 1)

-- The result of `strconv.ParseInt`, whose error has the text of the standard library.
pub read_epoch : (List ℕ → Error) → String → List ℕ → Option ℤ → Result ℤ
read_epoch parse_error key value none =
    err (wrap "parsing stored timestamp for %s: %w" (text key ∷ []) (parse_error value))
read_epoch parse_error key value (some epoch) = ok (from_unix epoch)

-- A failed call returns the zero time with its error.
pub read_reply : (List ℕ → Error) → String → GetReply → Result ℤ
read_reply parse_error key missing = ok zero_time
read_reply parse_error key (failed e) = err (wrap "redis GET %s: %w" (text key ∷ []) e)
read_reply parse_error key (found value) = read_epoch parse_error key value (parse_codes value)

module _ {World : Type 0} (server : Server World) (parse_error : List ℕ → Error) where
  pub get_last_updated : String → World → Result ℤ × World
  get_last_updated key w =
      let (reply, w1) = server.get (redis_key key) w in (read_reply parse_error key reply, w1)

  pub set_last_updated : String → ℤ → World → Option Error × World
  set_last_updated key t w =
      let (e, w1) = server.set (redis_key key) (format_int (unix t)) w in
      (elim e [ none ↦ none | some e ↦ some (wrap "redis SET %s: %w" (text key ∷ []) e) ], w1)

-- `NewRedisStore`: the URL is parsed, and the server must answer a ping, or else the client is closed.
module _ {World Client : Type 0} (parse_url : String → Result Client)
    (ping : Client → World → Option Error × World) (close : Client → World → World) where
  pub check_ping : Client → Option Error × World → Result Client × World
  check_ping client (none, w) = (ok client, w)
  check_ping client (some e, w) = (err (wrap "connecting to redis: %w" [] e), close client w)

  pub new_redis_store : String → World → Result Client × World
  new_redis_store url w = elim (parse_url url) [
    | err e ↦ (err (wrap "parsing redis URL: %w" [] e), w)
    | ok client ↦ check_ping client (ping client w)
  ]
