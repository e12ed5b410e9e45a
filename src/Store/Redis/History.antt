-- ===== src/Store/Redis/History.antt =====
-- internal/store/redis.go: the times that are read against the times that were written.
use package.text.Mathlib.TextEquality.{Char-path}
use amazing_gitlab_exporter.Base.{
  ℕ, ◌≡◌, ◌≢◌, refl, sym, ap, ◌∙◌, String, false, Option, none, some, List, [], ◌∷◌, ◌++◌, ◌==◌,
  comparable_string, beq_refl, Bool-cases, ◌⊎◌, inl, inr, arith, if◌then◌else◌,
}
use amazing_gitlab_exporter.Base.Int.{ℤ, pos, negsuc, ◌+ℤ◌, ◌≤ℤ◌, ◌<ℤ◌}
use amazing_gitlab_exporter.Base.Strconv.{codes, format_int}
use amazing_gitlab_exporter.Base.Strconv.Roundtrip.{FitsInt64, parse-format_int}
use amazing_gitlab_exporter.Base.Errors.{Error, wrap, text, Result, ok}
use amazing_gitlab_exporter.Gitlab.RateLimiter.{nanoseconds, zero_time}
use amazing_gitlab_exporter.Store.Memory
use amazing_gitlab_exporter.Store.Memory.{latest, writes, new_memory_store, last_write_wins}
use amazing_gitlab_exporter.Store.Redis.{
  GetReply, found, missing, failed, Server, redis_key, unix, from_unix, read_epoch, read_reply,
  get_last_updated, set_last_updated,
}

-- The time of a second that has begun: not after `t`, and less than a second before it.
from_unix-unix : (t : ℤ) → (from_unix (unix t) ≤ℤ t) × (t <ℤ from_unix (unix t) +ℤ pos nanoseconds)
unfolding from_unix unix
from_unix-unix (pos n) = (omega arith, ground arith)
from_unix-unix (negsuc n) = (omega arith, ground arith)

-- What a key of the server holds.
abbrev pub reply_of : Option (List ℕ) → GetReply
reply_of none = missing
reply_of (some value) = found value

-- The documented behaviour of GET and SET that theorems rely on, for a view of what the server holds:
-- GET fails or answers what is held, and changes nothing; a SET that succeeds replaces the value of its
-- key and of no other.
pub record IsRedis {World : Type 0} (server : Server World) : Type 0 where
  pub holds : World → List ℕ → Option (List ℕ)
  pub get-answers :
      (k : List ℕ) (w : World)
      → ((e : Error) × ((server.get k w).0 ≡ failed e))
        ⊎ ((server.get k w).0 ≡ reply_of (holds w k))
  pub get-keeps : (k j : List ℕ) (w : World) → holds (server.get k w).1 j ≡ holds w j
  pub set-same :
      (k v : List ℕ) (w : World)
      → (server.set k v w).0 ≡ none
      → holds (server.set k v w).1 k ≡ some v
  pub set-other :
      (k v j : List ℕ) (w : World)
      → (server.set k v w).0 ≡ none
      → k ≢ j
      → holds (server.set k v w).1 j ≡ holds w j

codes-injective : (s t : String) → codes s ≡ codes t → s ≡ t
codes-injective String.[] String.[] h = refl
codes-injective String.[] (String.◌∷◌ c t) h = absurd (cc h)
codes-injective (String.◌∷◌ c s) String.[] h = absurd (cc h)
codes-injective (String.◌∷◌ c s) (String.◌∷◌ d t) h =
    rw (Char-path c d (cc h), codes-injective s t (cc h)) refl

++-cancel : (xs ys zs : List ℕ) → xs ++ ys ≡ xs ++ zs → ys ≡ zs
++-cancel [] ys zs h = h
++-cancel (x ∷ xs) ys zs h = ++-cancel xs ys zs (cc h)

redis_key-injective : (k j : String) → redis_key k ≡ redis_key j → k ≡ j
unfolding redis_key
redis_key-injective k j h =
    codes-injective k j (++-cancel (codes "age:last_updated:") (codes k) (codes j) h)

redis_key-other : (k j : String) → (k == j) ≡ false → redis_key k ≢ redis_key j
redis_key-other k j differ h =
    let same = (comparable_string.same_iff k j).1 (redis_key-injective k j h) in
    absurd (cc (sym same ∙ differ))

-- The time with its fraction of a second cut off.
abbrev pub whole_seconds : ℤ → ℤ
whole_seconds t = from_unix (unix t)

module _ {World : Type 0} (server : Server World) (redis : IsRedis server)
    (parse_error : List ℕ → Error) where
  -- What a key reads as, if GET does not fail.
  abbrev reading : String → World → Result ℤ
  reading key w = read_reply parse_error key (reply_of (redis.holds w (redis_key key)))

  set_last_updated-stored :
      (key : String) (t : ℤ) (w : World)
      → (set_last_updated server parse_error key t w).0 ≡ none
      → (server.set (redis_key key) (format_int (unix t)) w).0 ≡ none
  unfolding set_last_updated
  set_last_updated-stored key t w h = go (server.set (redis_key key) (format_int (unix t)) w) h
    where
      go :
          (done : Option Error × World)
          → elim done.0 [ none ↦ none | some e ↦ some (wrap "redis SET %s: %w" (text key ∷ []) e) ]
            ≡ none
          → done.0 ≡ none
      go (none, w1) h = refl
      go (some e, w1) h = absurd (cc h)

  set_last_updated-reading :
      (key other : String) (t : ℤ) (w : World)
      → FitsInt64 (unix t)
      → (set_last_updated server parse_error key t w).0 ≡ none
      → reading other (set_last_updated server parse_error key t w).1
        ≡ (if key == other then ok (whole_seconds t) else reading other w)
  unfolding set_last_updated read_reply read_epoch
  set_last_updated-reading key other t w fits success =
      let value = format_int (unix t) in
      let stored = set_last_updated-stored key t w success in
      elim (Bool-cases (key == other)) [
        | inl same ↦
            rw
              (
                same,
                sym ((comparable_string.same_iff key other).0 same),
                redis.set-same (redis_key key) value w stored,
                parse-format_int (unix t) fits,
              )
              refl
        | inr differ ↦
            rw
              (
                differ,
                redis.set-other (redis_key key) value (redis_key other) w stored
                    (redis_key-other key other differ),
              )
              refl
      ]

  -- A reading is what is returned, unless GET failed.
  get_last_updated-reading :
      (key : String) (w : World) (r : Result ℤ)
      → reading key w ≡ r
      → ((e : Error) × ((server.get (redis_key key) w).0 ≡ failed e))
        ⊎ ((get_last_updated server parse_error key w).0 ≡ r)
  unfolding get_last_updated
  get_last_updated-reading key w r h = elim (redis.get-answers (redis_key key) w) [
    | inl refused ↦ inl refused
    | inr answer ↦ inr (ap (λ reply. read_reply parse_error key reply) answer ∙ h)
  ]

  -- Let a time whose second fits an int64 be stored for a key without an error, on a server that does
  -- what GET and SET are documented to do. If the same key is then read, either GET itself fails, or the
  -- result is the time rounded down to a second: not after it, and less than a second before it.
  pub set-get_last_updated :
      (key : String) (t : ℤ) (w : World)
      → FitsInt64 (unix t)
      → (set_last_updated server parse_error key t w).0 ≡ none
      → let w1 = (set_last_updated server parse_error key t w).1 in
        (((e : Error) × ((server.get (redis_key key) w1).0 ≡ failed e))
          ⊎ ((get_last_updated server parse_error key w1).0 ≡ ok (whole_seconds t)))
        × (whole_seconds t ≤ℤ t)
        × (t <ℤ whole_seconds t +ℤ pos nanoseconds)
  set-get_last_updated key t w fits success =
      let w1 = (set_last_updated server parse_error key t w).1 in
      (
        get_last_updated-reading key w1 (ok (whole_seconds t))
            (set_last_updated-reading key key t w fits success ∙ rw (beq_refl key) refl),
        (from_unix-unix t).0,
        (from_unix-unix t).1,
      )

  -- The world after a history of writes, oldest first.
  abbrev pub written : List (String × ℤ) → World → World
  written [] w = w
  written ((key, t) ∷ ws) w = written ws (set_last_updated server parse_error key t w).1

  -- Every write of the history succeeds, and its second fits an int64.
  abbrev pub Stored : List (String × ℤ) → World → Type 0
  Stored [] w = Unit
  Stored ((key, t) ∷ ws) w =
      FitsInt64 (unix t)
      × ((set_last_updated server parse_error key t w).0 ≡ none)
      × Stored ws (set_last_updated server parse_error key t w).1

  written-reading :
      (ws : List (String × ℤ)) (key : String) (old : ℤ) (w : World)
      → Stored ws w
      → reading key w ≡ ok (whole_seconds old)
      → reading key (written ws w) ≡ ok (whole_seconds (latest old ws key))
  written-reading [] key old w stored h = h
  written-reading ((k, t) ∷ ws) key old w (fits, success, stored) h =
      written-reading ws key (if k == key then t else old)
        (set_last_updated server parse_error k t w).1 stored
        (set_last_updated-reading k key t w fits success
          ∙ elim (Bool-cases (k == key)) [ inl same ↦ rw same refl | inr differ ↦ rw differ h ])

  -- Start from a server that holds nothing for a key, and let a history of writes to any keys succeed,
  -- of times whose seconds fit an int64. If the key is then read, either GET itself fails, or the result
  -- is the time that the memory store would return for the same history, the last one written to the
  -- key or the zero time, rounded down to a second.
  pub history_refines_memory :
      (ws : List (String × ℤ)) (key : String) (w : World)
      → redis.holds w (redis_key key) ≡ none
      → Stored ws w
      → let memory = Memory.get_last_updated (writes new_memory_store ws) key in
        ((e : Error) × ((server.get (redis_key key) (written ws w)).0 ≡ failed e))
        ⊎ ((get_last_updated server parse_error key (written ws w)).0 ≡ ok (whole_seconds memory))
  unfolding read_reply from_unix unix
  history_refines_memory ws key w empty stored = rw (last_write_wins ws key) (
      get_last_updated-reading key (written ws w) (ok (whole_seconds (latest zero_time ws key)))
        (written-reading ws key zero_time w stored (rw empty refl)))
