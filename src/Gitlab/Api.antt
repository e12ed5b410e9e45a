-- ===== src/Gitlab/Api.antt =====
-- What gitlab.com/gitlab-org/api/client-go returns: a value, a response and an error. That library
-- is a parameter of the models; a call takes the world and returns its reply and the next world.
use amazing_gitlab_exporter.Base.{ℕ}
use amazing_gitlab_exporter.Base.Errors.{Error}
use amazing_gitlab_exporter.Gitlab.RateLimiter.{Headers}

-- The fields of `*gitlab.Response` that the program reads.
pub record Response : Type 0 where
  pub status_code : ℕ
  pub next_page : ℕ
  pub headers : Headers

-- A transport failure has no response, a refusal has one and an error, and an answer has no error:
-- the library never returns a nil response without an error.
pub data Reply (A : Type 0) : Type 0 where
  failed : Error → Reply A
  refused : Response → Error → Reply A
  answered : Response → A → Reply A
