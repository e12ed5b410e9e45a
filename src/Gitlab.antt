-- ===== src/Gitlab.antt =====
-- internal/gitlab: the rate-limited client of the GitLab API.
pub mod RateLimiter
pub mod Api
pub mod Tier
pub mod Rest
pub mod Client
pub mod Graphql
