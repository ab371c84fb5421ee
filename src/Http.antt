-- ===== src/Http.antt =====
-- What the gateway writes and the browser reads of an HTTP response.
use ratelimit_gateway.Base.{ℕ, String, Option}

-- The value of a header, as a client reads it.
abbrev pub Headers : Type 0
Headers = String → Option String

pub record Response : Type 0 where
  pub status : ℕ
  pub header : Headers
