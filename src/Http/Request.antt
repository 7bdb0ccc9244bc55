-- ===== src/Http/Request.antt =====
-- http.Request.
use thrust_oauth2id_server.Prelude.{ℕ, String}
use thrust_oauth2id_server.Http.Header.{Header}

-- The fields of http.Request that the source reads. `query` is what URL.Query().Encode() returns.
pub record Request : Type 0 where
  pub method : String
  pub path : String
  pub query : String
  pub raw_query : String
  pub host : String
  pub header : Header
  pub remote_addr : String
  pub content_length : ℕ
