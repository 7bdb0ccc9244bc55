-- ===== src/Http/Writer.antt =====
-- http.ResponseWriter as an interface, and a handler as the calls that it makes of its writer.
use thrust_oauth2id_server.Prelude.{ℕ, String, Bool, List, [], ◌∷◌, ◌≡◌, refl, ◌++◌}
use thrust_oauth2id_server.Http.Header.{Header, set, del}

-- What Write returns: the count, and whether the error is nil.
pub record Written : Type 0 where
  pub count : ℕ
  pub fine : Bool

-- `header` reads the map that Header() returns, and `with_header` is a change of that map.
pub record Writer (W : Type 0) : Type 0 where
  pub header : W → Header
  pub with_header : Header → W → W
  pub write_header : ℕ → W → W
  pub write : String → W → W × Written
  pub flush : W → W

pub data Call : Type 0 where
  set_header : String → String → Call
  del_header : String → Call
  write_header : ℕ → Call
  write : String → Call
  flush : Call

module _ {W : Type 0} (o : Writer W) where
  unfoldable pub call : Call → W → W
  call (set_header key value) w = o.with_header (set key value (o.header w)) w
  call (del_header key) w = o.with_header (del key (o.header w)) w
  call (Call.write_header code) w = o.write_header code w
  call (Call.write p) w = (o.write p w).0
  call Call.flush w = o.flush w

  unfoldable pub run : List Call → W → W
  run [] w = w
  run (c ∷ cs) w = run cs (call c w)

  pub run-append : (cs ds : List Call) (w : W) → run (cs ++ ds) w ≡ run ds (run cs w)
  unfolding run
  run-append [] ds w = refl
  run-append (c ∷ cs) ds w = run-append cs ds (call c w)
