-- ===== src/Extern/Gateway.antt =====
-- reqwless and serde_json_core: the gateway behind an HTTP client, and the parsers of its answers.
use ns_pixels.Prelude.{ℕ, Option, List}

-- What `read_to_end` gives.
pub data Body (E : Type 0) : Type 0 where
  read_failed : E → Body E
  whole : List ℕ → Body E

-- What `send` gives: no response, or a status and a body.
pub data Sent (E : Type 0) : Type 0 where
  send_failed : E → Sent E
  response : ℕ → Body E → Sent E

-- A connection changes with each request and is read to its end; `now` is the time after that. The parsers
-- are of `TrainInfo` records and of a `Journey`, as the derived `Deserialize` reads them.
pub record Gateway (Info Journey : Type 0) : Type 1 where
  pub E : Type 0
  pub Network : Type 0
  pub Conn : Type 0
  -- `http.resource`, from a network and a seed
  pub open_resource : Network → ℕ → Option Conn
  pub get : Conn → List ℕ → Conn × Sent E
  pub now : Conn → ℕ
  pub parse_infos : List ℕ → Option (List Info)
  pub parse_journey : List ℕ → Option Journey
