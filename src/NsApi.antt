-- ===== src/NsApi.antt =====
-- ns_api.rs: the enrichment task. The gateway with its HTTP client is any `Gateway`, and a round of the
-- task is a function of the registry's map, the queue and the connection.
pub mod Labels
pub mod Paths
pub mod Fetch
pub mod Batches
pub mod Round
use ns_pixels.Prelude.{ℕ}

abbrev pub queue_capacity : ℕ
queue_capacity = 64

abbrev pub type_buffer_cap : ℕ
type_buffer_cap = 32

abbrev pub service_buffer_cap : ℕ
service_buffer_cap = 4

abbrev pub batch_max : ℕ
batch_max = 8

-- `RETRY_COOLDOWN`, in seconds.
abbrev pub retry_cooldown_s : ℕ
retry_cooldown_s = 120
