-- ===== src/Train.antt =====
-- train.rs: the train types and service categories with their bit masks, a row of the registry
-- and a pixel of the snapshot.
pub mod Masks
use ns_pixels.Prelude.{ℕ, Bool, true, false}
use ns_pixels.Projection.{PixelCoord}

pub data TrainType : Type 0 where
  unknown sng slt flirt icm ddz virm icng : TrainType

pub data ServiceType : Type 0 where
  unknown sprinter intercity intercity_direct : ServiceType

-- `TrainType::as_bit`
unfoldable pub type_as_bit : TrainType → ℕ
type_as_bit TrainType.unknown = 1
type_as_bit sng = 2
type_as_bit slt = 4
type_as_bit flirt = 8
type_as_bit icm = 16
type_as_bit ddz = 32
type_as_bit virm = 64
type_as_bit icng = 128

-- `ServiceType::as_bit`
unfoldable pub service_as_bit : ServiceType → ℕ
service_as_bit ServiceType.unknown = 1
service_as_bit sprinter = 2
service_as_bit intercity = 4
service_as_bit intercity_direct = 8

-- The derived `==`, at `TrainType::Unknown` and `ServiceType::Unknown`, the one use of it.
abbrev pub is_unknown_type : TrainType → Bool
is_unknown_type TrainType.unknown = true
is_unknown_type _ = false

abbrev pub is_unknown_service : ServiceType → Bool
is_unknown_service ServiceType.unknown = true
is_unknown_service _ = false

-- `u16::MAX`: no attempt yet.
abbrev pub attempt_never : ℕ
attempt_never = 65535

pub record TrainState : Type 0 where
  pub pixel : PixelCoord
  pub last_seen : ℕ
  pub typ : TrainType
  pub service : ServiceType
  pub last_type_attempt_ago_s : ℕ
  pub last_service_attempt_ago_s : ℕ

-- `TrainState::new`
unfoldable pub new_state : PixelCoord → ℕ → TrainState
new_state pixel last_seen = record {
  pixel = pixel;
  last_seen = last_seen;
  typ = TrainType.unknown;
  service = ServiceType.unknown;
  last_type_attempt_ago_s = attempt_never;
  last_service_attempt_ago_s = attempt_never;
}

pub record PixelData : Type 0 where
  pub coord_key : ℕ
  pub types : ℕ
  pub services : ℕ
