-- ===== src/Train/Masks.antt =====
-- The masks: each variant has a bit of its own.
use ns_pixels.Prelude.{ℕ, ◌≡◌, arith, if◌then◌else◌, ◌==◌}
use ns_pixels.Prelude.Bits.{bit}
use ns_pixels.Train.{
  TrainType, ServiceType, sng, slt, flirt, icm, ddz, virm, icng, sprinter, intercity,
  intercity_direct, type_as_bit, service_as_bit,
}

-- The position of a variant's bit.
abbrev pub type_index : TrainType → ℕ
type_index TrainType.unknown = 0
type_index sng = 1
type_index slt = 2
type_index flirt = 3
type_index icm = 4
type_index ddz = 5
type_index virm = 6
type_index icng = 7

abbrev pub service_index : ServiceType → ℕ
service_index ServiceType.unknown = 0
service_index sprinter = 1
service_index intercity = 2
service_index intercity_direct = 3

pub bit-type_as_bit :
    (t u : TrainType)
    → bit (type_index t) (type_as_bit u) ≡ (if type_index t == type_index u then 1 else 0)
unfolding type_as_bit
bit-type_as_bit TrainType.unknown u = ground arith
bit-type_as_bit _ u = ground arith

pub bit-service_as_bit :
    (t u : ServiceType)
    → bit (service_index t) (service_as_bit u)
      ≡ (if service_index t == service_index u then 1 else 0)
unfolding service_as_bit
bit-service_as_bit ServiceType.unknown u = ground arith
bit-service_as_bit _ u = ground arith

pub type_index-injective : (t u : TrainType) → type_index t ≡ type_index u → t ≡ u
type_index-injective TrainType.unknown u e = ground arith
type_index-injective _ u e = ground arith

pub service_index-injective : (t u : ServiceType) → service_index t ≡ service_index u → t ≡ u
service_index-injective ServiceType.unknown u e = ground arith
service_index-injective _ u e = ground arith
