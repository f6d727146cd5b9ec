-- ===== src/Device/Tests.antt =====
-- A block device of 10 000 bytes with zones of 4096 bytes, and zoned devices.
use znworkload.Prelude.{◌≡◌, refl, arith}
use znworkload.Run.{Returns, abort}
use znworkload.Startup.{DeviceInfo}
use znworkload.Device.{opened, failed, signed_quotient, open_block, open_zoned}
use znworkload.Device.Inside.{Inside, open_block-Inside}

open_block-Inside_example : Returns (Inside 10000 1024) (open_block 4096 10000)
open_block-Inside_example =
    open_block-Inside 4096 10000 1024 (omega arith) (omega arith) (omega arith) (omega arith)
      (omega arith)

too_small : open_block 4096 4095 ≡ abort
unfolding open_block
too_small = refl

abbrev info : DeviceInfo
info = record { nr_zones = 8; max_nr_active_zones = 14; zone_size = 8192 }

limited : open_zoned 3 info 0 (0, 4096) ≡ opened (record info { nr_zones = 3 }) 4096
unfolding open_zoned
limited = refl

no_report : open_zoned 3 info 0 (5, 4096) ≡ failed 5
unfolding open_zoned
no_report = refl

-- The long of 2^63 bytes is -2^63, and its quotient by 2^62 is -2.
negative_size : signed_quotient 9223372036854775808 4611686018427387904 ≡ 18446744073709551614
unfolding signed_quotient
negative_size = refl
