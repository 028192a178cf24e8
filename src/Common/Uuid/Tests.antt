-- ===== src/Common/Uuid/Tests.antt =====
-- Object ids on concrete inputs.
use libvineyard.Base.{◌≡◌, refl, arith, ◌^◌, ◌-◌, codes}
use libvineyard.Common.Uuid.{object_id_to_string, object_id_from_string}
use libvineyard.Common.Uuid.Laws.{object_id_from_string-to_string}

object_id_from_string-to_string_example :
    object_id_from_string (object_id_to_string 0x8000_7f12_3456_7abc) ≡ 0x8000_7f12_3456_7abc
object_id_from_string-to_string_example =
    object_id_from_string-to_string 0x8000_7f12_3456_7abc (omega arith)

printed : object_id_to_string 0x00ab ≡ codes "00000000000000ab"
unfolding object_id_to_string
printed = refl

read_with_prefix : object_id_from_string (codes "  -0xFfz") ≡ 2 ^ 64 - 255
unfolding object_id_from_string
read_with_prefix = refl
