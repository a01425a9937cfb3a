-- ===== src/Port/Types.antt =====
-- The type names of fpga/coremark/core_portme.h.

-- The types of C that the header names, and the names that it gives them.
pub data CType : Type 0 where
  signed_short unsigned_short signed_int double unsigned_char unsigned_int unsigned_long : CType
  pointer : CType

abbrev pub ee_s16 : CType
ee_s16 = signed_short

abbrev pub ee_u16 : CType
ee_u16 = unsigned_short

abbrev pub ee_s32 : CType
ee_s32 = signed_int

abbrev pub ee_f32 : CType
ee_f32 = double

abbrev pub ee_u8 : CType
ee_u8 = unsigned_char

abbrev pub ee_u32 : CType
ee_u32 = unsigned_int

abbrev pub ee_ptr_int : CType
ee_ptr_int = ee_u32

abbrev pub ee_size_t : CType
ee_size_t = unsigned_long

abbrev pub core_ticks : CType
core_ticks = ee_u32
