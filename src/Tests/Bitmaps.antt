-- ===== src/Tests/Bitmaps.antt =====
-- Bitmaps at concrete inputs: 12 bits in the bytes 0xff and 0x02.
use miniob.Base.{◌==◌, if◌then◌else◌}
use miniob.Bitmap.{Bitmap}

abbrev bits : Bitmap
bits = record { memory = λ i. if i == 0 then 255 else 2; base = 0; size = 12 }
