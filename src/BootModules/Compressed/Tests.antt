-- ===== src/BootModules/Compressed/Tests.antt =====
-- Two compressed modules and a base module between them.
use bootstrap.Prelude.{◌+◌, ◌^◌, ◌≤◌, true, [], ◌∷◌, List, arith}
use bootstrap.Align.Sample.{sample, sample-IsAlign}
use bootstrap.BootModules.{ModInfo}
use bootstrap.BootModules.Mbi.{MbiLayout}
use bootstrap.BootModules.Compressed.{Unpacker, place_modules}
use bootstrap.BootModules.Compressed.Unpack.{first_places}
use bootstrap.BootModules.Compressed.Round.{Fits}
use bootstrap.BootModules.Compressed.Search.{Clear, all_pages, first_places-Clear}

abbrev layout : MbiLayout
layout = record { info_size = 32; mod_size = 32; flag_mask = 255; flag_unspec = 0 }

abbrev unpacker : Unpacker
unpacker = record {
  zlib = λ m. record { init_ok = true; stream_end = true; avail_out = 0 };
  output = λ m dest bytes. bytes;
}

abbrev first : ModInfo
first = record { start = 65536; size = 1000; size_uncompressed = 9000; flags = 0 }

abbrev kernel : ModInfo
kernel = record { start = 69632; size = 4096; size_uncompressed = 4096; flags = 1 }

abbrev second : ModInfo
second = record { start = 73728; size = 5000; size_uncompressed = 6000; flags = 0 }

abbrev modules : List ModInfo
modules = first ∷ kernel ∷ second ∷ []

first-Fits : Fits sample sample-IsAlign 9 unpacker layout 81920 first
first-Fits = record { end = omega arith; rounded = omega arith; unpacked = omega arith }

kernel-Fits : Fits sample sample-IsAlign 9 unpacker layout 81920 kernel
kernel-Fits = record { end = omega arith; rounded = omega arith; unpacked = omega arith }

second-Fits : Fits sample sample-IsAlign 9 unpacker layout 81920 second
second-Fits = record { end = omega arith; rounded = omega arith; unpacked = omega arith }

room : 81920 + all_pages sample sample-IsAlign 9 unpacker layout modules + 4096 ≤ 2 ^ 64
unfolding all_pages
room = omega arith

first_places-Clear_example :
    Clear sample sample-IsAlign 9 unpacker layout 0 modules
      (first_places sample 9 unpacker layout first)
      (place_modules sample 9 unpacker layout modules (first_places sample 9 unpacker layout first))
first_places-Clear_example =
    first_places-Clear sample sample-IsAlign 9 unpacker layout 81920 modules first
      (first-Fits, (kernel-Fits, (second-Fits, tt))) first-Fits (omega arith) room
