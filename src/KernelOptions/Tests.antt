-- ===== src/KernelOptions/Tests.antt =====
-- A command line with the option for commands.
use bootstrap.Prelude.{ℕ, ◌≡◌, refl, some, List}
use bootstrap.KernelOptions.{load_word, codes, option_value, kcmdline_parse}

abbrev cmdline : List ℕ
cmdline = codes "fiasco -esc -jdb_cmd=Tgo -nojdb"

abbrev memory : ℕ → ℕ
memory x = 0

abbrev one : List ℕ → ℕ
one text = 1

option_value_found : option_value cmdline (codes " -jdb_cmd") ≡ some (codes "Tgo -nojdb")
unfolding option_value
option_value_found = refl

kcmdline_parse_flags : load_word 4104 (kcmdline_parse one 4096 cmdline memory) ≡ 8388656
unfolding kcmdline_parse load_word
kcmdline_parse_flags = refl
