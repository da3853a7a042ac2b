-- ===== src/Trace/Examples.antt =====
-- The lines of a small process, for src/trace.c.
use myclib.Prelude.{◌≡◌, refl, false, some, List, [], ◌∷◌, map, All, arith}
use myclib.Trace.{
  executable, Context, contains, is_text, get_task_maps, confirm_addr_info, same_text,
}
use myclib.Trace.Regions.{Entry, IsEntry}
use myclib.Trace.Lookup.{Line, region, unnamed, other, text, IsLine, confirm_addr_info_found}

-- 400-4ff r-xp 1 /p
abbrev program : Entry
program = record {
  begin_digits = 4 ∷ 0 ∷ 0 ∷ [];
  end_digits = 4 ∷ 15 ∷ 15 ∷ [];
  fields = b'1' ∷ b' ' ∷ [];
  name = b'p' ∷ [];
}

-- 7f00-7f80 r-xp 2 /lib/c
abbrev library : Entry
library = record {
  begin_digits = 7 ∷ 15 ∷ 0 ∷ 0 ∷ [];
  end_digits = 7 ∷ 15 ∷ 8 ∷ 0 ∷ [];
  fields = b'2' ∷ b' ' ∷ b'/' ∷ b'l' ∷ b'i' ∷ b'b' ∷ [];
  name = b'c' ∷ [];
}

-- and the lines 5-6 rw-p and 8-9 r-xp [v]
abbrev lines : List Line
lines =
    region program
    ∷ other (b'5' ∷ b'-' ∷ b'6' ∷ b' ' ∷ b'r' ∷ b'w' ∷ b'-' ∷ b'p' ∷ 10 ∷ [])
    ∷ unnamed (b'8' ∷ b'-' ∷ b'9' ∷ b' ' ∷ executable) (b'[' ∷ b'v' ∷ b']' ∷ 10 ∷ [])
    ∷ region library
    ∷ []

abbrev empty : Context
empty = record { text_maps = []; text_map_max_num = 0 }

program-IsEntry : IsEntry program
program-IsEntry = record {
  begin_digits = omega arith;
  end_digits = omega arith;
  begin_fits = omega arith;
  end_fits = omega arith;
  name = (refl, tt);
}

library-IsEntry : IsEntry library
library-IsEntry = record {
  begin_digits = omega arith;
  end_digits = omega arith;
  begin_fits = omega arith;
  end_fits = omega arith;
  name = (refl, tt);
}

lines-IsLine : All IsLine lines
unfolding is_text contains
lines-IsLine =
    (program-IsEntry, (refl, ((refl, (refl, (refl, (refl, tt)))), (library-IsEntry, tt))))

-- an address in the library
confirm_addr_info_found_example :
    (ctx : Context) × (get_task_maps (map text lines) empty ≡ some ctx)
    × (confirm_addr_info false (b'p' ∷ []) ctx.text_maps 0x7f12 ≡ some (0x12, b'c' ∷ []))
unfolding same_text
confirm_addr_info_found_example =
    confirm_addr_info_found lines lines-IsLine false (b'p' ∷ [])
      (record { name = b'p' ∷ []; begin = 0x400; end = 0x4ff } ∷ []) []
      (record { name = b'c' ∷ []; begin = 0x7f00; end = 0x7f80 }) 0x7f12 refl
      ((λ a. omega (arith, a.1)), tt) (omega arith)
