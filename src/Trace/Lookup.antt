-- ===== src/Trace/Lookup.antt =====
-- From the lines that the system writes to the region of an address, for src/trace.c.
use myclib.Prelude.{
  inl, inr, Bool-cases, ℕ, ◌-◌, ◌≤◌, ◌<◌, ◌≡◌, refl, ap, ◌∙◌, sym, Bool, false, none, some, List,
  [], ◌∷◌, ◌++◌, map, append_assoc, append-nil, if◌then◌else◌, length, arith, All, length-append,
}
use myclib.Trace.{
  is_separator, Region, Context, is_text, append_map, grow_maps, read_line, get_task_maps,
  confirm_addr_info, same_text,
}
use myclib.Trace.Regions.{
  Entry, IsEntry, entry_line, entry_region, entry-is_text, parse_line-entry, parse_line-blank,
}

-- A line on a region that can be executed and has a name, one whose last separator is a blank, as for
-- a region without a file, or any other.
pub data Line : Type 0 where
  region : Entry → Line
  unnamed : List ℕ → List ℕ → Line
  other : List ℕ → Line

abbrev pub text : Line → List ℕ
text (region e) = entry_line e
text (unnamed before after) = before ++ (b' ' ∷ after)
text (other line) = line

abbrev pub IsLine : Line → Type 0
IsLine (region e) = IsEntry e
IsLine (unnamed before after) = All (λ c. is_separator c ≡ false) after
IsLine (other line) = is_text line ≡ false

abbrev pub regions : List Line → List Region
regions [] = []
regions (region e ∷ lines) = entry_region e ∷ regions lines
regions (unnamed before after ∷ lines) = regions lines
regions (other line ∷ lines) = regions lines

read_line-other :
    (line : List ℕ) (ctx : Context) → is_text line ≡ false → read_line line ctx ≡ some ctx
unfolding read_line
read_line-other line ctx h = rw h refl

append_map-grow :
    (r : Region) (ctx : Context)
    → length ctx.text_maps ≤ ctx.text_map_max_num
    → (ctx' : Context) × (append_map r (grow_maps ctx) ≡ some ctx')
      × (ctx'.text_maps ≡ ctx.text_maps ++ r ∷ [])
      × (length ctx'.text_maps ≤ ctx'.text_map_max_num)
unfolding append_map grow_maps
append_map-grow r ctx h = (
  record (grow_maps ctx) { text_maps = ctx.text_maps ++ r ∷ [] },
  ground arith,
  refl,
  ground (arith, length-append ctx.text_maps (r ∷ [])),
)

read_line-region :
    (e : Entry) (ctx : Context)
    → IsEntry e
    → length ctx.text_maps ≤ ctx.text_map_max_num
    → (ctx' : Context) × (read_line (entry_line e) ctx ≡ some ctx')
      × (ctx'.text_maps ≡ ctx.text_maps ++ entry_region e ∷ [])
      × (length ctx'.text_maps ≤ ctx'.text_map_max_num)
unfolding read_line
read_line-region e ctx valid h =
    let (ctx', added, maps, room) = append_map-grow (entry_region e) ctx h in
    (ctx', rw (entry-is_text e) (rw (parse_line-entry e valid) added), maps, room)

read_line-unnamed :
    (before after : List ℕ) (ctx : Context)
    → All (λ c. is_separator c ≡ false) after
    → length ctx.text_maps ≤ ctx.text_map_max_num
    → (ctx' : Context) × (read_line (before ++ (b' ' ∷ after)) ctx ≡ some ctx')
      × (ctx'.text_maps ≡ ctx.text_maps)
      × (length ctx'.text_maps ≤ ctx'.text_map_max_num)
unfolding read_line grow_maps
read_line-unnamed before after ctx plain h =
    elim (Bool-cases (is_text (before ++ (b' ' ∷ after)))) [
      | inl e ↦ (
        grow_maps ctx,
        rw e (rw (parse_line-blank before after plain) refl),
        ground arith,
        ground arith,
      )
      | inr e ↦ (ctx, rw e refl, refl, h)
    ]

-- Reading all lines adds the regions that can be executed, within the room of the array.
pub get_task_maps-regions :
    (lines : List Line) (ctx : Context)
    → All IsLine lines
    → length ctx.text_maps ≤ ctx.text_map_max_num
    → (ctx' : Context) × (get_task_maps (map text lines) ctx ≡ some ctx')
      × (ctx'.text_maps ≡ ctx.text_maps ++ regions lines)
      × (length ctx'.text_maps ≤ ctx'.text_map_max_num)
unfolding get_task_maps
get_task_maps-regions [] ctx all h = (ctx, refl, sym (append-nil ctx.text_maps), h)
get_task_maps-regions (region e ∷ lines) ctx all h =
    let (ctx1, added, maps1, room1) = read_line-region e ctx all.0 h in
    let (ctx2, result, maps2, room2) = get_task_maps-regions lines ctx1 all.1 room1 in
    (
      ctx2,
      rw added result,
      maps2
          ∙ ap (λ (ms : List Region). ms ++ regions lines) maps1
          ∙ append_assoc ctx.text_maps (entry_region e ∷ []) (regions lines),
      room2,
    )
get_task_maps-regions (unnamed before after ∷ lines) ctx all h =
    let (ctx1, passed, maps1, room1) = read_line-unnamed before after ctx all.0 h in
    let (ctx2, result, maps2, room2) = get_task_maps-regions lines ctx1 all.1 room1 in
    (ctx2, rw passed result, maps2 ∙ ap (λ (ms : List Region). ms ++ regions lines) maps1, room2)
get_task_maps-regions (other line ∷ lines) ctx all h =
    rw (read_line-other line ctx all.0) (get_task_maps-regions lines ctx all.1 h)

-- The address lies in the region, but not at its beginning.
abbrev pub Around : ℕ → Region → Type 0
Around addr r = (r.begin < addr) × (addr < r.end)

-- what is shown for an address in a region
abbrev pub shown : Bool → List ℕ → Region → ℕ → ℕ
shown pie prgname r addr =
    if same_text r.name prgname then (if pie then addr - r.begin else addr) else addr - r.begin

confirm_addr_info-first :
    (pie : Bool) (prgname : List ℕ) (before after : List Region) (r : Region) (addr : ℕ)
    → All (λ q. ¬ Around addr q) before
    → Around addr r
    → confirm_addr_info pie prgname (before ++ (r ∷ after)) addr
      ≡ some (shown pie prgname r addr, r.name)
unfolding confirm_addr_info
confirm_addr_info-first pie prgname [] after r addr out around = ground arith
confirm_addr_info-first pie prgname (q ∷ before) after r addr out around =
    ground (arith, out.0, confirm_addr_info-first pie prgname before after r addr out.1 around)

confirm_addr_info-none :
    (pie : Bool) (prgname : List ℕ) (maps : List Region) (addr : ℕ)
    → All (λ q. ¬ Around addr q) maps
    → confirm_addr_info pie prgname maps addr ≡ none
unfolding confirm_addr_info
confirm_addr_info-none pie prgname [] addr out = refl
confirm_addr_info-none pie prgname (q ∷ maps) addr out =
    ground (arith, out.0, confirm_addr_info-none pie prgname maps addr out.1)

All-Around :
    (before after : List Region) (r : Region)
    → All (λ q. ¬ Around r.begin q) before
    → All (λ q. ¬ Around r.begin q) after
    → All (λ q. ¬ Around r.begin q) (before ++ (r ∷ after))
All-Around [] after r out out' = ((λ a. omega (arith, a.0)), out')
All-Around (q ∷ before) after r out out' = (out.0, All-Around before after r out.1 out')

module _ (lines : List Line) (all : All IsLine lines) where
  -- the context that the constructor starts from
  abbrev start : Context
  start = record { text_maps = []; text_map_max_num = 0 }

  -- After `get_task_maps` has read the lines, whatever lines stand between those of executable
  -- regions with names, an address behind the beginning and before the end of such a region, and of
  -- no earlier one, is found: with the name of the region, and its offset in the region unless the
  -- name is the program's and `USE_PIE` is not defined.
  pub confirm_addr_info_found :
      (pie : Bool) (prgname : List ℕ) (before after : List Region) (r : Region) (addr : ℕ)
      → regions lines ≡ before ++ (r ∷ after)
      → All (λ q. ¬ Around addr q) before
      → Around addr r
      → (ctx : Context) × (get_task_maps (map text lines) start ≡ some ctx)
        × (confirm_addr_info pie prgname ctx.text_maps addr
            ≡ some (shown pie prgname r addr, r.name))
  confirm_addr_info_found pie prgname before after r addr split out around =
      let (ctx, result, maps, room) = get_task_maps-regions lines start all (omega arith) in
      (
        ctx,
        result,
        ap (λ (ms : List Region). confirm_addr_info pie prgname ms addr) (maps ∙ split)
            ∙ confirm_addr_info-first pie prgname before after r addr out around,
      )

  -- The first address of a region, where no other region lies around it, is not found, although the
  -- region contains it.
  pub confirm_addr_info_begin :
      (pie : Bool) (prgname : List ℕ) (before after : List Region) (r : Region)
      → regions lines ≡ before ++ (r ∷ after)
      → All (λ q. ¬ Around r.begin q) before
      → All (λ q. ¬ Around r.begin q) after
      → (ctx : Context) × (get_task_maps (map text lines) start ≡ some ctx)
        × (confirm_addr_info pie prgname ctx.text_maps r.begin ≡ none)
  confirm_addr_info_begin pie prgname before after r split out out' =
      let (ctx, result, maps, room) = get_task_maps-regions lines start all (omega arith) in
      (
        ctx,
        result,
        ap (λ (ms : List Region). confirm_addr_info pie prgname ms r.begin) (maps ∙ split)
            ∙ confirm_addr_info-none pie prgname (before ++ (r ∷ after)) r.begin
                (All-Around before after r out out'),
      )
