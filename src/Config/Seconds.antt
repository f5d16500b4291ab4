-- ===== src/Config/Seconds.antt =====
-- ParseSeconds of internal/nginxtime/nginxtime.go. strings.ToLower is modelled on ASCII letters:
-- no other rune has a digit, a sign, a space or one of the unit letters for its lower case.
use placitum_keeper.Base.{
  ℕ, ◌+◌, ◌&&◌, Option, some, none, Str, if◌then◌else◌, leb, ◌==◌, [], ◌∷◌, map, reverse,
}
use placitum_keeper.Base.Int.{ℤ, pos, ◌*ℤ◌, leb_ℤ, wrap64}
use placitum_keeper.Base.Text.{trim_space, parse_int}

abbrev pub lower : ℕ → ℕ
lower c = if leb 65 c && leb c 90 then c + 32 else c

-- The table `units`.
abbrev pub unit_of : ℕ → Option ℕ
unit_of c =
    if c == b's'
    then some 1
    else (if c == b'm'
        then some 60
        else (if c == b'h' then some 3600 else (if c == b'd' then some 86400 else none)))

abbrev scaled : Option ℤ → ℕ → ℤ
scaled none mult = pos 0
scaled (some n) mult = if leb_ℤ n (pos 0) then pos 0 else wrap64 (n *ℤ pos mult)

-- `rev` is the text from its last byte on.
abbrev with_unit : ℕ → Str → Option ℕ → ℤ
with_unit last rev (some u) = scaled (parse_int (reverse rev)) u
with_unit last rev none = scaled (parse_int (reverse (last ∷ rev))) 1

abbrev by_last : Str → ℤ
by_last [] = pos 0
by_last (c ∷ rev) = with_unit c rev (unit_of c)

unfoldable pub parse_seconds : Str → ℤ
unfolding trim_space parse_int wrap64 ◌*ℤ◌
parse_seconds spec = by_last (reverse (trim_space (map lower spec)))
