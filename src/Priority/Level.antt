-- ===== src/Priority/Level.antt =====
-- The priority levels: `Level`, its constants, `String` and `ParseLevel`.
use rdispatch.Common.{String, str_eq, ◌||◌, if◌then◌else◌}
use rdispatch.Common.Int.{ℤ, pos, ◌==ℤ◌}

-- `type Level int`.
abbrev pub Level : Type 0
Level = ℤ

abbrev pub low : Level
low = pos 0

abbrev pub normal : Level
normal = pos 1

abbrev pub high : Level
high = pos 2

abbrev pub critical : Level
critical = pos 3

-- `Level.String`.
unfoldable pub to_string : Level → String
to_string l =
    if l ==ℤ critical
    then "CRITICAL"
    else if l ==ℤ high
    then "HIGH"
    else if l ==ℤ normal
    then "NORMAL"
    else if l ==ℤ low
    then "LOW"
    else "UNKNOWN"

unfoldable pub parse_level : String → Level
parse_level s =
    if str_eq s "CRITICAL" || str_eq s "PRIORITY_CRITICAL"
    then critical
    else if str_eq s "HIGH" || str_eq s "PRIORITY_HIGH"
    then high
    else if str_eq s "NORMAL" || str_eq s "PRIORITY_NORMAL"
    then normal
    else low
