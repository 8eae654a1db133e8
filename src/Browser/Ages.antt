-- ===== src/Browser/Ages.antt =====
-- crates/core/src/browser.rs: the ages and running times that the sidebar shows. A duration is its
-- seconds.
use termherd.Prelude.{ℕ, ◌/◌, ◌%◌, ◌*◌, ◌++◌, ltb, ◌==◌, if◌then◌else◌}
use termherd.Text.{Text}
use termherd.Text.Ascii.{codes}
use termherd.Text.Numbers.{decimal}

abbrev pub minute : ℕ
minute = 60

abbrev pub hour : ℕ
hour = 60 * minute

abbrev pub day : ℕ
day = 24 * hour

abbrev pub week : ℕ
week = 7 * day

abbrev pub year : ℕ
year = 365 * day

unfoldable pub relative_age : ℕ → Text
relative_age secs =
    if ltb secs minute
    then codes "now"
    else if ltb secs hour
    then decimal (secs / minute) ++ codes "m"
    else if ltb secs day
    then decimal (secs / hour) ++ codes "h"
    else if ltb secs week
    then decimal (secs / day) ++ codes "d"
    else if ltb secs year
    then decimal (secs / week) ++ codes "w"
    else decimal (secs / year) ++ codes "y"

abbrev pub two_units : ℕ → Text → ℕ → Text → Text
two_units big big_unit small small_unit =
    if small == 0
    then decimal big ++ big_unit
    else decimal big ++ big_unit ++ codes " " ++ decimal small ++ small_unit

unfoldable pub compact_elapsed : ℕ → Text
compact_elapsed secs =
    if ltb secs minute
    then codes "<1m"
    else if ltb secs hour
    then decimal (secs / minute) ++ codes "m"
    else if ltb secs day
    then two_units (secs / hour) (codes "h") (secs % hour / minute) (codes "m")
    else two_units (secs / day) (codes "d") (secs % day / hour) (codes "h")
