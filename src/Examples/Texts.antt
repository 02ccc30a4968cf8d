-- ===== src/Examples/Texts.antt =====
-- The array of the days of a schedule, written and read.
use avito_test.Prelude.{◌≡◌, List, [], ◌∷◌, ℤ, pos, arith, All}
use avito_test.Types.{ok, err, other}
use avito_test.Strconv.RoundTrip.{IsInt}
use avito_test.Times.Clock.{codes}
use avito_test.Postgres.Arrays.{bytes, go_string, int_array_value, int_array_scan}
use avito_test.Postgres.Arrays.RoundTrip.{int_array_scan-value}

abbrev workdays : List ℤ
workdays = pos 1 ∷ pos 3 ∷ pos 5 ∷ []

workdays-IsInt : All IsInt workdays
workdays-IsInt = (omega arith, (omega arith, (omega arith, tt)))

int_array_scan-value_example :
    (int_array_scan (bytes (codes (int_array_value workdays))) ≡ ok workdays)
    × (int_array_scan (go_string (int_array_value workdays))
        ≡ err (other "unexpected type: string"))
int_array_scan-value_example = int_array_scan-value workdays workdays-IsInt
