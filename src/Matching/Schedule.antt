-- ===== src/Matching/Schedule.antt =====
-- Working hours as texts: `parseWorkingSchedule` of src/driver/request-eligibility.ts reads them from
-- a JSON column. Texts are compared by their code points.
use Prim.Native.String.{String, compare}
use text.Mathlib.Text.{◌==◌ as str_eq, is_le, is_lt}
use transpo24_backend_nest_j.Base.{
  Bool, ◌&&◌, Option, none, some, List, [], ◌∷◌, ◌++◌, any, if◌then◌else◌,
}

-- A JSON value, as far as the code tells values apart.
mutual
  pub data Json : Type 0 where
    null : Json
    bool : Bool → Json
    number : Json
    string : String → Json
    array : JsonItems → Json
    object : JsonFields → Json

  pub data JsonItems : Type 0 where
    nil : JsonItems
    cons : Json → JsonItems → JsonItems

  pub data JsonFields : Type 0 where
    end : JsonFields
    field : String → Json → JsonFields → JsonFields

unfoldable pub same_text : String → String → Bool
same_text a b = str_eq a b

-- A property of an object; a key appears once.
unfoldable pub get_field : String → JsonFields → Option Json
unfolding same_text
get_field key end = none
get_field key (field name value rest) =
    if same_text name key then some value else get_field key rest

pub record TimeRange : Type 0 where
  pub start_time : String
  pub end_time : String

pub record WorkingDay : Type 0 where
  pub day_of_week : String
  pub is_available : Bool
  pub time_ranges : List TimeRange

abbrev range_of : Option Json → Option Json → List TimeRange
range_of (some (string start)) (some (string finish)) =
    record { start_time = start; end_time = finish } ∷ []
range_of _ _ = []

unfoldable pub parse_range : Json → List TimeRange
unfolding get_field
parse_range (object fields) = range_of (get_field "startTime" fields) (get_field "endTime" fields)
parse_range _ = []

unfoldable pub parse_ranges : JsonItems → List TimeRange
unfolding parse_range
parse_ranges nil = []
parse_ranges (cons item rest) = parse_range item ++ parse_ranges rest

abbrev day_of : Option Json → Option Json → Option Json → List WorkingDay
unfolding parse_ranges
day_of (some (string day)) (some (bool available)) (some (array items)) =
    record { day_of_week = day; is_available = available; time_ranges = parse_ranges items } ∷ []
day_of _ _ _ = []

unfoldable pub parse_entry : Json → List WorkingDay
unfolding get_field day_of
parse_entry (object fields) =
    day_of (get_field "dayOfWeek" fields) (get_field "isAvailable" fields)
      (get_field "timeRanges" fields)
parse_entry _ = []

unfoldable pub parse_entries : JsonItems → List WorkingDay
unfolding parse_entry
parse_entries nil = []
parse_entries (cons entry rest) = parse_entry entry ++ parse_entries rest

unfoldable pub parse_working_schedule : Json → List WorkingDay
unfolding parse_entries
parse_working_schedule (array items) = parse_entries items
parse_working_schedule _ = []

-- `start <= time && time < end`
unfoldable pub within : String → String → String → Bool
within start finish time = is_le (compare start time) && is_lt (compare time finish)

unfoldable pub in_ranges : String → List TimeRange → Bool
unfolding within
in_ranges time ranges = any (λ r. within r.start_time r.end_time time) ranges
