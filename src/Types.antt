-- ===== src/Types.antt =====
-- internal/app/types.go and internal/app/errors.go: the records that the service stores and
-- exchanges, and its errors.
use avito_test.Prelude.{ℕ, String, ℤ, Option, List, ◌*◌}
use avito_test.Times.{Time, minute}

-- `type Role string`: any text can be converted to a role.
abbrev pub Role : Type 0
Role = String

abbrev pub role_admin : Role
role_admin = "admin"

abbrev pub role_user : Role
role_user = "user"

pub data BookingStatus : Type 0 where
  active cancelled : BookingStatus

abbrev pub slot_duration : ℕ
slot_duration = 30 * minute

pub record Claims : Type 0 where
  pub user_id : String
  pub role : Role

pub record User : Type 0 where
  pub id : String
  pub email : String
  pub role : String
  pub created_at : Option Time

pub record Room : Type 0 where
  pub id : String
  pub name : String
  pub description : Option String
  pub capacity : Option ℤ
  pub created_at : Option Time

pub record Schedule : Type 0 where
  pub id : String
  pub room_id : String
  pub days_of_week : List ℤ
  pub start_time : String
  pub end_time : String

pub record Slot : Type 0 where
  pub id : String
  pub room_id : String
  pub start : Time
  pub end : Time

pub record Booking : Type 0 where
  pub id : String
  pub slot_id : String
  pub user_id : String
  pub status : BookingStatus
  pub conference_link : Option String
  pub created_at : Option Time

-- The sentinels of errors.go; `other` is any further error, by its message.
pub data Error : Type 0 where
  not_found room_not_found slot_not_found slot_already_booked booking_not_found : Error
  forbidden schedule_exists invalid_request : Error
  other : String → Error

-- What a call ends with: a value and a nil error, an error, or a run-time panic.
pub data Result (A : Type 0) : Type 0 where
  ok : A → Result A
  err : Error → Result A
  panic : Result A
