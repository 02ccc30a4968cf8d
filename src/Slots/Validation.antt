-- ===== src/Slots/Validation.antt =====
-- Which schedules `ValidateSchedule` accepts.
use avito_test.Prelude.{
  ℕ, suc, ◌+◌, ◌-◌, ◌*◌, ◌/◌, ◌≤◌, ◌≡◌, ◌≢◌, ◌↔◌, refl, inl, inr, some, none, List, [], ◌∷◌, arith,
  false, ℤ, pos, negsuc, eqb_ℤ, any, All, Option-cases, String,
}
use avito_test.Types.{Schedule, Error, invalid_request}
use avito_test.Slots.{parse_hm, is_empty, rejects_days, check_window, validate_schedule}

-- Monday = 1, …, Sunday = 7
abbrev pub IsWeekDay : ℤ → Type 0
IsWeekDay d = (n : ℕ) × (d ≡ pos n) × (1 ≤ n) × (n ≤ 7)

abbrev pub AllDistinct : List ℤ → Type 0
AllDistinct [] = Unit
AllDistinct (d ∷ days) = All (λ e. e ≢ d) days × AllDistinct days

-- A schedule for a room, with days of the week that are listed once each, and with readable times
-- that some number of whole half hours, and at least one, lies between.
pub record IsValid (s : Schedule) : Type 0 where
  pub in_room : s.room_id ≢ ""
  pub has_day : s.days_of_week ≢ []
  pub in_week : All IsWeekDay s.days_of_week
  pub distinct : AllDistinct s.days_of_week
  pub sh : ℕ
  pub sm : ℕ
  pub eh : ℕ
  pub em : ℕ
  pub starts : parse_hm s.start_time ≡ some (sh, sm)
  pub ends : parse_hm s.end_time ≡ some (eh, em)
  pub half_hours : ℕ
  pub whole : eh * 60 + em ≡ sh * 60 + sm + suc half_hours * 30

abbrev Unseen : List ℤ → ℤ → Type 0
Unseen seen d = any (eqb_ℤ d) seen ≡ false

ne_of_eqb_ℤ : (d e : ℤ) → eqb_ℤ d e ≡ false → d ≢ e
ne_of_eqb_ℤ (pos a) (pos b) h = ground arith
ne_of_eqb_ℤ (pos a) (negsuc b) h = ground arith
ne_of_eqb_ℤ (negsuc a) (pos b) h = ground arith
ne_of_eqb_ℤ (negsuc a) (negsuc b) h = ground arith

eqb_ℤ_of_ne : (d e : ℤ) → d ≢ e → eqb_ℤ d e ≡ false
eqb_ℤ_of_ne (pos a) (pos b) h = ground arith
eqb_ℤ_of_ne (pos a) (negsuc b) h = ground arith
eqb_ℤ_of_ne (negsuc a) (pos b) h = ground arith
eqb_ℤ_of_ne (negsuc a) (negsuc b) h = ground arith

All-Unseen-cons :
    (d : ℤ) (seen days : List ℤ)
    → All (Unseen (d ∷ seen)) days
    → All (λ e. e ≢ d) days × All (Unseen seen) days
All-Unseen-cons d seen [] _ = (tt, tt)
All-Unseen-cons d seen (e ∷ days) (h, hs) =
    let (p, q) = All-Unseen-cons d seen days hs in
    ((ne_of_eqb_ℤ e d (ground arith), p), (ground arith, q))

All-Unseen-join :
    (d : ℤ) (seen days : List ℤ)
    → All (λ e. e ≢ d) days
    → All (Unseen seen) days
    → All (Unseen (d ∷ seen)) days
All-Unseen-join d seen [] _ _ = tt
All-Unseen-join d seen (e ∷ days) (h, hs) (k, ks) =
    (ground (arith, eqb_ℤ_of_ne e d h), All-Unseen-join d seen days hs ks)

rejects_days_sound :
    (seen days : List ℤ)
    → rejects_days seen days ≡ false
    → All IsWeekDay days × AllDistinct days × All (Unseen seen) days
unfolding rejects_days
rejects_days_sound seen [] h = (tt, tt, tt)
rejects_days_sound seen (pos n ∷ days) h =
    let (w, u, s) = rejects_days_sound (pos n ∷ seen) days (ground arith) in
    let (p, q) = All-Unseen-cons (pos n) seen days s in
    (((n, refl, ground arith, ground arith), w), (p, u), (ground arith, q))
rejects_days_sound seen (negsuc n ∷ days) h = ground arith

rejects_days_complete :
    (seen days : List ℤ)
    → All IsWeekDay days
    → AllDistinct days
    → All (Unseen seen) days
    → rejects_days seen days ≡ false
unfolding rejects_days
rejects_days_complete seen [] _ _ _ = refl
rejects_days_complete seen (d ∷ days) ((n, e, lo, hi), w) (p, u) (k, ks) =
    ground (arith, rejects_days_complete (d ∷ seen) days w u (All-Unseen-join d seen days p ks))

Unseen-nil : (days : List ℤ) → All (Unseen []) days
Unseen-nil [] = tt
Unseen-nil (d ∷ days) = (refl, Unseen-nil days)

check_window_sound : (a b : ℕ) → check_window a b ≡ none → b ≡ a + suc ((b - a) / 30 - 1) * 30
unfolding check_window
check_window_sound a b h = ground arith

check_window_complete : (a b n : ℕ) → b ≡ a + suc n * 30 → check_window a b ≡ none
unfolding check_window
check_window_complete a b n h = ground arith

not-parse_hm-empty : parse_hm "" ≡ none
unfolding parse_hm
not-parse_hm-empty = refl

is_empty_sound : {A : Type 0} (xs : List A) → is_empty xs ≡ false → xs ≢ []
is_empty_sound [] h = cc
is_empty_sound (x ∷ xs) h = cc

is_empty_complete : {A : Type 0} (xs : List A) → xs ≢ [] → is_empty xs ≡ false
is_empty_complete [] h = absurd (h refl)
is_empty_complete (x ∷ xs) h = refl

module _ (s : Schedule) where
  -- What the code has established when no check has failed.
  accepted :
      validate_schedule s ≡ none
      → (s.room_id ≢ "")
        × (is_empty s.days_of_week ≡ false)
        × (rejects_days [] s.days_of_week ≡ false)
        × ((st : ℕ × ℕ) × (en : ℕ × ℕ) × (parse_hm s.start_time ≡ some st)
            × (parse_hm s.end_time ≡ some en)
            × (check_window (st.0 * 60 + st.1) (en.0 * 60 + en.1) ≡ none))
  unfolding validate_schedule
  accepted e = elim (Option-cases (parse_hm s.start_time)) [
    | inl a ↦ ground arith
    | inr ((sh, sm), a) ↦ elim (Option-cases (parse_hm s.end_time)) [
      | inl b ↦ ground arith
      | inr ((eh, em), b) ↦
          (ground arith, ground arith, ground arith, ((sh, sm), (eh, em), a, b, ground arith))
    ]
  ]

  sound : validate_schedule s ≡ none → IsValid s
  sound e =
      let (room, days, fine, (st, en, a, b, w)) = accepted e in
      let (week, distinct, _) = rejects_days_sound [] s.days_of_week fine in
      record {
        in_room = room;
        has_day = is_empty_sound s.days_of_week days;
        in_week = week;
        distinct = distinct;
        sh = st.0;
        sm = st.1;
        eh = en.0;
        em = en.1;
        starts = a;
        ends = b;
        half_hours = (en.0 * 60 + en.1 - (st.0 * 60 + st.1)) / 30 - 1;
        whole = check_window_sound (st.0 * 60 + st.1) (en.0 * 60 + en.1) w;
      }

  not-empty_of_parse_hm : (v : String) {hm : ℕ × ℕ} → parse_hm v ≡ some hm → v ≢ ""
  not-empty_of_parse_hm v p e = cc (not-parse_hm-empty)

  complete : IsValid s → validate_schedule s ≡ none
  unfolding validate_schedule
  complete v = ground (
    arith,
    not-empty_of_parse_hm s.start_time v.starts,
    not-empty_of_parse_hm s.end_time v.ends,
    is_empty_complete s.days_of_week v.has_day,
    rejects_days_complete [] s.days_of_week v.in_week v.distinct (Unseen-nil s.days_of_week),
    check_window_complete (v.sh * 60 + v.sm) (v.eh * 60 + v.em) v.half_hours v.whole,
    v.starts,
    v.ends,
    v.in_room,
  )

-- Every error of ValidateSchedule is ErrInvalidRequest.
pub validate_schedule-error :
    (s : Schedule) {e : Error}
    → validate_schedule s ≡ some e
    → validate_schedule s ≡ some invalid_request
unfolding validate_schedule
validate_schedule-error s h = elim (Option-cases (parse_hm s.start_time)) [
  | inl a ↦ ground arith
  | inr ((sh, sm), a) ↦ elim (Option-cases (parse_hm s.end_time)) [
    | inl b ↦ ground arith
    | inr ((eh, em), b) ↦ ground arith
  ]
]

-- ValidateSchedule returns a nil error exactly for a schedule that names a room, lists at least one
-- day, lists only days 1 to 7 and none of them twice, and has readable start and end times whose
-- distance is a positive whole number of half hours.
pub validate_schedule_iff : (s : Schedule) → (validate_schedule s ≡ none) ↔ IsValid s
validate_schedule_iff s = (sound s, complete s)
