-- ===== src/Http/Coherence.antt =====
-- The cached lists of slots against the store: what a handler must keep for them to stay true.
pub mod Booking
pub mod Rooms
pub mod Slots
pub mod Cancelling
pub mod Requests
use avito_test.Prelude.{
  ◌≡◌, refl, sym, ap, ◌∙◌, subst, inl, inr, Option, none, some, List, String, Memᴰ, Bool, true,
  false, if◌then◌else◌,
}
use avito_test.Types.{Slot, Error, Result, ok, err, panic}
use avito_test.Store.{Store}
use avito_test.Cache.{SlotsCache}
use avito_test.Cache.Contract.{IsSlotsCache}
use avito_test.Contract.{Form, View, Reserved, IsBookingStore}
use avito_test.Http.{Server, Reply, crash, Handler, resume, with_store}

-- The view keeps its slots, and no slot becomes reserved.
pub record Calmer (v v' : View) : Type 0 where
  pub slots : (k : String) (s : Slot) → v.slots k ≡ some s → v'.slots k ≡ some s
  pub reserved : (id : String) → Reserved v' id → Reserved v id

pub Calmer-same : (v v' : View) → v' ≡ v → Calmer v v'
Calmer-same v v' same = record {
  slots = λ k s at. ap (λ w. w.slots k) same ∙ at;
  reserved = λ id taken. subst (λ w. Reserved w id) same taken;
}

-- A slot that may be offered in the room: it is stored, is the room's, and is not reserved.
abbrev pub IsFree : View → (room_id : String) → Slot → Type 0
IsFree v room_id t = (v.slots t.id ≡ some t) × (t.room_id ≡ room_id) × (¬ Reserved v t.id)

abbrev pub AllFree : View → (room_id : String) → List Slot → Type 0
AllFree v room_id slots = (t : Slot) → Memᴰ t slots → IsFree v room_id t

pub AllFree-Calmer :
    (v v' : View) (room_id : String) (slots : List Slot)
    → Calmer v v'
    → AllFree v room_id slots
    → AllFree v' room_id slots
AllFree-Calmer v v' room_id slots calm free t m =
    let (at, room, vacant) = free t m in
    (calm.slots t.id t at, room, λ taken. vacant (calm.reserved t.id taken))

-- What holds of the value of a call that ends well.
abbrev pub Says : {A : Type 0} → (A → Type 0) → Result A → Type 0
Says P (ok a) = P a
Says P (err e) = Unit {0}
Says P panic = Unit {0}

abbrev pub Anything : {A : Type 0} → A → View → Type 0
Anything a v = Unit {0}

pub Says-Anything : {A : Type 0} (v : View) (r : Result A) → Says (λ a. Anything a v) r
Says-Anything v (ok a) = tt
Says-Anything v (err e) = tt
Says-Anything v panic = tt

module _ (S : Store) (C : SlotsCache) {form : Form} {Inv : S.State → Type 0} {view : S.State → View}
    (spec : IsBookingStore form S Inv view)
    {Holds : C.State → (room_id date : String) → List Slot → Type 0}
    (cache : IsSlotsCache C Holds) where
  -- Every list that the cache may answer is of slots that may be offered.
  abbrev pub IsSound : View → C.State → Type 0
  IsSound v c =
      (room_id date : String) (slots : List Slot)
      → Holds c room_id date slots
      → AllFree v room_id slots

  abbrev pub Good : Server S C → Type 0
  Good srv = Inv srv.store × IsSound (view srv.store) srv.cache

  abbrev pub Keeps : Handler S C → Type 0
  Keeps h = (srv : Server S C) → Good srv → Good (h srv).1

  -- A call after which no slot is newly reserved, and what it answers.
  abbrev pub Calls : {A : Type 0} → (A → View → Type 0) → (S.State → Result A × S.State) → Type 0
  Calls Post call =
      (st : S.State)
      → Inv st
      → Inv (call st).1
        × Calmer (view st) (view (call st).1)
        × Says (λ a. Post a (view (call st).1)) (call st).0

  pub quiet :
      {A : Type 0} (call : S.State → Result A × S.State)
      → ((st : S.State) → Inv st → Inv (call st).1 × (view (call st).1 ≡ view st))
      → Calls Anything call
  quiet call same st inv =
      let (inv', e) = same st inv in
      (
        inv',
        Calmer-same (view st) (view (call st).1) e,
        Says-Anything (view (call st).1) (call st).0,
      )

  -- What the rest of a handler makes of a good server, the handler makes of one.
  pub after-Good :
      {A : Type 0} (call : S.State → Result A × S.State) (rest : Result A → Handler S C)
      (Post : A → View → Type 0) (Q : Reply × Server S C → Type 0)
      → Calls Post call
      → ((r : Result A) (srv : Server S C)
          → Says (λ a. Post a (view srv.store)) r
          → Good srv
          → Q (rest r srv))
      → (srv : Server S C) → Good srv
      → Q (rest (call srv.store).0 (record srv { store = (call srv.store).1 }))
  after-Good call rest Post Q made next srv (inv, sound) =
      let (inv', calm, says) = made srv.store inv in
      next (call srv.store).0 (record srv { store = (call srv.store).1 }) says
        (
          inv',
          λ room_id date slots held.
              AllFree-Calmer (view srv.store) (view (call srv.store).1) room_id slots calm
                (sound room_id date slots held),
        )

  pub with_store-Good :
      {A : Type 0} (call : S.State → Result A × S.State) (fail : Error → Reply)
      (k : A → Handler S C) (Post : A → View → Type 0) (Q : Reply × Server S C → Type 0)
      → Calls Post call
      → ((e : Error) (srv : Server S C) → Good srv → Q (fail e, srv))
      → ((srv : Server S C) → Good srv → Q (crash, srv))
      → ((a : A) (srv : Server S C) → Post a (view srv.store) → Good srv → Q (k a srv))
      → (srv : Server S C) → Good srv
      → Q (with_store S C call fail k srv)
  with_store-Good {A} call fail k Post Q made failed crashed next =
      after-Good call (λ r. resume S C r fail k) Post Q made answered
    where
      answered :
          (r : Result A) (srv : Server S C)
          → Says (λ a. Post a (view srv.store)) r
          → Good srv
          → Q (resume S C r fail k srv)
      answered (ok a) srv says good = next a srv says good
      answered (err e) srv says good = failed e srv good
      answered panic srv says good = crashed srv good

  pub with_store-Keeps :
      {A : Type 0} (call : S.State → Result A × S.State) (fail : Error → Reply)
      (k : A → Handler S C) (Post : A → View → Type 0)
      → Calls Post call
      → ((a : A) (srv : Server S C) → Post a (view srv.store) → Good srv → Good (k a srv).1)
      → Keeps (with_store S C call fail k)
  with_store-Keeps call fail k Post made next =
      with_store-Good call fail k Post (λ end. Good end.1) made (λ e srv good. good)
        (λ srv good. good) next

  pub guard-Keeps :
      (t : Bool) (r : Reply) (h : Handler S C)
      → Keeps h
      → Keeps (λ srv. if t then (r, srv) else h srv)
  guard-Keeps true r h keeps = λ srv good. good
  guard-Keeps false r h keeps = keeps

  -- A call of the cache after which it may answer no more than before.
  pub invalidate-Good :
      (room_id : String) (srv : Server S C)
      → Good srv
      → Good (record srv { cache = (C.invalidate_room room_id srv.cache).1 })
  invalidate-Good room_id srv (inv, sound) = (
    inv,
    λ room date slots held.
        sound room date slots (cache.invalidate_keeps room_id srv.cache room date slots held),
  )
