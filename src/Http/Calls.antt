-- ===== src/Http/Calls.antt =====
-- A handler's call of the store, by how the call ends.
use avito_test.Prelude.{◌≡◌, ap}
use avito_test.Types.{Error, Result, ok, err, panic}
use avito_test.Store.{Store}
use avito_test.Cache.{SlotsCache}
use avito_test.Http.{Server, Reply, crash, Handler, resume, with_store}

module _ (S : Store) (C : SlotsCache) {A : Type 0} (call : S.State → Result A × S.State)
    (fail : Error → Reply) (k : A → Handler S C) (srv : Server S C) where
  -- The server after the call.
  abbrev pub after : Server S C
  after = record srv { store = (call srv.store).1 }

  pub with_store-ok :
      (a : A) → (call srv.store).0 ≡ ok a → with_store S C call fail k srv ≡ k a after
  with_store-ok a e = ap (λ (r : Result A). resume S C r fail k after) e

  pub with_store-err :
      (x : Error) → (call srv.store).0 ≡ err x → with_store S C call fail k srv ≡ (fail x, after)
  with_store-err x e = ap (λ (r : Result A). resume S C r fail k after) e

  pub with_store-panic :
      (call srv.store).0 ≡ panic → with_store S C call fail k srv ≡ (crash, after)
  with_store-panic e = ap (λ (r : Result A). resume S C r fail k after) e
