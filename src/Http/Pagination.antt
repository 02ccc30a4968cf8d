-- ===== src/Http/Pagination.antt =====
-- GET /bookings/list over the MemoryStore: which page is answered, and the panic.
use avito_test.Prelude.{
  ℕ, suc, ◌+◌, ◌*◌, ◌^◌, ◌≤◌, ◌<◌, ◌≡◌, ap, ◌∙◌, some, inl, inr, String, pos, take, drop, length,
  arith, Option-cases,
}
use avito_test.Strconv.{atoi}
use avito_test.Memory.{Env, World, list_all_bookings}
use avito_test.Memory.Tables.{IsValid}
use avito_test.Memory.Pages.{newest_first, list_all_bookings-page, dated, list_all_sorted}
use avito_test.Memory.Paging.{page_of_overflow}
use avito_test.Store.{memory_store}
use avito_test.Cache.{SlotsCache}
use avito_test.Http.{Server, Reply, crash, write_json, bookings_body}
use avito_test.Http.Calls.{with_store-ok, with_store-panic}
use avito_test.Http.Bookings.{query_int, is_page, is_page_size, list_page, handle_list_bookings}

is_page_size_sound :
    (v : String) (s : ℕ) → query_int (pos 20) is_page_size v ≡ some (pos s) → (1 ≤ s) × (s ≤ 100)
unfolding query_int
is_page_size_sound v s e = elim (Option-cases (atoi v)) [
  | inl a ↦ ground arith
  | inr (n, a) ↦ ground arith
]

module _ (env : Env) (C : SlotsCache) (page_raw size_raw : String) (p s : ℕ)
    (srv : Server (memory_store env) C) where
  abbrev answer : Reply → Server (memory_store env) C → Reply × Server (memory_store env) C
  answer r srv' = (r, srv')

  accepted :
      query_int (pos 1) is_page page_raw ≡ some (pos (suc p))
      → query_int (pos 20) is_page_size size_raw ≡ some (pos s)
      → handle_list_bookings (memory_store env) C page_raw size_raw srv
        ≡ list_page (memory_store env) C (pos (suc p)) (pos s) srv
  unfolding handle_list_bookings
  accepted hp hs = rw (hp, hs, handle_list_bookings)

  -- Where the query is read as a page and a page size and the indices of the page stay below 2^63,
  -- a well-formed store is answered by 200 with that stretch of all bookings, newest first, and
  -- their number, and nothing changes.
  pub handle_list_bookings-page :
      query_int (pos 1) is_page page_raw ≡ some (pos (suc p))
      → query_int (pos 20) is_page_size size_raw ≡ some (pos s)
      → IsValid env srv.store
      → p * s + s < 2 ^ 63
      → handle_list_bookings (memory_store env) C page_raw size_raw srv ≡ (
        write_json 200 (
            bookings_body
              (take s (drop (p * s) (newest_first srv.store)))
              (pos (suc p))
              (pos s)
              (length (newest_first srv.store))),
        srv,
      )
  handle_list_bookings-page hp hs v small =
      let size = is_page_size_sound size_raw s hs in
      let page = (list_all_bookings-page env srv.store v p s size.0 small).0 in
      accepted hp hs
      ∙ with_store-ok (memory_store env) C (list_all_bookings (pos (suc p)) (pos s)) _ _ srv _
          (ap (λ r. r.0) page)
      ∙ ap
          (λ (st : World).
            answer
              (write_json 200 (
                bookings_body (take s (drop (p * s) (newest_first srv.store))) (pos (suc p)) (pos s)
                  (length (newest_first srv.store))))
              (record srv { store = st }))
          (ap (λ r. r.1) page)

  -- Where the query is read as a page and a page size whose offset lies from 2^63 up to 2^64, the
  -- handler panics on a well-formed store.
  pub handle_list_bookings-crash :
      query_int (pos 1) is_page page_raw ≡ some (pos (suc p))
      → query_int (pos 20) is_page_size size_raw ≡ some (pos s)
      → IsValid env srv.store
      → p < 2 ^ 63
      → 2 ^ 63 ≤ p * s
      → p * s < 2 ^ 64
      → (handle_list_bookings (memory_store env) C page_raw size_raw srv).0 ≡ crash
  handle_list_bookings-crash hp hs v fits low high =
      let size = is_page_size_sound size_raw s hs in
      let panics =
        list_all_sorted srv.store (dated env srv.store _ v (λ b m. m)) (suc p) s
        ∙ ap (λ r. (r, srv.store))
            (page_of_overflow (newest_first srv.store) p s fits size.1 low high) in
      ap (λ (r : Reply × Server (memory_store env) C). r.0)
        (accepted hp hs
          ∙ with_store-panic (memory_store env) C (list_all_bookings (pos (suc p)) (pos s)) _ _ srv
              (ap (λ r. r.0) panics))
