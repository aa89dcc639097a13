-- ===== src/Postgres/Pages.antt =====
-- The pages of GetInternalEvents.
use gqueue.Common.{
  ℕ, zero, suc, ◌+◌, ◌-◌, ◌^◌, ◌≤◌, ◌<◌, String, List, [], ◌∷◌, ◌++◌, map, length, length-map, Try,
  ok, ◌≡◌, refl, ◌∙◌, ap, arith,
}
use gqueue.Event.{Event}
use gqueue.Postgres.{Row, to_domain}
use gqueue.Postgres.Filtered.{
  FilterEvents, sql_filter, select_text, internal_events_text, get_internal_events, after_query,
  offset_of,
}

abbrev pub take : {A : Type 0} → ℕ → List A → List A
take zero xs = []
take (suc n) [] = []
take (suc n) (x ∷ xs) = x ∷ take n xs

abbrev pub drop : {A : Type 0} → ℕ → List A → List A
drop zero xs = xs
drop (suc n) [] = []
drop (suc n) (x ∷ xs) = drop n xs

abbrev pub tail : {A : Type 0} → List A → List A
tail [] = []
tail (x ∷ xs) = xs

take-suc :
    {A : Type 0} (l : ℕ) (xs : List A)
    → (more : List A) × (take (suc l) xs ≡ take l xs ++ more) × (length more ≤ 1)
take-suc zero [] = ([], refl, omega arith)
take-suc zero (x ∷ xs) = (x ∷ [], refl, omega arith)
take-suc (suc l) [] = ([], refl, omega arith)
take-suc (suc l) (x ∷ xs) = let (more, e, b) = take-suc l xs in (more, ap (λ ys. x ∷ ys) e, b)

-- The window behind a window: all of it but the first, and at most one more.
take-drop-suc :
    {A : Type 0} (l o : ℕ) (xs : List A)
    → (more : List A) × (take (suc l) (drop (suc o) xs) ≡ tail (take (suc l) (drop o xs)) ++ more)
      × (length more ≤ 1)
take-drop-suc l (suc o) [] = ([], refl, omega arith)
take-drop-suc l (suc o) (x ∷ xs) = take-drop-suc l o xs
take-drop-suc l zero [] = ([], refl, omega arith)
take-drop-suc l zero (x ∷ xs) = take-suc l xs

map-append : {A B : Type 0} (f : A → B) (xs ys : List A) → map f (xs ++ ys) ≡ map f xs ++ map f ys
map-append f [] ys = refl
map-append f (x ∷ xs) ys = ap (λ zs. f x ∷ zs) (map-append f xs ys)

map-tail : {A B : Type 0} (f : A → B) (xs : List A) → map f (tail xs) ≡ tail (map f xs)
map-tail f [] = refl
map-tail f (x ∷ xs) = refl

-- PostgreSQL's LIMIT and OFFSET, over the rows that a filter's condition selects, in one order.
abbrev pub Window : (String → Try (List Row)) → FilterEvents → List Row → ℕ → Type 0
Window db filters rows offset =
    db (select_text (sql_filter filters) filters.limit offset)
    ≡ ok (take filters.limit (drop offset rows))

-- The next page of a filter
abbrev pub next_page : FilterEvents → FilterEvents
next_page filters = record filters { page = filters.page + 1 }

get_internal_events-text :
    (db : String → Try (List Row)) (filters : FilterEvents) (offset : ℕ)
    → offset_of filters.page ≡ offset
    → get_internal_events db filters
      ≡ after_query (db (select_text (sql_filter filters) filters.limit offset))
unfolding get_internal_events internal_events_text
get_internal_events-text db filters offset h =
    ap (λ o. after_query (db (select_text (sql_filter filters) filters.limit o))) h

take-tail :
    (l o : ℕ) (rows : List Row)
    → 0 < l
    → (more : List Row) × (take l (drop (suc o) rows) ≡ tail (take l (drop o rows)) ++ more)
      × (length more ≤ 1)
take-tail zero o rows h = absurd (omega (arith, h))
take-tail (suc l) o rows h = take-drop-suc l o rows

-- Where the database answers two windows over one order of the rows that the filter selects, at the
-- page's number less one and at the page's number, the page behind the page has all its events but
-- the first, and at most one other; the limit is not zero, and the page is not the last of a uint64.
pub get_internal_events-next_page :
    (db : String → Try (List Row)) (filters : FilterEvents) (rows : List Row)
    → Window db filters rows (filters.page - 1)
    → Window db filters rows filters.page
    → 0 < filters.limit
    → 0 < filters.page
    → filters.page < 2 ^ 64 - 1
    → (events more : List Event) × (get_internal_events db filters ≡ ok events)
      × (get_internal_events db (next_page filters) ≡ ok (tail events ++ more))
      × (length more ≤ 1)
unfolding sql_filter
get_internal_events-next_page db filters rows first second h k b =
    let shown = take filters.limit (drop (filters.page - 1) rows) in
    let (more, e, few) = take-tail filters.limit (filters.page - 1) rows h in
    (
      map to_domain shown,
      map to_domain more,
      get_internal_events-text db filters (filters.page - 1) (omega (arith, k, b))
          ∙ ap after_query first,
      get_internal_events-text db (next_page filters) filters.page (omega (arith, k, b))
          ∙ ap after_query second
          ∙ ap (λ o. ok (map to_domain (take filters.limit (drop o rows))))
              {y = suc (filters.page - 1)} (omega (arith, k))
          ∙ ap (λ rs. ok (map to_domain rs)) e
          ∙ ap ok (
              map-append to_domain (tail shown) more
              ∙ ap (λ es. es ++ map to_domain more) (map-tail to_domain shown)),
      omega (arith, few, length-map to_domain more),
    )
