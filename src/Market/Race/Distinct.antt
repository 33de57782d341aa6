-- ===== src/Market/Race/Distinct.antt =====
-- What the distinct keys of requests give: a count of rows with a key is about the row that is found.
use mathlib.Core.Option.{some-injective}
use fetchit_be.Base.{
  ℕ, ◌≡◌, ◌≢◌, refl, Bool, true, false, ◌==◌, ◌&&◌, eq_of_==, Option, some, none, List, [], ◌∷◌,
  All, AllPairs, find_where, any_where, count_where, Bool-cases, inl, inr, arith,
}
use fetchit_be.Schema.{ServiceRequest, is_opened}
use fetchit_be.World.{request_has}
use fetchit_be.Market.Race.Consistency.{AreDistinct}

none_counted :
    (id : ℕ) (q : ServiceRequest) (requests : List ServiceRequest)
    → q.id ≡ id
    → All (AreDistinct q) requests
    → count_where (λ r. r.id == id && is_opened r.status) requests ≡ 0
unfolding count_where
none_counted id q [] same h = refl
none_counted id q (r ∷ rs) same (p, h) = ground (arith, none_counted id q rs same h)

-- Keys are distinct: where an OPEN request with this key is counted, the one that is found is OPEN.
pub counted_opened :
    (id : ℕ) (requests : List ServiceRequest) (r : ServiceRequest)
    → AllPairs AreDistinct requests
    → find_where (request_has id) requests ≡ some r
    → count_where (λ q. q.id == id && is_opened q.status) requests ≢ 0
    → is_opened r.status ≡ true
unfolding find_where count_where
counted_opened id [] r h e counted = absurd (cc)
counted_opened id (q ∷ qs) r (p, h) e counted = elim (Bool-cases (q.id == id)) [
  | inl same ↦
      let here : q ≡ r = some-injective q r (rw same at e) in
      let rest = none_counted id q qs (eq_of_== q.id id same) p in ground arith
  | inr other ↦ counted_opened id qs r h (rw other at e) (rw other at counted)
]

abbrev pub is_some : Option ServiceRequest → Bool
is_some none = false
is_some (some r) = true

pub found_where :
    (test : ServiceRequest → Bool) (requests : List ServiceRequest)
    → any_where test requests ≡ true
    → is_some (find_where test requests) ≡ true
unfolding find_where any_where
found_where test [] h = h
found_where test (q ∷ qs) h = ground (arith, found_where test qs)
