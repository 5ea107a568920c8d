-- ===== src/Placement/Place/Answer.antt =====
-- What `Place` answers.
use oai_k8s.Common.{
  ℕ, suc, ◌≢◌, ◌≡◌, refl, ap, sym, Option, none, some, Error, List, [], ◌∷◌, Bool, true, false,
}
use oai_k8s.Common.{Result, ok, err, panic, hang, out_of_fuel, with_context}
use oai_k8s.Extern.{Platform}
use oai_k8s.Api.{ChainPosition}
use oai_k8s.Placement.State.{Graph, PlacementBfs, Orders}
use oai_k8s.Placement.Place.{
  returned, allocate_rus_resources, place_ru, proceed, place_rus, begin, place,
}

-- What answers false does so with an error, where it is not the plain false.
pub returned-err :
    (r : Result Bool)
    → r ≢ ok false
    → (e : Option Error) → returned r ≡ some (false, e)
    → (x : Error) × (e ≡ some x)
unfolding returned
returned-err (ok true) n e h =
    let b : ◌≡◌ {A = Bool × Option Error} (true, none) (false, e) = cc in
    let bad : true ≡ false = ap (λ z. z.0) b in cc
returned-err (ok false) n e h = absurd (n refl)
returned-err (err x) n e h = (
  x,
  let b : ◌≡◌ {A = Bool × Option Error} (false, some x) (false, e) = cc in sym (ap (λ z. z.1) b),
)
returned-err panic n e h = cc
returned-err hang n e h = cc
returned-err out_of_fuel n e h = cc

module _ (P : Platform) (p : PlacementBfs P.Float P.Quantity) (orders : Orders) where
  open P use {Float, Quantity}

  proceed-ne-false :
      (next : Graph Float Quantity → Result Bool × Graph Float Quantity × List ChainPosition)
      (rest : List ChainPosition) (x : Result (Unit {0}) × Graph Float Quantity × ChainPosition)
      → ((g : Graph Float Quantity) → (next g).0 ≢ ok false)
      → (proceed P next rest x).0 ≢ ok false
  unfolding proceed
  proceed-ne-false next rest (ok u, g, ru) n h = n g h
  proceed-ne-false next rest (err e, g, ru) n h = cc
  proceed-ne-false next rest (panic, g, ru) n h = cc
  proceed-ne-false next rest (hang, g, ru) n h = cc
  proceed-ne-false next rest (out_of_fuel, g, ru) n h = cc

  begin-ne-false :
      (next : Graph Float Quantity → Result Bool × Graph Float Quantity × List ChainPosition)
      (rus : List ChainPosition) (x : Result (Unit {0}) × Graph Float Quantity)
      → ((g : Graph Float Quantity) → (next g).0 ≢ ok false)
      → (begin P next rus x).0 ≢ ok false
  unfolding begin
  begin-ne-false next rus (ok u, g) n h = n g h
  begin-ne-false next rus (err e, g) n h = cc
  begin-ne-false next rus (panic, g) n h = cc
  begin-ne-false next rus (hang, g) n h = cc
  begin-ne-false next rus (out_of_fuel, g) n h = cc

  place_rus-ne-false :
      (i : ℕ) (rus : List ChainPosition) (g : Graph Float Quantity)
      → (place_rus P p orders i rus g).0 ≢ ok false
  unfolding place_rus
  place_rus-ne-false i [] g = λ h. cc
  place_rus-ne-false i (ru ∷ rest) g =
      proceed-ne-false (place_rus P p orders (suc i) rest) rest (place_ru P p orders i ru g)
        (place_rus-ne-false (suc i) rest)

  -- `Place` never answers false without an error.
  pub place-ne-false : (rus : List ChainPosition) → (place P p orders rus).0 ≢ ok false
  unfolding place
  place-ne-false rus =
      begin-ne-false (place_rus P p orders 0 rus) rus
        (with_context "validation of RU placement failed"
          (allocate_rus_resources P p.requested_resources rus) p.graph)
        (place_rus-ne-false 0 rus)
