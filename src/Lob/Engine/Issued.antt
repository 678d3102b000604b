-- ===== src/Lob/Engine/Issued.antt =====
-- The ids of the executions that a match issues.
use swirly.Base.{
  ℕ, zero, suc, ◌+◌, ◌≡◌, refl, ap, ◌∙◌, List, [], ◌∷◌, ◌++◌, map, arith, inl, inr, Bool-cases,
}
use swirly.Base.Int.{pos, ltb_ℤ, ◌==ℤ◌}
use swirly.Fin.Types.{Direct}
use swirly.Fin.Order.{Order}
use swirly.Fin.Market.{Market}
use swirly.Fin.Exec.{Exec}
use swirly.Fin.Exec
use swirly.Lob.Sess.{Sess}
use swirly.Lob.Response.{Response}
use swirly.Lob.Engine.{
  Matching, new_exec, new_match, match_one, match_loop, match_orders, direct_of, maker_side, spread,
}

-- The `n` ids that a market gives after `k`.
abbrev pub count_up : ℕ → ℕ → List ℕ
count_up k zero = []
count_up k (suc n) = (k + 1) ∷ count_up (k + 1) n

abbrev pub ids : List Exec → List ℕ
ids = map (λ e. e.id)

ids-append : (xs ys : List Exec) → ids (xs ++ ys) ≡ ids xs ++ ids ys
ids-append [] ys = refl
ids-append (x ∷ xs) ys = ap (λ t. x.id ∷ t) (ids-append xs ys)

join {ℓ} : {A : Type ℓ} (xs ys zs : List A) → (xs ++ ys) ++ zs ≡ xs ++ (ys ++ zs)
join [] ys zs = refl
join (x ∷ xs) ys zs = ap (λ t. x ∷ t) (join xs ys zs)

no_more {ℓ} : {A : Type ℓ} (xs : List A) → xs ≡ xs ++ []
no_more [] = refl
no_more (x ∷ xs) = ap (λ t. x ∷ t) (no_more xs)

-- What a matching has issued since another: ids that follow each other.
abbrev pub Issues : Matching → Matching → Type 0
Issues st st' =
    (n : ℕ) × (st'.max_id ≡ st.max_id + n) × (ids st'.execs ≡ ids st.execs ++ count_up st.max_id n)

two : (k : ℕ) → k + 2 ≡ k + 1 + 1
two k = omega arith

match_one-Issues :
    (m : Market) (accnt : ℕ) (taker : Order) (now : ℕ) (maker : Order) (st : Matching)
    → ((match_one m accnt taker now maker st).max_id ≡ st.max_id + 2)
      × (ids (match_one m accnt taker now maker st).execs ≡ ids st.execs ++ count_up st.max_id 2)
unfolding match_one new_match new_exec Exec.trade_last Exec.trade
match_one-Issues m accnt taker now maker st = (
  refl,
  ids-append st.execs _ ∙ ap (λ x. ids st.execs ++ (st.max_id + 1) ∷ x ∷ []) (two st.max_id),
)

match_loop-Issues :
    (m : Market) (accnt : ℕ) (taker : Order) (direct : Direct) (now : ℕ) (os : List Order)
    (st : Matching)
    → Issues st (match_loop m accnt taker direct now os st)
unfolding match_loop
match_loop-Issues m accnt taker direct now [] st = (0, omega arith, no_more _)
match_loop-Issues m accnt taker direct now (o ∷ os) st =
    elim (Bool-cases (st.sum_lots ==ℤ taker.resd_lots)) [
      | inl filled ↦ rw filled (0, omega arith, no_more _)
      | inr wanting ↦ elim (Bool-cases (ltb_ℤ (pos 0) (spread taker o direct))) [
        | inl apart ↦ rw (wanting, apart) (0, omega arith, no_more _)
        | inr crossing ↦
            let st' = match_one m accnt taker now o st in
            let (max, one) = match_one-Issues m accnt taker now o st in
            let (n, max', more) = match_loop-Issues m accnt taker direct now os st' in
            rw (wanting, crossing)
              (
                suc (suc n),
                omega (arith, max, max'),
                more
                    ∙ ap (λ k. ids st'.execs ++ count_up k n) (max ∙ two st.max_id)
                    ∙ ap (λ t. t ++ count_up (st.max_id + 1 + 1) n) one
                    ∙ join (ids st.execs) (count_up st.max_id 2) (count_up (st.max_id + 1 + 1) n),
              )
      ]
    ]

module _ (m : Market) (accnt : ℕ) (taker : Order) (now : ℕ) (sesss : List Sess)
    (resp : Response) where
  abbrev issued : Matching
  issued = (match_orders m accnt taker now (new_exec taker m.max_id now ∷ []) sesss resp).0

  -- The ids of the executions of a new order, its own with the last id of the market and then
  -- those that match_orders adds, follow each other from that id on, and the market has allocated
  -- just these.
  pub match_orders-ids :
      (n : ℕ) × (issued.max_id ≡ m.max_id + n) × (ids issued.execs ≡ m.max_id ∷ count_up m.max_id n)
  unfolding match_orders new_exec
  match_orders-ids =
      match_loop-Issues m accnt taker (direct_of taker.side) now (maker_side taker.side m).orders _
