-- ===== src/Lob/Batch/Passed.antt =====
-- What orders a session finds in its market, and what the first loop of a call over several ids comes
-- to.
use swirly.Base.{
  ℕ, suc, ◌≤◌, ◌≡◌, ◌≢◌, refl, ap, ◌∙◌, inl, inr, some, List, [], ◌∷◌, ◌++◌, map, All, arith,
  Option-cases,
}
use swirly.Fin.Order.{Order}
use swirly.Fin.Market.{Market, alloc_id, find_order}
use swirly.Fin.Market.Valid.{IsValid, Rests, find_order-Rests}
use swirly.Fin.Exec.{Exec}
use swirly.Lob.Sess.{OrderKey, find_key}
use swirly.Lob.Engine.{Engine, new_exec}
use swirly.Lob.Change.{order_by_id, deref}
use swirly.Lob.Batch.{Batch, Checked, passed, refused, add_exec}

abbrev pub order_ids : List Exec → List ℕ
order_ids xs = map (λ x. x.order_id) xs

abbrev pub Absent : ℕ → List ℕ → Type 0
Absent id [] = Unit {0}
Absent id (x ∷ xs) = (x ≢ id) × Absent id xs

abbrev pub Distinct : List ℕ → Type 0
Distinct [] = Unit {0}
Distinct (x ∷ xs) = Absent x xs × Distinct xs

-- The session of the account finds the order of this id in the market.
abbrev pub Found : Engine → ℕ → ℕ → Type 0
Found e accnt id = (o : Order) × (order_by_id e accnt id ≡ some o)

pub find_key-id :
    (mid id : ℕ) (ks : List OrderKey) (k : OrderKey) → find_key mid id ks ≡ some k → k.id ≡ id
unfolding find_key
find_key-id mid id [] k e = absurd (cc)
find_key-id mid id (x ∷ ks) k e = ground (arith, find_key-id mid id ks k)

deref-id :
    (e : Engine) (mid id : ℕ) (ks : List OrderKey) (o : Order)
    → IsValid e.market
    → deref e (find_key mid id ks) ≡ some o
    → (o.id ≡ id) × Rests e.market o
unfolding deref
deref-id e mid id ks o v h = elim (Option-cases (find_key mid id ks)) [
  | inl absent ↦ absurd (ground (arith, h, absent))
  | inr (k, found) ↦
      let at : find_order e.market k.id ≡ some o = ground (arith, h, found) in
      let (own, rests) = find_order-Rests e.market k.id o v at in
      (own ∙ find_key-id mid id ks k found, rests)
]

pub order_by_id-Rests :
    (e : Engine) (accnt id : ℕ) (o : Order)
    → IsValid e.market
    → order_by_id e accnt id ≡ some o
    → (o.id ≡ id) × Rests e.market o
unfolding order_by_id
order_by_id-Rests e accnt id o v h = deref-id e e.market.id id _ o v h

-- The market of a batch is that of the call with some ids more.
abbrev pub Grown : Engine → Market → Type 0
Grown e m = (n : ℕ) × (e.market.max_id ≤ n) × (m ≡ record e.market { max_id = n })

pub Grown-add_exec :
    (change : Exec → Exec) (now : ℕ) (e : Engine) (o : Order) (b : Batch)
    → Grown e b.market
    → Grown e (add_exec change now o b).market
unfolding add_exec alloc_id
Grown-add_exec change now e o b (n, le, eq) = (suc n, omega arith, rw eq refl)

pub add_exec-execs :
    (change : Exec → Exec) (now : ℕ) (o : Order) (b : Batch)
    → ((x : Exec) → (change x).order_id ≡ x.order_id)
    → order_ids (add_exec change now o b).execs ≡ order_ids b.execs ++ o.id ∷ []
unfolding add_exec new_exec
add_exec-execs change now o b same = go b.execs
  where
    x : Exec
    x = change (new_exec o (alloc_id b.market).0 now)

    go : (xs : List Exec) → order_ids (xs ++ x ∷ []) ≡ order_ids xs ++ o.id ∷ []
    go [] = ap (λ i. i ∷ []) (same _)
    go (y ∷ ys) = ap (λ t. y.order_id ∷ t) (go ys)

-- What the first loop comes to.
abbrev pub CheckedOk : Engine → ℕ → List ℕ → List ℕ → Checked → Type 0
CheckedOk e accnt before ids (refused x b) = Grown e b.market
CheckedOk e accnt before ids (passed b) =
    Grown e b.market × (order_ids b.execs ≡ before ++ ids) × All (Found e accnt) ids
