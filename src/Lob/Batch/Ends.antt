-- ===== src/Lob/Batch/Ends.antt =====
-- The loops of the calls over several ids: over distinct ids the second finds each order that the
-- first has checked.
use swirly.Base.{
  ℕ, ◌≡◌, ◌≢◌, refl, sym, ap, ◌∙◌, inl, inr, Option, none, some, List, [], ◌∷◌, ◌++◌, ◌==◌, All,
  arith, Bool-cases, Option-cases,
}
use mathlib.Core.Path.{subst}
use swirly.Fin.Order.{Order}
use swirly.Fin.Market.{Market, find_order}
use swirly.Fin.Market.Valid.{IsValid, Rests}
use swirly.Fin.MsgQueue.Post.{append_one, append_none}
use swirly.Fin.Exec.{Exec}
use swirly.Fin.MsgQueue.{MsgQueue}
use swirly.Lob.Sess.{Sess, OrderKey, find_key}
use swirly.Lob.Engine.{Engine, Error, find_sess, with_sess, sess}
use swirly.Lob.Change.{order_by_id, deref}
use swirly.Lob.Batch.{
  Batch, Checked, passed, refused, add_exec, check_error, check_found, check_each, commit_one,
  commit_each,
}
use swirly.Lob.Batch.Action.{Action}
use swirly.Lob.Batch.Passed.{
  order_ids, Absent, Distinct, Found, find_key-id, order_by_id-Rests, Grown, Grown-add_exec,
  add_exec-execs, CheckedOk,
}

module _ (e : Engine) (accnt now : ℕ) (v : IsValid e.market) (error : Order → Option Error)
    (change : Exec → Exec) (same : (x : Exec) → (change x).order_id ≡ x.order_id) where
  extend :
      (before : List ℕ) (id : ℕ) (ids : List ℕ) (c : Checked)
      → Found e accnt id
      → CheckedOk e accnt (before ++ id ∷ []) ids c
      → CheckedOk e accnt before (id ∷ ids) c
  extend before id ids (refused x b) f ok = ok
  extend before id ids (passed b) f ok = (ok.0, ok.1 ∙ append_one before id ids, (f, ok.2))

  by_error :
      (before : List ℕ) (id : ℕ) (ids : List ℕ) (b : Batch) (o : Order) (rest : Checked)
      → (x : Option Error) → Grown e b.market
      → order_by_id e accnt id ≡ some o
      → CheckedOk e accnt (before ++ id ∷ []) ids rest
      → CheckedOk e accnt before (id ∷ ids) (check_error x b rest)
  by_error before id ids b o rest (some x) g f ok = g
  by_error before id ids b o rest none g f ok = extend before id ids rest (o, f) ok

  by_found :
      (before : List ℕ) (id : ℕ) (ids : List ℕ) (b : Batch) (found : Option Order)
      → (rest : Order → Checked) → Grown e b.market
      → order_by_id e accnt id ≡ found
      → ((o : Order) → o.id ≡ id → CheckedOk e accnt (before ++ id ∷ []) ids (rest o))
      → CheckedOk e accnt before (id ∷ ids) (check_found error b found rest)
  by_found before id ids b none rest g f ok = g
  by_found before id ids b (some o) rest g f ok =
      by_error before id ids b o (rest o) (error o) g f
        (ok o (order_by_id-Rests e accnt id o v f).0)

  pub check_each-ok :
      (ids : List ℕ) (b : Batch)
      → Grown e b.market
      → CheckedOk e accnt (order_ids b.execs) ids (check_each error change e accnt now ids b)
  unfolding check_each
  check_each-ok [] b g = (g, sym (append_none (order_ids b.execs)), tt)
  check_each-ok (id ∷ ids) b g =
      by_found (order_ids b.execs) id ids b (order_by_id e accnt id) _ g refl (λ o own.
        subst
          (λ t.
            CheckedOk e accnt t ids
              (check_each error change e accnt now ids (add_exec change now o b)))
          (add_exec-execs change now o b same ∙ ap (λ i. order_ids b.execs ++ i ∷ []) own)
          (check_each-ok ids (add_exec change now o b) (Grown-add_exec change now e o b g)))

module _ {act : Market → Order → Market × Order} {after : Order → Exec → Sess → Sess}
    (a : Action act after) (accnt : ℕ) where
  -- A round changes what is found under its own id only.
  find_key-commit :
      (max_execs mid id : ℕ) (o : Order) (x : Exec) (ss : List Sess)
      → o.id ≢ id
      → find_key mid id (sess max_execs accnt (with_sess accnt (after o x) ss)).0.orders
        ≡ find_key mid id (sess max_execs accnt ss).0.orders
  unfolding sess find_sess with_sess
  find_key-commit max_execs mid id o x [] h = refl
  find_key-commit max_execs mid id o x (s ∷ ss) h = elim (Bool-cases (s.accnt == accnt)) [
    | inl hit ↦ ground (arith, a.accnt o x s, a.keys o x s mid id h)
    | inr miss ↦ ground (arith, find_key-commit max_execs mid id o x ss h)
  ]

  deref-commit :
      (e : Engine) (x : Exec) (o : Order) (id mid : ℕ) (ks : List OrderKey)
      → IsValid e.market
      → Rests e.market o
      → o.id ≢ id
      → deref (commit_one act after e accnt x o) (find_key mid id ks) ≡ deref e (find_key mid id ks)
  unfolding commit_one deref
  deref-commit e x o id mid ks v r h = elim (Option-cases (find_key mid id ks)) [
    | inl absent ↦ rw absent
    | inr (k, found) ↦
        rw found (a.others e.market o k.id v r (λ p. h (p ∙ find_key-id mid id ks k found)))
  ]

  keys-commit :
      (e : Engine) (x : Exec) (o : Order) (id : ℕ)
      → o.id ≢ id
      → find_key
          (commit_one act after e accnt x o).market.id
          id
          (sess e.max_execs accnt (commit_one act after e accnt x o).sesss).0.orders
        ≡ find_key e.market.id id (sess e.max_execs accnt e.sesss).0.orders
  unfolding commit_one
  keys-commit e x o id h = rw (a.market_id e.market o) (
      find_key-commit e.max_execs e.market.id id (act e.market o).1 x e.sesss
        (λ p. h (sym (a.order_id e.market o) ∙ p)))

  order_by_id-commit :
      (e : Engine) (x : Exec) (o : Order) (id : ℕ)
      → IsValid e.market
      → Rests e.market o
      → o.id ≢ id
      → order_by_id (commit_one act after e accnt x o) accnt id ≡ order_by_id e accnt id
  unfolding order_by_id commit_one
  order_by_id-commit e x o id v r h =
      ap (deref (commit_one act after e accnt x o)) (keys-commit e x o id h)
      ∙ deref-commit e x o id e.market.id (sess e.max_execs accnt e.sesss).0.orders v r h

  All-commit :
      (e : Engine) (x : Exec) (o : Order) (ids : List ℕ)
      → IsValid e.market
      → Rests e.market o
      → Absent o.id ids
      → All (Found e accnt) ids
      → All (Found (commit_one act after e accnt x o) accnt) ids
  All-commit e x o [] v r h fs = tt
  All-commit e x o (id ∷ ids) v r h fs = (
    (fs.0.0, order_by_id-commit e x o id v r (λ p. h.0 (sym p)) ∙ fs.0.1),
    All-commit e x o ids v r h.1 fs.1,
  )

  commit_one-IsValid :
      (e : Engine) (x : Exec) (o : Order)
      → IsValid e.market
      → Rests e.market o
      → IsValid (commit_one act after e accnt x o).market
  unfolding commit_one
  commit_one-IsValid e x o v r = a.valid e.market o v r

  pub commit_each-ends :
      (xs : List Exec) (e : Engine)
      → IsValid e.market
      → All (Found e accnt) (order_ids xs)
      → Distinct (order_ids xs)
      → (e' : Engine) × (commit_each act after accnt xs e ≡ some e') × IsValid e'.market
  unfolding commit_each
  commit_each-ends [] e v fs d = (e, refl, v)
  commit_each-ends (x ∷ xs) e v ((o, f), fs) (d, ds) =
      let (own, rests) = order_by_id-Rests e accnt x.order_id o v f in
      let absent : Absent o.id (order_ids xs) = subst (λ i. Absent i (order_ids xs)) (sym own) d in
      rw f (
        commit_each-ends xs (commit_one act after e accnt x o) (commit_one-IsValid e x o v rests)
          (All-commit e x o (order_ids xs) v rests absent fs) ds)

-- Ids more and another queue change nothing of what the session finds.
deref-Grown :
    (e : Engine) (n : ℕ) (mq : MsgQueue) (k : Option OrderKey)
    → deref (record e { market = record e.market { max_id = n }; mq = mq }) k ≡ deref e k
unfolding deref find_order
deref-Grown e n mq none = refl
deref-Grown e n mq (some k) = refl

Found-Grown :
    (e : Engine) (accnt n : ℕ) (mq : MsgQueue) (id : ℕ)
    → Found e accnt id
    → Found (record e { market = record e.market { max_id = n }; mq = mq }) accnt id
unfolding order_by_id
Found-Grown e accnt n mq id (o, f) = (o, deref-Grown e n mq _ ∙ f)

pub order_by_id-Grown :
    (e : Engine) (accnt : ℕ) (m : Market) (mq : MsgQueue) (ids : List ℕ)
    → Grown e m
    → All (Found e accnt) ids
    → All (Found (record e { market = m; mq = mq }) accnt) ids
order_by_id-Grown e accnt m mq [] g fs = tt
order_by_id-Grown e accnt m mq (id ∷ ids) (n, le, eq) (f, fs) = (
  subst (λ t. Found (record e { market = t; mq = mq }) accnt id) (sym eq)
      (Found-Grown e accnt n mq id f),
  order_by_id-Grown e accnt m mq ids (n, le, eq) fs,
)
