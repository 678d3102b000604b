-- ===== src/Lob/Create/Refused.antt =====
-- When `create_order` refuses an order: the checks that come before anything changes.
use swirly.Base.{
  ℕ, Bool, true, false, not, ◌&&◌, ◌||◌, ◌==◌, ltb, ◌<◌, ◌≡◌, ◌≢◌, refl, sym, ap, ◌∙◌, ◌⊎◌, inl,
  inr, ◌↔◌, Option, none, some, List, [], ◌∷◌, if◌then◌else◌, arith, Bool-cases, Option-cases,
}
use mathlib.Core.Path.{subst}
use swirly.Base.Int.{ℤ, pos, ltb_ℤ, ◌==ℤ◌, ◌<ℤ◌, eq_of_parts}
use swirly.Fin.Types.{Side}
use swirly.Fin.Order.{Order}
use swirly.Fin.Exec.{Exec}
use swirly.Fin.MsgQueue.{create_execs}
use swirly.Fin.MsgQueue.Post.{Posting-cases}
use swirly.Lob.Sess.{Sess, OrderKey, exists, find_ref, is_some}
use swirly.Lob.Response.{Response}
use swirly.Lob.Engine.{Engine, Error, Matching, Outcome, throw, sess}
use swirly.Lob.Create.{create_order, start_order, finish_order, commit_order, check_order}
use swirly.Lob.Create.Book.{create_order-throws, create_order-passed}

-- An order of the session has this reference.
abbrev pub Referenced : ℕ → List OrderKey → Type 0
Referenced ref [] = ⊥
Referenced ref (k ∷ ks) = (k.ref ≡ ref) ⊎ Referenced ref ks

-- A reference, where there is one, that an order of the session has.
abbrev pub Duplicate : ℕ → Sess → Type 0
Duplicate ref s = (ref ≢ 0) × Referenced ref s.ref_idx

-- The settlement day of the market, where it has one, is past.
abbrev pub Closed : Engine → ℕ → Type 0
Closed e now = (e.market.settl_day ≢ 0) × (e.market.settl_day < e.bus_day now)

abbrev pub BadLots : ℤ → ℤ → Type 0
BadLots lots min_lots = (lots ≡ pos 0) ⊎ (lots <ℤ min_lots)

-- What is wrong with a new order, the first of these that is.
abbrev pub Refuses : Engine → Sess → ℕ → ℤ → ℤ → ℕ → Error → Type 0
Refuses e s ref lots min_lots now Error.ref_already_exists = Duplicate ref s
Refuses e s ref lots min_lots now Error.market_closed = (¬ (Duplicate ref s)) × Closed e now
Refuses e s ref lots min_lots now Error.invalid_lots =
    (¬ (Duplicate ref s)) × (¬ (Closed e now)) × BadLots lots min_lots
Refuses e s ref lots min_lots now _ = ⊥

find_ref-Referenced :
    (ref : ℕ) (ks : List OrderKey) → is_some (find_ref ref ks) ≡ true → Referenced ref ks
unfolding find_ref
find_ref-Referenced ref [] h = absurd (cc)
find_ref-Referenced ref (k ∷ ks) h = elim (Bool-cases (k.ref == ref)) [
  | inl same ↦ inl (ground arith)
  | inr other ↦ inr (find_ref-Referenced ref ks (ground arith))
]

Referenced-find_ref :
    (ref : ℕ) (ks : List OrderKey) → Referenced ref ks → is_some (find_ref ref ks) ≡ true
unfolding find_ref
Referenced-find_ref ref [] h = absurd h
Referenced-find_ref ref (k ∷ ks) (inl e) = ground arith
Referenced-find_ref ref (k ∷ ks) (inr h) = ground (arith, Referenced-find_ref ref ks h)

-- A test and what it decides.
record Decides (b : Bool) (A : Type 0) : Type 0 where
  holds : b ≡ true → A
  tests : A → b ≡ true

Decides-not : (b : Bool) (A : Type 0) → Decides b A → b ≡ false → ¬ A
Decides-not b A d h a = absurd (cc (d.tests a))

not-Decides : (b : Bool) (A : Type 0) → Decides b A → ¬ A → b ≡ false
not-Decides b A d n = elim (Bool-cases b) [ inl h ↦ absurd (n (d.holds h)) | inr h ↦ h ]

duplicate : (ref : ℕ) (s : Sess) → Decides (not (ref == 0) && exists ref s) (Duplicate ref s)
unfolding exists
duplicate ref s = record {
  holds = λ h. (ground arith, find_ref-Referenced ref s.ref_idx (ground arith));
  tests = λ d.
      let ref_set : ref ≢ 0 = d.0 in
      let there : is_some (find_ref ref s.ref_idx) ≡ true = Referenced-find_ref ref s.ref_idx d.1 in
      ground arith;
}

closed : (day now : ℕ) → Decides (not (day == 0) && ltb day now) ((day ≢ 0) × (day < now))
closed day now = record {
  holds = λ h. (ground arith, ground arith);
  tests = λ d. let set : day ≢ 0 = d.0 in let past : day < now = d.1 in ground arith;
}

bad_lots :
    (lots min_lots : ℤ) → Decides (lots ==ℤ pos 0 || ltb_ℤ lots min_lots) (BadLots lots min_lots)
bad_lots lots min_lots = record {
  holds = λ h. elim (Bool-cases (lots ==ℤ pos 0)) [
    | inl nil ↦ inl (eq_of_parts lots (pos 0) (ground arith))
    | inr other ↦ inr (ground arith)
  ];
  tests = λ d. elim d [ inl nil ↦ rw nil refl | inr few ↦ ground arith ];
}

abbrev first_of : Bool → Bool → Bool → Option Error
first_of d c b =
    if d
    then some Error.ref_already_exists
    else if c
    then some Error.market_closed
    else if b
    then some Error.invalid_lots
    else none

abbrev First : Bool → Bool → Bool → Error → Type 0
First d c b Error.ref_already_exists = d ≡ true
First d c b Error.market_closed = (d ≡ false) × (c ≡ true)
First d c b Error.invalid_lots = (d ≡ false) × (c ≡ false) × (b ≡ true)
First d c b _ = ⊥

some_inj : (x y : Error) → some x ≡ some y → x ≡ y
some_inj x y h = cc

first_of-First : (d c b : Bool) (x : Error) → first_of d c b ≡ some x → First d c b x
first_of-First true c b x h = subst (First true c b) (some_inj _ x h) refl
first_of-First false true b x h = subst (First false true b) (some_inj _ x h) (refl, refl)
first_of-First false false true x h =
    subst (First false false true) (some_inj _ x h) (refl, refl, refl)
first_of-First false false false x h = absurd (cc)

First-first_of : (d c b : Bool) (x : Error) → First d c b x → first_of d c b ≡ some x
First-first_of d c b Error.ref_already_exists h = rw h refl
First-first_of d c b Error.market_closed h = rw (h.0, h.1) refl
First-first_of d c b Error.invalid_lots h = rw (h.0, h.1, h.2) refl
First-first_of d c b Error.too_late h = absurd h
First-first_of d c b Error.order_not_found h = absurd h
First-first_of d c b Error.not_found h = absurd h
First-first_of d c b Error.invalid h = absurd h
First-first_of d c b Error.queue_full h = absurd h
First-first_of d c b Error.already_exists h = absurd h

module _ (e : Engine) (s : Sess) (ref : ℕ) (lots min_lots : ℤ) (now : ℕ) where
  abbrev d : Bool
  d = not (ref == 0) && exists ref s

  abbrev c : Bool
  c = not (e.market.settl_day == 0) && ltb e.market.settl_day (e.bus_day now)

  abbrev b : Bool
  b = lots ==ℤ pos 0 || ltb_ℤ lots min_lots

  First-Refuses : (x : Error) → First d c b x → Refuses e s ref lots min_lots now x
  First-Refuses Error.ref_already_exists h = (duplicate ref s).holds h
  First-Refuses Error.market_closed h =
      (Decides-not d _ (duplicate ref s) h.0, (closed e.market.settl_day (e.bus_day now)).holds h.1)
  First-Refuses Error.invalid_lots h = (
    Decides-not d _ (duplicate ref s) h.0,
    Decides-not c _ (closed e.market.settl_day (e.bus_day now)) h.1,
    (bad_lots lots min_lots).holds h.2,
  )
  First-Refuses Error.too_late h = absurd h
  First-Refuses Error.order_not_found h = absurd h
  First-Refuses Error.not_found h = absurd h
  First-Refuses Error.invalid h = absurd h
  First-Refuses Error.queue_full h = absurd h
  First-Refuses Error.already_exists h = absurd h

  Refuses-First : (x : Error) → Refuses e s ref lots min_lots now x → First d c b x
  Refuses-First Error.ref_already_exists r = (duplicate ref s).tests r
  Refuses-First Error.market_closed r =
      (not-Decides d _ (duplicate ref s) r.0, (closed e.market.settl_day (e.bus_day now)).tests r.1)
  Refuses-First Error.invalid_lots r = (
    not-Decides d _ (duplicate ref s) r.0,
    not-Decides c _ (closed e.market.settl_day (e.bus_day now)) r.1,
    (bad_lots lots min_lots).tests r.2,
  )
  Refuses-First Error.too_late h = absurd h
  Refuses-First Error.order_not_found h = absurd h
  Refuses-First Error.not_found h = absurd h
  Refuses-First Error.invalid h = absurd h
  Refuses-First Error.queue_full h = absurd h
  Refuses-First Error.already_exists h = absurd h

  check_order-Refuses :
      (x : Error)
      → check_order e s ref lots min_lots now ≡ some x ↔ Refuses e s ref lots min_lots now x
  unfolding check_order
  check_order-Refuses x = (
    (λ h. First-Refuses x (first_of-First d c b x h)),
    (λ r. First-first_of d c b x (Refuses-First x r)),
  )

-- Past its checks, a call throws only for a full queue.
abbrev Full : Outcome → Type 0
Full out = (out.error ≡ none) ⊎ (out.error ≡ some Error.queue_full)

finish_order-Full :
    (e : Engine) (accnt : ℕ) (exec : Exec) (now : ℕ) (r : Matching × Order)
    → Full (finish_order e accnt exec now r)
unfolding finish_order commit_order
finish_order-Full e accnt exec now r = elim (Posting-cases (create_execs r.0.execs e.mq)) [
  | inl (mq, full) ↦ rw (full, finish_order) (inr refl)
  | inr (mq, done) ↦ rw (done, finish_order) (inl refl)
]

start_order-Full :
    (e : Engine) (accnt ref : ℕ) (sd : Side) (lots ticks min_lots : ℤ) (now : ℕ) (resp : Response)
    → Full (start_order e accnt ref sd lots ticks min_lots now resp)
unfolding start_order
start_order-Full e accnt ref sd lots ticks min_lots now resp = finish_order-Full _ accnt _ now _

Full-error : (out : Outcome) (x : Error) → Full out → x ≢ Error.queue_full → out.error ≡ some x → ⊥
Full-error out x (inl a) n h = cc (a, h)
Full-error out x (inr a) n h = n (some_inj x Error.queue_full (sym h ∙ a))

-- For any error but that of a full queue, create_order throws it exactly if the order has the
-- fault of that error and none that comes before, and then nothing has changed but that the
-- session of the account is there. The faults are first a reference other than 0 that an order of
-- the session has, then a market whose settlement day is set and before the business day, then
-- lots that are 0 or below the minimum lots; any other error is never thrown.
pub create_order-Refuses :
    (e : Engine) (accnt ref : ℕ) (sd : Side) (lots ticks min_lots : ℤ) (now : ℕ) (resp : Response)
    (x : Error)
    → x ≢ Error.queue_full
    → let out = create_order e accnt ref sd lots ticks min_lots now resp in
      let (s, sesss) = sess e.max_execs accnt e.sesss in
      ((out.error ≡ some x) ↔ Refuses e s ref lots min_lots now x)
      × ((out ≡ throw x (record e { sesss = sesss }) resp) ↔ Refuses e s ref lots min_lots now x)
create_order-Refuses e accnt ref sd lots ticks min_lots now resp x n =
    let s = (sess e.max_execs accnt e.sesss).0 in
    let e' = record e { sesss = (sess e.max_execs accnt e.sesss).1 } in
    let checks = check_order-Refuses e' s ref lots min_lots now in
    let throws = create_order-throws e accnt ref sd lots ticks min_lots now resp in
    let of_error : (create_order e accnt ref sd lots ticks min_lots now resp).error ≡ some x
        → Refuses e s ref lots min_lots now x =
      λ h. elim (Option-cases (check_order e' s ref lots min_lots now)) [
        | inl passed ↦
            let eq = create_order-passed e accnt ref sd lots ticks min_lots now resp passed in
            absurd (
              Full-error (start_order e' accnt ref sd lots ticks min_lots now resp) x
                (start_order-Full e' accnt ref sd lots ticks min_lots now resp) n
                (ap (λ o. o.error) (sym eq) ∙ h))
        | inr (y, refused) ↦
            let same : y ≡ x = some_inj y x (ap (λ o. o.error) (sym (throws y refused)) ∙ h) in
            subst (Refuses e s ref lots min_lots now) same ((checks y).0 refused)
      ] in
    (
      (of_error, (λ r. ap (λ o. o.error) (throws x ((checks x).1 r)))),
      ((λ h. of_error (ap (λ o. o.error) h)), (λ r. throws x ((checks x).1 r))),
    )
