-- ===== src/Fin/MsgQueue/Post.antt =====
-- The loop of `create_exec` over its executions, and the room that `reserve` finds for it.
use swirly.Base.{
  ◌+◌, ◌≤◌, ◌<◌, ◌≡◌, refl, sym, ap, ◌∙◌, inl, inr, some, List, [], ◌∷◌, ◌++◌, map, length, leb,
  if◌then◌else◌, arith, Bool-cases, length-append, ◌⊎◌, ◌-◌, Bool, true, false,
}
use swirly.Fin.Exec.{Exec}
use swirly.Fin.MsgQueue.{
  Msg, MsgQueue, Posting, complete, thrown, after_post, reserve, post, do_create_exec, create_each,
  create_execs,
}

-- A queue within its capacity.
abbrev pub Fits : MsgQueue → Type 0
Fits q = length q.msgs ≤ q.capacity

abbrev pub posted : MsgQueue → List Msg → MsgQueue
posted q ms = record q { msgs = q.msgs ++ ms }

pub append_one {ℓ} :
    {A : Type ℓ} (xs : List A) (y : A) (ys : List A) → (xs ++ y ∷ []) ++ ys ≡ xs ++ y ∷ ys
append_one [] y ys = refl
append_one (x ∷ xs) y ys = ap (λ t. x ∷ t) (append_one xs y ys)

pub append_none {ℓ} : {A : Type ℓ} (xs : List A) → xs ++ [] ≡ xs
append_none [] = refl
append_none (x ∷ xs) = ap (λ t. x ∷ t) (append_none xs)

pub post-room :
    (m : Msg) (q : MsgQueue) → length q.msgs < q.capacity → post m q ≡ some (posted q (m ∷ []))
unfolding post
post-room m q h = ground arith

create_each-room :
    (es : List Exec) (q : MsgQueue)
    → length q.msgs + length es ≤ q.capacity
    → create_each es q ≡ complete (posted q (map Msg.create_exec es))
unfolding create_each do_create_exec
create_each-room [] q h = ap (λ ms. complete (record q { msgs = ms })) (sym (append_none q.msgs))
create_each-room (e ∷ es) q h =
    let one = post-room (Msg.create_exec e) q (omega (arith, h)) in
    let more =
      create_each-room es (posted q (Msg.create_exec e ∷ []))
        (omega (arith, h, length-append q.msgs (Msg.create_exec e ∷ []))) in
    ap (λ r. after_post q r (λ q'. create_each es q')) one
    ∙ more
    ∙ ap (λ ms. complete (record q { msgs = ms })) (append_one q.msgs (Msg.create_exec e) _)

-- For a queue within its capacity, create_exec of several executions posts a message for each of
-- them in order if there is room for all, and throws with nothing posted if there is not.
pub create_execs-all :
    (es : List Exec) (q : MsgQueue)
    → Fits q
    → create_execs es q ≡ (
        if leb (length q.msgs + length es) q.capacity
        then complete (posted q (map Msg.create_exec es))
        else thrown q)
unfolding create_execs reserve
create_execs-all es q f = elim (Bool-cases (leb (length q.msgs + length es) q.capacity)) [
  | inl room ↦ ground (arith, create_each-room es q (ground arith))
  | inr full ↦ ground arith
]

pub Posting-cases :
    (p : Posting) → ((q : MsgQueue) × (p ≡ thrown q)) ⊎ ((q : MsgQueue) × (p ≡ complete q))
Posting-cases (thrown q) = inl (q, refl)
Posting-cases (complete q) = inr (q, refl)

-- A loop whose messages `reserve` has made room for.
create_each-complete :
    (es : List Exec) (q : MsgQueue)
    → length es ≤ q.capacity - length q.msgs
    → create_each es q ≡ complete (posted q (map Msg.create_exec es))
unfolding create_each
create_each-complete [] q h =
    ap (λ ms. complete (record q { msgs = ms })) (sym (append_none q.msgs))
create_each-complete (e ∷ es) q h = create_each-room (e ∷ es) q (omega (arith, h))

if_thrown :
    (b : Bool) (r : Posting) (q q' q1 : MsgQueue)
    → (b ≡ false → r ≡ complete q1)
    → (if b then thrown q else r) ≡ thrown q'
    → q' ≡ q
if_thrown true r q q' q1 ran h = cc
if_thrown false r q q' q1 ran h = let ran' : r ≡ complete q1 = ran refl in absurd (cc)

-- `create_exec` of several executions throws before its loop, with the queue as it was.
pub create_execs-thrown :
    (es : List Exec) (q q' : MsgQueue) → create_execs es q ≡ thrown q' → q' ≡ q
unfolding create_execs reserve
create_execs-thrown es q q' h =
    if_thrown _ (create_each es q) q q' _ (λ room. create_each-complete es q (ground arith)) h

if_complete :
    (b : Bool) (r : Posting) (q q' q1 : MsgQueue)
    → (b ≡ false → r ≡ complete q1)
    → (if b then thrown q else r) ≡ complete q'
    → q' ≡ q1
if_complete true r q q' q1 ran h = absurd (cc)
if_complete false r q q' q1 ran h = let ran' : r ≡ complete q1 = ran refl in cc

-- Where it returns, it has posted a message for each of them.
pub create_execs-complete :
    (es : List Exec) (q q' : MsgQueue)
    → create_execs es q ≡ complete q'
    → q' ≡ posted q (map Msg.create_exec es)
unfolding create_execs reserve
create_execs-complete es q q' h =
    if_complete _ (create_each es q) q q' _ (λ room. create_each-complete es q (ground arith)) h
