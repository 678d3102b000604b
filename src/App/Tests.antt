-- ===== src/App/Tests.antt =====
-- The queue on concrete inputs: two threads that meet in a small ring.
use swirly.Base.{ℕ, ◌+◌, ◌<◌, ◌≤◌, ◌≡◌, refl, true, false, List, [], ◌∷◌, arith}
use swirly.Util.Math.{next_pow2, shift_one, width}
use swirly.App.MemQueue.{Event, push, pop, run, run_all}
use swirly.App.MemQueue.Moves.{TakenOk, Once}
use swirly.App.MemQueue.Fifo.{start, run_all-TakenOk}
use swirly.App.MemQueue.Accesses.{Ends}
use swirly.App.MemQueue.Alone.{alone-Ends}
use swirly.App.MemQueue.Stuck.{run_all-wpos}

abbrev memory : ℕ → ℕ
memory i = 0

-- Both threads load the position before one of them claims it; a third one starts to fetch.
abbrev race : List (Event ℕ)
race =
    push 0 40
    ∷ push 1 50
    ∷ run 0 false
    ∷ run 1 false
    ∷ run 0 false
    ∷ run 1 true
    ∷ run 0 false
    ∷ run 0 false
    ∷ pop 2
    ∷ run 2 false
    ∷ run 2 false
    ∷ run 2 false
    ∷ run 2 false
    ∷ []

pow2-two : next_pow2 2 ≡ 2
unfolding next_pow2 shift_one width
pow2-two = refl

run_all-TakenOk_example :
    TakenOk (run_all race (start 2 memory)).ring (run_all race (start 2 memory)).taken
    × Once (run_all race (start 2 memory)).taken
    × ((run_all race (start 2 memory)).ring.rpos ≤ (run_all race (start 2 memory)).ring.wpos)
    × ((run_all race (start 2 memory)).ring.wpos
        ≤ (run_all race (start 2 memory)).ring.rpos + (run_all race (start 2 memory)).ring.capacity)
run_all-TakenOk_example = run_all-TakenOk race 2 memory (omega arith) pow2-two

alone-Ends_example : Ends 6 1 (run_all race (start 2 memory))
alone-Ends_example = alone-Ends race 2 1 memory (omega arith) pow2-two

beyond-three : 3 < next_pow2 3
unfolding next_pow2 shift_one width
beyond-three = omega arith

run_all-wpos_example : (run_all race (start 3 memory)).ring.wpos ≤ 3
run_all-wpos_example = run_all-wpos 3 race memory (omega arith) beyond-three
