-- ===== src/Examples/Deadlocks.antt =====
-- Two clients that wait for each other's page (include/viper/viper.hpp), at a concrete input.
use hih.Prelude.{false, ◌≡◌, refl, true, ◌==◌, ◌||◌, if◌then◌else◌, arith, [], ◌∷◌}
use hih.Offset.{pack, get_offsets}
use hih.Store.Deadlock.{
  takes, relocks, take_page, new_offsets, own_offsets, waiting, returned, Call, Shared, State,
  Steps, exchanges, none_yet, then_step, new_call, on_own_page, is_among, exchange, with_call,
}
use hih.Store.Deadlock.Freed.{IsInitial, exchange_loses_nothing}
use hih.Store.Deadlock.Mutual.{WaitMutually, mutual_wait_ends}

-- A client on page 0 of block 1 has to free slot 3 of page 2 of block 4, where another client is,
-- which has to free slot 7 of the first one's page.
abbrev one : Call
one = new_call 1 0 (pack 4 2 3)

abbrev other : Call
other = new_call 4 2 (pack 1 0 7)

abbrev shared : Shared
shared = record { locked = λ b p. true; deadlock_offsets = pack 9 0 1 ∷ []; invalidated = [] }

wait : WaitMutually one other
unfolding on_own_page pack get_offsets
wait = record { first = (refl, refl); own = (refl, refl); crossed = (refl, refl) }

abbrev first : Shared × Call
first = exchange one shared

abbrev second : Shared × Call
second = exchange other first.0

abbrev third : Shared × Call
third = exchange first.1 second.0

abbrev fourth : Shared × Call
fourth = exchange second.1 third.0

mutual_wait_ends_example :
    (third.1.phase ≡ returned)
    × (fourth.1.phase ≡ returned)
    × (is_among (pack 4 2 3) fourth.0.invalidated ≡ true)
    × (is_among (pack 1 0 7) fourth.0.invalidated ≡ true)
mutual_wait_ends_example = mutual_wait_ends one other shared wait

abbrev start : State
start = record { calls = λ i. if i == 0 then one else other; shared = shared }

start-IsInitial : IsInitial start
start-IsInitial = record { all_wait = λ j. ground arith; none_pushed = λ j. ground arith }

abbrev after_one : State
after_one = with_call start 0 (exchange one shared)

abbrev after_two : State
after_two = with_call after_one 1 (exchange other (exchange one shared).0)

abbrev after_three : State
after_three = with_call after_two 0 (exchange (after_two.calls 0) after_two.shared)

three_exchanges : Steps start after_three
unfolding exchange is_among pack
three_exchanges =
    then_step {t = after_two}
      (then_step {t = after_one} (then_step none_yet (exchanges 0 refl)) (exchanges 1 refl))
      (exchanges 0 refl)

exchange_loses_nothing_example :
    ((after_three.calls 0).phase ≡ returned
      → is_among (pack 4 2 3) after_three.shared.invalidated ≡ true)
    × ((after_three.calls 0).phase ≡ waiting
        → (after_three.calls 0).inserted ≡ true
        → (is_among (pack 4 2 3) after_three.shared.deadlock_offsets
            || is_among (pack 4 2 3) after_three.shared.invalidated)
          ≡ true)
unfolding exchange
exchange_loses_nothing_example =
    exchange_loses_nothing start after_three 0 start-IsInitial three_exchanges

-- The first client's page is unlocked after that, and the second one gets it: its record, which the
-- first one has invalidated, is invalidated again.
abbrev unlocked : State
unlocked = record after_three { shared = record after_three.shared { locked = λ b p. false } }

abbrev after_five : State
after_five = with_call unlocked 1 (take_page (unlocked.calls 1) unlocked.shared)

five-Steps : Steps start after_five
unfolding exchange is_among pack new_offsets own_offsets on_own_page get_offsets
five-Steps =
    then_step {t = unlocked} (then_step {t = after_three} three_exchanges (relocks (λ b p. false)))
      (takes 1 refl refl)

freed_twice : after_five.shared.invalidated ≡ pack 1 0 7 ∷ (pack 1 0 7 ∷ (pack 4 2 3 ∷ []))
unfolding exchange is_among pack new_offsets own_offsets on_own_page get_offsets take_page
freed_twice = refl
