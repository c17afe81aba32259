-- ===== src/Tests/Sending.antt =====
-- Two insertions into a session's send queue, the second while the first is being sent
-- (jhshin_Server/jhshin_Server/SessionData.cpp).
use jhshin_server.Common.{ℕ, ◌≡◌, ◌++◌, refl, true, List, [], ◌∷◌}
use jhshin_server.Session.Send.{Event, insert, goes_on, run, fresh, inserted}
use jhshin_server.Session.Send.Order.{OneActivity, run-OneActivity, run-given, run-all_given}

-- The second chunk comes when `WSASend` has been called for the first.
abbrev two_sends : List (Event ℕ)
two_sends =
    insert 1
    ∷ goes_on 0 true
    ∷ goes_on 0 true
    ∷ goes_on 0 true
    ∷ goes_on 0 true
    ∷ insert 2
    ∷ goes_on 0 true
    ∷ goes_on 0 true
    ∷ goes_on 0 true
    ∷ goes_on 0 true
    ∷ goes_on 0 true
    ∷ goes_on 0 true
    ∷ goes_on 0 true
    ∷ goes_on 0 true
    ∷ []

run-OneActivity_example : OneActivity (run two_sends fresh)
run-OneActivity_example = run-OneActivity two_sends

run-given_example : (rest : List ℕ) × ((run two_sends fresh).0.given ++ rest ≡ inserted two_sends)
run-given_example = run-given two_sends

run-all_given_example : (run two_sends fresh).0.given ≡ inserted two_sends
unfolding run
run-all_given_example = run-all_given two_sends refl refl
