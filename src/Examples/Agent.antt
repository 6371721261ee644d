-- ===== src/Examples/Agent.antt =====
-- The registration loop: the server is away once and then grants a token.
use seine.Prelude.{
  ◌≡◌, refl, All, In, ◌++◌, Bool, true, false, none, some, List, [], ◌∷◌, eq_iff, arith,
}
use seine.Prelude.Result.{ok, err}
use seine.ControlPlane.Auth.{Code}
use seine.AgentCore.Enrolment.{
  AgentError, Identity, Attempt, coded, transport, call, registered, aborted, cancelled, register,
  is_permanent, register_with_retry,
}
use seine.AgentCore.Retries.{
  IsTransient, Stops, refusals, Grants, IsEnrolled, register_with_retry-Grants,
  register_with_retry-IsEnrolled, register_with_retry_aborted,
}

abbrev pub blank : Identity
blank = record { auth_token = ""; token_file = none }

abbrev away : Attempt
away = record { answer = err transport; writable = true; torn = none }

abbrev pub granting : Attempt
granting = record { answer = ok (record { auth_token = "tok" }); writable = true; torn = none }

away-IsTransient : IsTransient (away, false)
unfolding register is_permanent
away-IsTransient = record {
  error = call transport;
  failed = λ a. refl;
  passing = refl;
  alive = refl;
}

granting-Grants : Grants granting "tok"
granting-Grants = record {
  answered = refl;
  nonempty = λ e. ground (arith, eq_iff "tok" "");
  writable = refl;
}

register_with_retry-Grants_example :
    register_with_retry ((away, false) ∷ (granting, false) ∷ []) blank
    ≡ (registered, record { auth_token = "tok"; token_file = some "tok" })
register_with_retry-Grants_example =
    register_with_retry-Grants ((away, false) ∷ []) granting false [] "tok" blank
      (away-IsTransient, tt) granting-Grants

abbrev two_rounds : List (Attempt × Bool)
two_rounds = (away, false) ∷ (granting, false) ∷ []

both_registered : (register_with_retry two_rounds blank).0 ≡ registered
unfolding register_with_retry
both_registered = refl

register_with_retry-IsEnrolled_example : IsEnrolled (register_with_retry two_rounds blank).1
register_with_retry-IsEnrolled_example =
    register_with_retry-IsEnrolled two_rounds blank both_registered

abbrev one_round : List (Attempt × Bool)
one_round = (away, false) ∷ []

cancelled_later : (register_with_retry ((away, true) ∷ []) blank).0 ≡ aborted cancelled
unfolding register_with_retry
cancelled_later = refl

register_with_retry_aborted_example :
    ((e : AgentError) → (register_with_retry one_round blank).0 ≡ aborted e → Stops one_round e)
    × ((attempt : Attempt) (last : Bool) (others : List (Attempt × Bool)) (c : Code)
        → All IsTransient one_round
        → attempt.answer ≡ err (coded c)
        → In c refusals
        → (register_with_retry (one_round ++ (attempt, last) ∷ others) blank).0
          ≡ aborted (call (coded c)))
register_with_retry_aborted_example = register_with_retry_aborted one_round blank
