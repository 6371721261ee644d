-- ===== src/AgentCore/Retries.antt =====
-- internal/agentcore/agent.go: when registration is retried and what it leaves on disk.
use seine.Prelude.{
  String, ◌≡◌, ◌≢◌, refl, ◌∙◌, ◌⊎◌, inl, inr, Bool, true, false, none, some, List, [], ◌∷◌, ◌++◌,
  In, sym, ap, ◌==◌, arith, eq_iff, All, Bool-cases, Option-cases, if◌then◌else◌,
}
use seine.Prelude.Result.{ok, err, Result-cases}
use seine.ControlPlane.Auth.{
  Code, invalid_argument, unauthenticated, permission_denied, unavailable, internal,
}
use seine.AgentCore.Enrolment.{
  AgentError, call, coded, transport, Identity, Attempt, registered, aborted, cancelled, register,
  is_permanent, register_with_retry,
}

-- A round after which the loop goes on: an error that may pass, with the context still alive.
pub record IsTransient (round : Attempt × Bool) : Type 0 where
  pub error : AgentError
  pub failed : (a : Identity) → (register round.0 a).0 ≡ some error
  pub passing : is_permanent error ≡ false
  pub alive : round.1 ≡ false

-- An attempt that the server answers with a token, which can be written.
pub record Grants (attempt : Attempt) (token : String) : Type 0 where
  pub answered : attempt.answer ≡ ok (record { auth_token = token })
  pub nonempty : token ≢ ""
  pub writable : attempt.writable ≡ true

-- The token is held in memory and on disk.
pub record IsEnrolled (a : Identity) : Type 0 where
  pub held : a.auth_token ≢ ""
  pub kept : a.token_file ≡ some a.auth_token

register-Grants :
    (attempt : Attempt) (token : String) (a : Identity)
    → Grants attempt token
    → register attempt a ≡ (none, record { auth_token = token; token_file = some token })
unfolding register
register-Grants attempt token a h =
    rw (h.answered) (ground (arith, eq_iff token "", h.nonempty, h.writable))

register-IsEnrolled :
    (attempt : Attempt) (a : Identity)
    → (register attempt a).0 ≡ none
    → IsEnrolled (register attempt a).1
unfolding register
register-IsEnrolled attempt a h = elim (Result-cases attempt.answer) [
  | inl (e, p) ↦ absurd (ground arith)
  | inr (resp, p) ↦ elim (Bool-cases (resp.auth_token == "")) [
    | inl q ↦ absurd (ground arith)
    | inr q ↦ elim (Bool-cases attempt.writable) [
      | inl r ↦
          let taken : (register attempt a).1
              ≡ record { auth_token = resp.auth_token; token_file = some resp.auth_token } =
            rw (p, q, r) refl in
          rw taken (record { held = λ e. ground (arith, eq_iff resp.auth_token ""); kept = refl })
      | inr r ↦ absurd (ground arith)
    ]
  ]
]

granted_round :
    (attempt : Attempt) (over : Bool) (rounds : List (Attempt × Bool)) (a : Identity)
    → (register attempt a).0 ≡ none
    → register_with_retry ((attempt, over) ∷ rounds) a ≡ (registered, (register attempt a).1)
unfolding register_with_retry
granted_round attempt over rounds a p = rw (register_with_retry, p) refl

failed_round :
    (attempt : Attempt) (over : Bool) (rounds : List (Attempt × Bool)) (a : Identity)
    (e : AgentError)
    → (register attempt a).0 ≡ some e
    → register_with_retry ((attempt, over) ∷ rounds) a ≡ (
        if is_permanent e
        then (aborted e, (register attempt a).1)
        else if over
        then (aborted cancelled, (register attempt a).1)
        else register_with_retry rounds (register attempt a).1)
unfolding register_with_retry
failed_round attempt over rounds a e p = rw (register_with_retry, p) refl

-- Rounds that may pass do not stop the loop: however many there are, the first attempt after them
-- that the server grants registers the agent with its token, in memory and on disk.
pub register_with_retry-Grants :
    (rounds : List (Attempt × Bool)) (attempt : Attempt) (last : Bool)
    (others : List (Attempt × Bool)) (token : String) (a : Identity)
    → All IsTransient rounds
    → Grants attempt token
    → register_with_retry (rounds ++ (attempt, last) ∷ others) a
      ≡ (registered, record { auth_token = token; token_file = some token })
register_with_retry-Grants [] attempt last others token a h g =
    let now = register-Grants attempt token a g in
    granted_round attempt last others a (rw now refl) ∙ rw now refl
register_with_retry-Grants ((failing, over) ∷ rounds) attempt last others token a h g =
    let now = h.0 in
    let ih =
      register_with_retry-Grants rounds attempt last others token (register failing a).1 h.1 g in
    failed_round failing over (rounds ++ (attempt, last) ∷ others) a now.error (now.failed a)
    ∙ rw (now.passing, now.alive) ih

-- The codes by which the server refuses for good.
abbrev pub refusals : List Code
refusals = permission_denied ∷ unauthenticated ∷ invalid_argument ∷ []

-- A round whose call is refused for good.
abbrev pub IsRefused : Attempt × Bool → AgentError → Type 0
IsRefused round e =
    (c : Code) × In c refusals × (round.0.answer ≡ err (coded c)) × (e ≡ call (coded c))

-- A round that stops the loop: it is refused for good, or the context is cancelled after it.
pub record Stops (rounds : List (Attempt × Bool)) (e : AgentError) : Type 0 where
  pub round : Attempt × Bool
  pub run : In round rounds
  pub reason : IsRefused round e ⊎ ((round.1 ≡ true) × (e ≡ cancelled))

Stops-later :
    (x : Attempt × Bool) (rounds : List (Attempt × Bool)) (e : AgentError)
    → Stops rounds e
    → Stops (x ∷ rounds) e
Stops-later x rounds e s = record { round = s.round; run = inr s.run; reason = s.reason }

permanent_code : (c : Code) → is_permanent (call (coded c)) ≡ true → In c refusals
unfolding is_permanent
permanent_code permission_denied h = inl refl
permanent_code unauthenticated h = inr (inl refl)
permanent_code invalid_argument h = inr (inr (inl refl))
permanent_code unavailable h = absurd (cc)
permanent_code internal h = absurd (cc)

code_permanent : (c : Code) → In c refusals → is_permanent (call (coded c)) ≡ true
unfolding is_permanent
code_permanent c (inl e) = rw e refl
code_permanent c (inr (inl e)) = rw e refl
code_permanent c (inr (inr (inl e))) = rw e refl
code_permanent c (inr (inr (inr m))) = absurd m

register-IsRefused :
    (attempt : Attempt) (over : Bool) (a : Identity) (e : AgentError)
    → (register attempt a).0 ≡ some e
    → is_permanent e ≡ true
    → IsRefused (attempt, over) e
unfolding register is_permanent
register-IsRefused attempt over a e h q = elim (Result-cases attempt.answer) [
  | inl (coded c, p) ↦
      let same : call (coded c) ≡ e = ground arith in
      (c, permanent_code c (ap is_permanent same ∙ q), p, sym same)
  | inl (transport, p) ↦ absurd (ground arith)
  | inr (resp, p) ↦ absurd (elim (Bool-cases (resp.auth_token == "")) [
    | inl r ↦ ground arith
    | inr r ↦ elim (Bool-cases attempt.writable) [ inl w ↦ ground arith | inr w ↦ ground arith ]
  ])
]

outcome :
    (rounds : List (Attempt × Bool)) (a : Identity)
    → ((register_with_retry rounds a).0 ≡ registered → IsEnrolled (register_with_retry rounds a).1)
      × ((e : AgentError) → (register_with_retry rounds a).0 ≡ aborted e → Stops rounds e)
unfolding register_with_retry
outcome [] a = ((λ h. cc), λ e h. cc)
outcome ((attempt, over) ∷ rounds) a =
    let ih = outcome rounds (register attempt a).1 in
    elim (Option-cases (register attempt a).0) [
      | inl p ↦
          rw (granted_round attempt over rounds a p)
            ((λ h. register-IsEnrolled attempt a p), λ e h. cc)
      | inr (e, p) ↦
          rw (failed_round attempt over rounds a e p) (elim (Bool-cases (is_permanent e)) [
            | inl q ↦ rw q (
              (λ h. cc),
              λ e' h.
                  let same : e ≡ e' = ground arith in
                  record {
                    round = (attempt, over);
                    run = inl refl;
                    reason =
                        inl (register-IsRefused attempt over a e' (rw (← same) p) (rw (← same) q));
                  },
            )
            | inr q ↦ rw q (elim (Bool-cases over) [
              | inl r ↦ rw r (
                (λ h. cc),
                λ e' h. record {
                  round = (attempt, true);
                  run = inl refl;
                  reason = inr (refl, ground arith);
                },
              )
              | inr r ↦ rw r (ih.0, λ e' h. Stops-later (attempt, false) rounds e' (ih.1 e' h))
            ])
          ])
    ]

-- Registration that succeeds leaves a token in memory that is not empty, and the same token on disk.
pub register_with_retry-IsEnrolled :
    (rounds : List (Attempt × Bool)) (a : Identity)
    → (register_with_retry rounds a).0 ≡ registered
    → IsEnrolled (register_with_retry rounds a).1
register_with_retry-IsEnrolled rounds a = (outcome rounds a).0

refused_after :
    (rounds : List (Attempt × Bool)) (attempt : Attempt) (last : Bool)
    (others : List (Attempt × Bool)) (c : Code) (a : Identity)
    → All IsTransient rounds
    → attempt.answer ≡ err (coded c)
    → In c refusals
    → (register_with_retry (rounds ++ (attempt, last) ∷ others) a).0 ≡ aborted (call (coded c))
unfolding register
refused_after [] attempt last others c a h p m =
    let now : (register attempt a).0 ≡ some (call (coded c)) = rw (register, p) refl in
    rw (failed_round attempt last others a (call (coded c)) now, code_permanent c m) refl
refused_after ((failing, over) ∷ rounds) attempt last others c a h p m =
    let now = h.0 in
    let ih = refused_after rounds attempt last others c (register failing a).1 h.1 p m in
    rw
      (
        failed_round failing over (rounds ++ (attempt, last) ∷ others) a now.error (now.failed a),
        now.passing,
        now.alive,
      )
      ih

-- Registration gives up only because a call in one of its rounds was answered PermissionDenied,
-- Unauthenticated or InvalidArgument, whose error it returns, or because the context was cancelled in
-- the wait after a round. After rounds that may pass, an answer of one of the three codes makes it
-- give up with that code.
pub register_with_retry_aborted :
    (rounds : List (Attempt × Bool)) (a : Identity)
    → ((e : AgentError) → (register_with_retry rounds a).0 ≡ aborted e → Stops rounds e)
      × ((attempt : Attempt) (last : Bool) (others : List (Attempt × Bool)) (c : Code)
          → All IsTransient rounds
          → attempt.answer ≡ err (coded c)
          → In c refusals
          → (register_with_retry (rounds ++ (attempt, last) ∷ others) a).0
            ≡ aborted (call (coded c)))
register_with_retry_aborted rounds a = (
  (outcome rounds a).1,
  λ attempt last others c h p m. refused_after rounds attempt last others c a h p m,
)
