-- ===== src/EnsembleScorer/Runs.antt =====
-- engine/ensemble_scorer.py: a scorer that predicts and then learns the actual outcome, round by round.
use cto_test_ai_trading_bot.Prelude.{
  ℕ, String, Bool, true, false, Option, some, List, [], ◌∷◌, map, ◌∙◌, arith, ◌≡◌, refl, All,
  eq_iff, if◌then◌else◌,
}
use cto_test_ai_trading_bot.Prelude.Dict.{Dict}
use cto_test_ai_trading_bot.Prelude.Number.{Number}
use cto_test_ai_trading_bot.Idempotency.Keys.{member}
use cto_test_ai_trading_bot.EnsembleScorer.{EnsembleScorer, Answer, init}
use cto_test_ai_trading_bot.EnsembleScorer.Scoring.{predict_ensemble}
use cto_test_ai_trading_bot.EnsembleScorer.Learning.{update_with_actual}
use cto_test_ai_trading_bot.EnsembleScorer.Updating.{
  IsValid, IsKept, keys-normalized, update_with_actual-IsKept,
}

member-later :
    (k : String) (pre ks : List String)
    → All (λ x. member x pre ≡ true) ks
    → All (λ x. member x (k ∷ pre) ≡ true) ks
unfolding member
member-later k pre [] h = tt
member-later k pre (j ∷ ks) h = (ground (arith, h.0), member-later k pre ks h.1)

member_self : (ks : List String) → All (λ k. member k ks ≡ true) ks
unfolding member
member_self [] = tt
member_self (k ∷ ks) = (ground (arith, eq_iff k k), member-later k ks ks (member_self ks))

All-keyed :
    {V : Type 0} (f : String → V) (P : String → Type 0) (ks : List String)
    → All P ks
    → All {A = String × V} (λ e. P e.0) (map (λ k. (k, f k)) ks)
All-keyed f P [] h = tt
All-keyed f P (k ∷ ks) h = (h.0, All-keyed f P ks h.1)

-- what a round brings: the time, the answers of the models, the regime, the flag, and the outcome
pub record Round (A : Type 0) : Type 0 where
  pub now : ℕ
  pub answers : String → Answer A
  pub regime : String
  pub use_regime_weights : Bool
  pub actual : A

module _ {A C : Type 0} ⦃num : Number A⦄ (predict_with : C → A → Option A) (mean std : List A → A)
    (calibr8_fit : Option (List A → List A → Option C)) where
  abbrev pub play : Round A → EnsembleScorer A C → EnsembleScorer A C × Bool
  play r s =
      update_with_actual mean calibr8_fit
        (predict_ensemble predict_with mean std r.now r.answers r.regime r.use_regime_weights s)
        r.actual s

  -- the flag says that an exception ended the run
  unfoldable pub run : List (Round A) → EnsembleScorer A C → EnsembleScorer A C × Bool
  run [] s = (s, false)
  run (r ∷ rs) s = let rest = run rs (play r s).0 in if (play r s).1 then play r s else rest

  play-IsKept :
      (r : Round A) (s : EnsembleScorer A C) → IsValid s → IsKept mean calibr8_fit s (play r s)
  unfolding predict_ensemble
  play-IsKept r s v =
      update_with_actual-IsKept mean calibr8_fit _ r.actual s v
        (All-keyed _ (λ k. member k s.models ≡ true) s.models (member_self s.models))

  run-IsKept :
      (rs : List (Round A)) (s : EnsembleScorer A C)
      → IsValid s
      → IsKept mean calibr8_fit s (run rs s)
  unfolding run
  run-IsKept [] s v = record { returned = refl; valid = v; same_models = refl; same_window = refl }
  run-IsKept (r ∷ rs) s v =
      let first = play-IsKept r s v in
      let later = run-IsKept rs (play r s).0 first.valid in
      rw (run, first.returned)
        (record {
          returned = later.returned;
          valid = later.valid;
          same_models = later.same_models ∙ first.same_models;
          same_window = later.same_window ∙ first.same_window;
        })

  init-IsValid :
      (m : String) (ms : List String) (default_weights : Option (Dict A)) (window : ℕ)
      → (s : EnsembleScorer A C) × (init (m ∷ ms) default_weights window ≡ some s)
        × IsValid s
        × (s.models ≡ m ∷ ms)
        × (s.calibration_window ≡ window)
  unfolding init
  init-IsValid m ms default_weights window = (
    _,
    refl,
    record {
      weighed = keys-normalized {A = A} (m ∷ ms) _;
      paired = refl;
      within = omega arith;
      paired_regimes = refl;
      within_regimes =
          (omega arith, (omega arith, (omega arith, (omega arith, (omega arith, tt)))));
    },
    refl,
    refl,
  )

  -- A scorer is made of at least one model, and however often it then predicts and learns the outcome,
  -- whatever the models answer, no exception leaves it. It keeps its models and a weight for each of
  -- them, and its windows, in all and for each regime: as many predictions as outcomes, and not more
  -- than the size of the window.
  pub run-IsValid :
      (m : String) (ms : List String) (default_weights : Option (Dict A)) (window : ℕ)
      (rs : List (Round A))
      → (s : EnsembleScorer A C) × (init (m ∷ ms) default_weights window ≡ some s)
        × ((run rs s).1 ≡ false)
        × IsValid (run rs s).0
        × ((run rs s).0.models ≡ m ∷ ms)
        × ((run rs s).0.calibration_window ≡ window)
  run-IsValid m ms default_weights window rs =
      let (s, made, v, models, size) = init-IsValid m ms default_weights window in
      let kept = run-IsKept rs s v in
      (s, made, kept.returned, kept.valid, kept.same_models ∙ models, kept.same_window ∙ size)
