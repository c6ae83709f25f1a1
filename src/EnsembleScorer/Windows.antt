-- ===== src/EnsembleScorer/Windows.antt =====
-- engine/ensemble_scorer.py: the lengths of the windows, and the keys of the tables.
use cto_test_ai_trading_bot.Prelude.{
  ℕ, ◌+◌, ◌-◌, ◌≤◌, String, some, List, [], ◌∷◌, ◌++◌, map, length, ap, ◌∙◌, arith, ◌≡◌, refl,
  Bool-cases, inl, inr, str_eq, eq_iff, All, length-append, length-drop,
}
use cto_test_ai_trading_bot.Prelude.Dict.{Dict, lookup, insert, get_or}
use cto_test_ai_trading_bot.Idempotency.{keys}
use cto_test_ai_trading_bot.EnsembleScorer.{push_window}
use cto_test_ai_trading_bot.EnsembleScorer.Learning.{push_at}

-- the length of a window of `n` after an entry was added to `k` entries
abbrev pub grown : ℕ → ℕ → ℕ
grown n k = k + 1 - (k + 1 - n)

module _ {ℓ} {T : Type ℓ} where
  pub length-push_window :
      (n : ℕ) (x : T) (xs : List T) → length (push_window n x xs) ≡ grown n (length xs)
  unfolding push_window
  length-push_window n x xs =
      omega
        (arith, length-drop (length (xs ++ x ∷ []) - n) (xs ++ x ∷ []), length-append xs (x ∷ []))

  -- the keys with the lengths of the entries
  abbrev pub shape : Dict (List T) → Dict ℕ
  shape = map (λ e. (e.0, length e.1))

  shape-insert :
      (k : String) (xs : List T) (d : Dict (List T))
      → shape (insert k xs d) ≡ insert k (length xs) (shape d)
  unfolding insert
  shape-insert k xs [] = refl
  shape-insert k xs ((j, ys) ∷ d) = ground (arith, shape-insert k xs d)

  shape-get_or : (k : String) (d : Dict (List T)) → length (get_or [] k d) ≡ get_or 0 k (shape d)
  unfolding lookup
  shape-get_or k [] = refl
  shape-get_or k ((j, ys) ∷ d) = ground (arith, shape-get_or k d)

  pub shape-push_at :
      (n : ℕ) (k : String) (x : T) (d : Dict (List T))
      → shape (push_at n k x d) ≡ insert k (grown n (get_or 0 k (shape d))) (shape d)
  unfolding push_at
  shape-push_at n k x d =
      shape-insert k (push_window n x (get_or [] k d)) d
      ∙ ap (λ m. insert k m (shape d))
          (length-push_window n x (get_or [] k d) ∙ ap (grown n) (shape-get_or k d))

All-insert :
    {V : Type 0} (P : V → Type 0) (k : String) (v : V) (d : Dict V)
    → P v
    → All (λ e. P e.1) d
    → All (λ e. P e.1) (insert k v d)
unfolding insert
All-insert P k v [] p h = (p, tt)
All-insert P k v ((j, w) ∷ d) p h = elim (Bool-cases (str_eq j k)) [
  | inl here ↦ rw (insert, here) (p, h.1)
  | inr on ↦ rw (insert, on) (h.0, All-insert P k v d p h.1)
]

pub push_at-within :
    {T : Type 0} (n : ℕ) (k : String) (x : T) (d : Dict (List T))
    → All (λ e. length e.1 ≤ n) d
    → All (λ e. length e.1 ≤ n) (push_at n k x d)
unfolding push_at
push_at-within n k x d h =
    All-insert (λ xs. length xs ≤ n) k _ d (omega (arith, length-push_window n x (get_or [] k d))) h

pub keys-insert :
    {V : Type 0} (k : String) (v w : V) (d : Dict V)
    → lookup k d ≡ some w
    → keys (insert k v d) ≡ keys d
unfolding lookup insert
keys-insert k v w [] h = ground arith
keys-insert k v w ((j, u) ∷ d) h = ground (arith, eq_iff j k, keys-insert k v w d)

pub keys-entries :
    {V W : Type 0} (f : String × V → W) (d : Dict V) → keys (map (λ e. (e.0, f e)) d) ≡ keys d
keys-entries f [] = refl
keys-entries f (e ∷ d) = ap (◌∷◌ e.0) (keys-entries f d)

pub keys-map : {V : Type 0} (f : String → V) (ks : List String) → keys (map (λ k. (k, f k)) ks) ≡ ks
keys-map f [] = refl
keys-map f (k ∷ ks) = ap (◌∷◌ k) (keys-map f ks)
