-- ===== src/Idempotency/Keys.antt =====
-- core/idempotency.py: which keys the helpers of the manager keep.
use cto_test_ai_trading_bot.Prelude.{
  ℕ, ◌+◌, ◌≤◌, ◌≡◌, refl, ap, ◌∙◌, String, Bool, true, false, Option, none, some, List, [], ◌∷◌,
  ◌++◌, arith, leb, if◌then◌else◌, length, str_eq, eq_iff, All,
}
use cto_test_ai_trading_bot.Prelude.Dict.{Dict, lookup, insert, erase, contains, lookup-erase}
use cto_test_ai_trading_bot.Idempotency.{
  IdempotencyRecord, keys, erase_all, insert_by_age, sort_by_age, expired_keys,
}

-- `k in ks`, on a list
unfoldable pub member : String → List String → Bool
member k [] = false
member k (j ∷ ks) = if str_eq j k then true else member k ks

-- No key stands twice.
abbrev pub IsUnique {ℓ} : {V : Type ℓ} → Dict V → Type 0
IsUnique [] = Unit
IsUnique ((k, v) ∷ d) = (contains k d ≡ false) × IsUnique d

module _ {ℓ} {V : Type ℓ} where
  pub lookup-erase_all :
      (k : String) (ks : List String) (d : Dict V)
      → lookup k (erase_all ks d) ≡ (if member k ks then none else lookup k d)
  unfolding erase_all member
  lookup-erase_all k [] d = refl
  lookup-erase_all k (j ∷ ks) d =
      ground (arith, lookup-erase_all k ks (erase j d), lookup-erase j k d)

  pub contains-member : (k : String) (d : Dict V) → contains k d ≡ member k (keys d)
  unfolding lookup member
  contains-member k [] = refl
  contains-member k ((j, v) ∷ d) = ground (arith, contains-member k d)

  pub erase-IsUnique : (k : String) (d : Dict V) → IsUnique d → IsUnique (erase k d)
  unfolding erase
  erase-IsUnique k [] h = tt
  erase-IsUnique k ((j, v) ∷ d) h = ground (arith, erase-IsUnique k d h.1, lookup-erase k j d)

  pub erase_all-IsUnique : (ks : List String) (d : Dict V) → IsUnique d → IsUnique (erase_all ks d)
  unfolding erase_all
  erase_all-IsUnique [] d h = h
  erase_all-IsUnique (k ∷ ks) d h = erase_all-IsUnique ks (erase k d) (erase-IsUnique k d h)

  pub insert-append :
      (k : String) (v : V) (d : Dict V) → lookup k d ≡ none → insert k v d ≡ d ++ (k, v) ∷ []
  unfolding lookup insert
  insert-append k v [] h = refl
  insert-append k v ((j, w) ∷ d) h = ground (arith, insert-append k v d)

module _ {R M : Type 0} where
  pub member-insert_by_age :
      (k : String) (x : String × IdempotencyRecord R M) (d : Dict (IdempotencyRecord R M))
      → member k (keys (insert_by_age x d)) ≡ (if str_eq x.0 k then true else member k (keys d))
  unfolding member insert_by_age
  member-insert_by_age k x [] = refl
  member-insert_by_age k x (y ∷ d) = ground (arith, member-insert_by_age k x d)

  pub member-sort_by_age :
      (k : String) (d : Dict (IdempotencyRecord R M))
      → member k (keys (sort_by_age d)) ≡ member k (keys d)
  unfolding member sort_by_age
  member-sort_by_age k [] = refl
  member-sort_by_age k (x ∷ d) =
      member-insert_by_age k x (sort_by_age d)
      ∙ ap (λ b. if str_eq x.0 k then true else b) (member-sort_by_age k d)

  pub length-insert_by_age :
      (x : String × IdempotencyRecord R M) (d : Dict (IdempotencyRecord R M))
      → length (insert_by_age x d) ≡ length d + 1
  unfolding insert_by_age
  length-insert_by_age x [] = omega arith
  length-insert_by_age x (y ∷ d) = ground (arith, length-insert_by_age x d)

  pub length-sort_by_age : (d : Dict (IdempotencyRecord R M)) → length (sort_by_age d) ≡ length d
  unfolding sort_by_age
  length-sort_by_age [] = refl
  length-sort_by_age (x ∷ d) =
      omega (arith, length-insert_by_age x (sort_by_age d), length-sort_by_age d)

  abbrev pub IsNoOlder : String × IdempotencyRecord R M → String × IdempotencyRecord R M → Type 0
  IsNoOlder x y = (y.1).created_at ≤ (x.1).created_at

  insert_by_age-append :
      (x y : String × IdempotencyRecord R M) (d : Dict (IdempotencyRecord R M))
      → IsNoOlder x y
      → insert_by_age y (d ++ x ∷ []) ≡ insert_by_age y d ++ x ∷ []
  unfolding insert_by_age
  insert_by_age-append x y [] h = ground arith
  insert_by_age-append x y (z ∷ d) h = ground (arith, insert_by_age-append x y d)

  -- an entry at the end that is no older than the others stays at the end
  pub sort_by_age-append :
      (x : String × IdempotencyRecord R M) (d : Dict (IdempotencyRecord R M))
      → All (IsNoOlder x) d
      → sort_by_age (d ++ x ∷ []) ≡ sort_by_age d ++ x ∷ []
  unfolding sort_by_age insert_by_age
  sort_by_age-append x [] h = refl
  sort_by_age-append x (y ∷ d) h =
      ap (insert_by_age y) (sort_by_age-append x d h.1)
      ∙ insert_by_age-append x y (sort_by_age d) h.0

  pub expired_keys-contains :
      (now : ℕ) (k : String) (d : Dict (IdempotencyRecord R M))
      → contains k d ≡ false
      → member k (expired_keys now d) ≡ false
  unfolding expired_keys member lookup
  expired_keys-contains now k [] h = refl
  expired_keys-contains now k ((j, r) ∷ d) h = ground (arith, expired_keys-contains now k d)

  abbrev pub found_expired : ℕ → Option (IdempotencyRecord R M) → Bool
  found_expired now none = false
  found_expired now (some r) = leb r.expires_at now

  pub member-expired_keys :
      (now : ℕ) (k : String) (d : Dict (IdempotencyRecord R M))
      → IsUnique d
      → member k (expired_keys now d) ≡ found_expired now (lookup k d)
  unfolding expired_keys member lookup
  member-expired_keys now k [] h = refl
  member-expired_keys now k ((j, r) ∷ d) h =
      ground (arith, member-expired_keys now k d h.1, expired_keys-contains now k d, eq_iff j k)
