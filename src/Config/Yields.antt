-- ===== src/Config/Yields.antt =====
-- What a parser that succeeds yields, and the rules for the shared checks.
use antenna_guardian_pi_lite.Common.{
  ℕ, ◌%◌, ◌^◌, ◌≤◌, ◌<◌, Bool, true, false, not, ◌||◌, [], Option, none, some, ◌≡◌, refl, subst,
  inl, inr, arith, Bool-cases, ℤ, pos, negsuc, int_below, int_above, to_unsigned,
}
use native.Mathlib.Nat.{mod-eq_of_lt}
use antenna_guardian_pi_lite.CString.{Text}
use antenna_guardian_pi_lite.Json.{Json, is_null}
use antenna_guardian_pi_lite.Config.Checks.{
  ConfigError, Loaded, failed, loaded, ◌>>=◌, reject_if, object_of, text_field, number_field,
}

pub record Yields {A : Type 0} (m : Loaded A) (P : A → Type 0) : Type 0 where
  pub holds : (a : A) → m ≡ loaded a → P a

-- Nothing is said of the value.
pub any-Yields : {A : Type 0} (m : Loaded A) → Yields m (λ a. Unit {0})
any-Yields m = record { holds = λ a h. tt }

pub failed-Yields : {A : Type 0} (e : ConfigError) (P : A → Type 0) → Yields (failed e) P
failed-Yields e P = record { holds = λ a h. cc }

pub loaded-Yields : {A : Type 0} {a : A} {P : A → Type 0} → P a → Yields (loaded a) P
loaded-Yields {A} {a} {P} p = record { holds = λ b h. subst P (loaded_eq h) p }
  where
    loaded_eq : {a b : A} → loaded a ≡ loaded b → a ≡ b
    loaded_eq e = cc

module _ {A B : Type 0} (m : Loaded A) (f : A → Loaded B) {P : A → Type 0} {Q : B → Type 0} where
  pub bind-Yields : Yields m P → ((a : A) → P a → Yields (f a) Q) → Yields (m >>= f) Q
  unfolding ◌>>=◌
  bind-Yields y h = record { holds = λ b e. go m refl b e }
    where
      go : (x : Loaded A) → m ≡ x → (b : B) → (x >>= f) ≡ loaded b → Q b
      go (failed e) s b h' = cc
      go (loaded a) s b h' = (h a (y.holds a s)).holds b h'

-- Behind a guard the condition is false.
pub guard-Yields :
    {B : Type 0} (bad : Bool) (e : ConfigError) (f : Unit {0} → Loaded B) {Q : B → Type 0}
    → (bad ≡ false → Yields (f tt) Q)
    → Yields (reject_if bad e >>= f) Q
unfolding reject_if ◌>>=◌
guard-Yields true e f h = failed-Yields e _
guard-Yields false e f h = h refl

module _ {J : Type 0} (json : Json J) where
  pub object_of-Yields :
      (e : ConfigError) (item : Option J) → Yields (object_of json e item) (λ j. item ≡ some j)
  unfolding object_of
  object_of-Yields e none = failed-Yields e _
  object_of-Yields e (some j) = elim (Bool-cases (json.is_object j)) [
    | inl object ↦ rw object (loaded-Yields refl)
    | inr other ↦ rw other (failed-Yields e _)
  ]

  pub text_field-Yields :
      (valid : Text → Bool) (e : ConfigError) (item : Option J)
      → Yields
          (text_field json valid e item)
          (λ t. (is_null item ≡ true → t ≡ []) × (is_null item ≡ false → valid t ≡ true))
  unfolding text_field
  text_field-Yields valid e none = loaded-Yields ((λ h. refl), (λ h. cc))
  text_field-Yields valid e (some j) =
      elim (Bool-cases (not (json.is_string j) || not (valid (json.valuestring j)))) [
        | inl bad ↦ rw bad (failed-Yields e _)
        | inr good ↦ rw good (loaded-Yields ((λ h. cc), (λ h. ground (arith, good))))
      ]

  -- A conversion to w bits keeps a number in range.
  to_unsigned-range :
      (w most : ℕ) (z : ℤ)
      → most < 2 ^ w
      → int_below z 1 ≡ false
      → int_above z most ≡ false
      → (1 ≤ to_unsigned w z) × (to_unsigned w z ≤ most)
  to_unsigned-range w most (pos n) h b a =
      let low : 1 ≤ n = ground (arith, b) in
      let high : n ≤ most = ground (arith, a) in
      let kept : n % 2 ^ w ≡ n = mod-eq_of_lt (omega (arith, high, h)) in rw kept (low, high)
  to_unsigned-range w most (negsuc n) h b a = cc

  pub number_field-Yields :
      (w most default : ℕ) (e : ConfigError) (item : Option J)
      → most < 2 ^ w
      → (1 ≤ default) × (default ≤ most)
      → Yields (number_field json w most default e item) (λ n. (1 ≤ n) × (n ≤ most))
  unfolding number_field
  number_field-Yields w most default e none h d = loaded-Yields d
  number_field-Yields w most default e (some j) h d =
      elim (Bool-cases (
        not (json.is_number j) || (json.below j 1 || (json.above j most || not (json.is_int j))))) [
          | inl bad ↦ rw bad (failed-Yields e _)
          | inr good ↦
              let whole : json.is_int j ≡ true = ground (arith, good) in
              rw good (
                loaded-Yields (
                  to_unsigned-range w most (json.valueint j) h
                    (ground (arith, good, json.below-valueint j 1 whole))
                    (ground (arith, good, json.above-valueint j most whole))))
        ]
