-- ===== src/CommonMacro/Asserts.antt =====
-- The assertions of toolbox/src/main/cpp/lcu/common_macro.h.
use my_toolbox.Base.{
  ◌≡◌, refl, Bool, true, false, not, ◌||◌, Bool-cases, inl, inr, List, [], ◌∷◌, Option, none, some,
  if◌then◌else◌, arith,
}
use my_toolbox.CommonMacro.{
  Target, is_release, Outcome, continues, aborted, Library, Assertion, assert_abort_failed,
  assert_failed, assert, assert_abort,
}

-- Where the program goes on, if it does.
unfoldable pub survived : {W : Type 0} → Outcome W → Option W
survived (continues w) = some w
survived (aborted w) = none

-- A build in which nobody is asked whether to go on.
unfoldable pub is_strict : Target → Bool
is_strict t = is_release t || not t.windows

-- The conditions one after the other, up to the first that fails.
unfoldable pub conditions : {W : Type 0} → List (Assertion W) → W → Option W
conditions [] w = some w
conditions (a ∷ rest) w =
    let r = a.expr w in let later = conditions rest (r.1) in if r.0 then later else none

-- Every condition's effect, whether it holds or not.
unfoldable pub effects : {W : Type 0} → List (Assertion W) → W → W
effects [] w = w
effects (a ∷ rest) w = effects rest ((a.expr w).1)

unfoldable pub then_go : {W : Type 0} → (W → Outcome W) → Outcome W → Outcome W
then_go f (continues w) = f w
then_go f (aborted w) = aborted w

then_go-ext :
    {W : Type 0} {f g : W → Outcome W} (o : Outcome W)
    → ((w : W) → f w ≡ g w)
    → then_go f o ≡ then_go g o
unfolding then_go
then_go-ext (continues w) e = e w
then_go-ext (aborted w) e = refl

module _ {W : Type 0} (t : Target) (lib : Library W) where
  -- A program of assertions with one macro or the other.
  unfoldable pub assert_aborts : List (Assertion W) → W → Outcome W
  assert_aborts [] w = continues w
  assert_aborts (a ∷ rest) w = then_go (assert_aborts rest) (assert_abort t lib a w)

  unfoldable pub asserts : List (Assertion W) → W → Outcome W
  asserts [] w = continues w
  asserts (a ∷ rest) w = then_go (asserts rest) (assert t lib a w)

  assert_failed-aborted :
      (w : W) → is_release t ≡ false → is_strict t ≡ true → survived (assert_failed t lib w) ≡ none
  unfolding is_strict assert_failed survived
  assert_failed-aborted w debug strict = let here : t.windows ≡ false = ground arith in rw here refl

  -- Nothing follows an assertion that does not survive.
  then_go-none :
      (f : W → Outcome W) (o : Outcome W) → survived o ≡ none → survived (then_go f o) ≡ none
  unfolding survived then_go
  then_go-none f (continues w) e = ground arith
  then_go-none f (aborted w) e = refl

  assert_abort-fail :
      (a : Assertion W) (w : W)
      → (a.expr w).0 ≡ false
      → is_strict t ≡ true
      → survived (assert_abort t lib a w) ≡ none
  unfolding assert_abort survived assert_abort_failed
  assert_abort-fail a w h strict = elim (Bool-cases (is_release t)) [
    | inl release ↦ rw (h, release) refl
    | inr debug ↦ rw (h, debug) (assert_failed-aborted ((a.expr w).1) debug strict)
  ]

  assert_abort-pass :
      (a : Assertion W) (w : W)
      → (a.expr w).0 ≡ true
      → assert_abort t lib a w ≡ continues ((a.expr w).1)
  unfolding assert_abort
  assert_abort-pass a w h = rw h refl

  assert_aborts-conditions :
      (program : List (Assertion W)) (w : W)
      → is_strict t ≡ true
      → survived (assert_aborts program w) ≡ conditions program w
  unfolding assert_aborts conditions survived then_go
  assert_aborts-conditions [] w strict = refl
  assert_aborts-conditions (a ∷ rest) w strict = elim (Bool-cases (a.expr w).0) [
    | inl holds ↦
        rw (assert_abort-pass a w holds, holds)
          (assert_aborts-conditions rest ((a.expr w).1) strict)
    | inr fails ↦
        rw fails (then_go-none (assert_aborts rest) _ (assert_abort-fail a w fails strict))
  ]

  -- In a build for debugging the two macros are one.
  assert-assert_abort :
      (a : Assertion W) (w : W) → is_release t ≡ false → assert t lib a w ≡ assert_abort t lib a w
  unfolding assert assert_abort
  assert-assert_abort a w debug = rw debug refl

  asserts-assert_aborts :
      (program : List (Assertion W)) (w : W)
      → is_release t ≡ false
      → asserts program w ≡ assert_aborts program w
  unfolding asserts assert_aborts
  asserts-assert_aborts [] w debug = refl
  asserts-assert_aborts (a ∷ rest) w debug =
      rw (assert-assert_abort a w debug)
        (then_go-ext (assert_abort t lib a w) (λ v. asserts-assert_aborts rest v debug))

  asserts-effects :
      (program : List (Assertion W)) (w : W)
      → is_release t ≡ true
      → asserts program w ≡ continues (effects program w)
  unfolding asserts assert effects then_go
  asserts-effects [] w release = refl
  asserts-effects (a ∷ rest) w release = rw release (asserts-effects rest ((a.expr w).1) release)

  -- A program of ASSERT_ABORTs goes on, in every build in which nobody is asked at a failure,
  -- exactly if all the conditions hold, with the effects of each condition once. A program of
  -- ASSERTs does the same in a build for debugging; in a release build it always goes on, with
  -- the effects of all the conditions.
  pub assert_aborts-asserts :
      (program : List (Assertion W)) (w : W)
      → is_strict t ≡ true
      → (survived (assert_aborts program w) ≡ conditions program w)
        × (survived (asserts program w)
            ≡ (if is_release t then some (effects program w) else conditions program w))
  unfolding survived
  assert_aborts-asserts program w strict = (
    assert_aborts-conditions program w strict,
    elim (Bool-cases (is_release t)) [
      | inl release ↦ rw (asserts-effects program w release, release) refl
      | inr debug ↦
          rw (asserts-assert_aborts program w debug, debug)
            (assert_aborts-conditions program w strict)
    ],
  )
