-- ===== src/Log/Shown.antt =====
-- Which statements of a program have an effect, stated without the tests of
-- toolbox/src/main/cpp/lcu/log/slog.h.
use my_toolbox.Base.{
  ℕ, zero, suc, ◌==◌, ◌≡◌, ◌≤◌, refl, ◌||◌, leb, Bool, true, false, List, [], ◌∷◌, if◌then◌else◌,
  drop, drop-nil, arith,
}
use my_toolbox.Log.{
  Letter, letter_v, letter_d, letter_i, letter_w, letter_e, Statement, set_level, tlog, tlog_trace,
  log, log_trace, tlog_hex, log_hex, rank, level, log_level_error, as_level,
}
use my_toolbox.Log.Slog.{is_logged}

-- The letters in the order of their levels.
abbrev letters : List Letter
letters = letter_v ∷ letter_d ∷ letter_i ∷ letter_w ∷ letter_e ∷ []

abbrev among : Letter → List Letter → Bool
among l [] = false
among l (x ∷ xs) = (rank (level l) == rank (level x)) || among l xs

-- The letters that are shown: none at LOG_LEVEL_OFF, and else all but the first ones.
unfoldable pub shown : ℕ → Letter → Bool
shown zero l = false
shown (suc n) l = among l (drop n letters)

by_letter :
    (P : Letter → Type 0)
    → P letter_v
    → P letter_d
    → P letter_i
    → P letter_w
    → P letter_e
    → (l : Letter) → P l
by_letter P v d i w e letter_v = v
by_letter P v d i w e letter_d = d
by_letter P v d i w e letter_i = i
by_letter P v d i w e letter_w = w
by_letter P v d i w e letter_e = e

shown_none : (n : ℕ) (l : Letter) → among l (drop n []) ≡ false
shown_none n l = rw (drop-nil {A = Letter} n) refl

leb-five : (n : ℕ) (l : Letter) → leb (suc (suc (suc (suc (suc (suc n)))))) (rank (level l)) ≡ false
unfolding rank level
leb-five n =
    by_letter (λ l. leb (suc (suc (suc (suc (suc (suc n)))))) (rank (level l)) ≡ false)
      (ground arith) (ground arith) (ground arith) (ground arith) (ground arith)

pub is_logged-shown : (m : ℕ) (l : Letter) → is_logged m l ≡ shown m l
unfolding is_logged shown rank level
is_logged-shown zero l = by_letter (λ l. is_logged 0 l ≡ shown 0 l) refl refl refl refl refl l
is_logged-shown (suc zero) l = by_letter (λ l. is_logged 1 l ≡ shown 1 l) refl refl refl refl refl l
is_logged-shown (suc (suc zero)) l =
    by_letter (λ l. is_logged 2 l ≡ shown 2 l) refl refl refl refl refl l
is_logged-shown (suc (suc (suc zero))) l =
    by_letter (λ l. is_logged 3 l ≡ shown 3 l) refl refl refl refl refl l
is_logged-shown (suc (suc (suc (suc zero)))) l =
    by_letter (λ l. is_logged 4 l ≡ shown 4 l) refl refl refl refl refl l
is_logged-shown (suc (suc (suc (suc (suc zero))))) l =
    by_letter (λ l. is_logged 5 l ≡ shown 5 l) refl refl refl refl refl l
is_logged-shown (suc (suc (suc (suc (suc (suc n)))))) l =
    rw (leb-five n l, shown_none n l) (ground arith)

-- A level that a statement sets is one of LOG_LEVEL_OFF to LOG_LEVEL_ERROR.
unfoldable pub IsNamed : Statement → Type 0
IsNamed (set_level n) = as_level n ≤ rank log_level_error
IsNamed s = Unit

unfoldable pub AreNamed : List Statement → Type 0
AreNamed [] = Unit
AreNamed (s ∷ rest) = IsNamed s × AreNamed rest

-- Whether a statement has an effect at the level: what does not print always has one.
unfoldable pub has_effect : ℕ → Statement → Bool
has_effect m (tlog l tag fmt args) = shown m l
has_effect m (tlog_trace l tag site fmt args) = shown m l
has_effect m (log l fmt args) = shown m l
has_effect m (log_trace l site fmt args) = shown m l
has_effect m (tlog_hex l tag chars n) = shown m l
has_effect m (log_hex l chars n) = shown m l
has_effect m s = true

-- The level after a statement.
unfoldable pub next_level : ℕ → Statement → ℕ
next_level m (set_level n) = as_level n
next_level m s = m

-- The statements of a program that have an effect, from the level at its start.
unfoldable pub kept : ℕ → List Statement → List Statement
kept m [] = []
kept m (s ∷ rest) =
    let later = kept (next_level m s) rest in if has_effect m s then s ∷ later else later
