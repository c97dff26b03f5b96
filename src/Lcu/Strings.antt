-- ===== src/Lcu/Strings.antt =====
-- The macros of toolbox/src/main/cpp/lcu/mem/strings.h that change the case of a string in place.
-- A block of memory is a list of bytes.
use my_toolbox.Base.{
  ℕ, zero, suc, ◌+◌, ◌-◌, sym, ◌∙◌, ◌%◌, ◌≡◌, refl, ap, ◌<◌, ◌≤◌, ltb→lt, Bool, true, false, not,
  ◌&&◌, Bool-cases, inl, inr, ltb, leb, le→leb, ◌==◌, List, [], ◌∷◌, ◌++◌, map, ℤ, pos, negsuc,
  arith, if◌then◌else◌, Run, done, fault, ◌>>=◌,
}

-- A `char` as the `int` that a function is given, where `char` is signed or not.
abbrev pub char_value : Bool → ℕ → ℤ
char_value signed c = if signed && leb 128 c then negsuc (255 - c) else pos c

-- The `int` that is stored in a `char`.
abbrev pub as_char : ℤ → ℕ
as_char (pos n) = n % 256
as_char (negsuc n) = 255 - n % 256

-- A call of `toupper` or `tolower`, which are defined on the values of an `unsigned char` and on
-- EOF. `trans` is what they do on the former.
unfoldable pub call_ctype : (ℕ → ℕ) → ℤ → Run ℤ
call_ctype trans (pos n) = done (pos (trans n))
call_ctype trans (negsuc zero) = done (negsuc 0)
call_ctype trans (negsuc (suc n)) = fault

-- _STRING_TRANSFORM(s, line, trans_func), on the block that `s` points to: the loop goes on to the
-- first zero.
unfoldable pub string_transform : Bool → (ℕ → ℕ) → List ℕ → Run (List ℕ)
unfolding call_ctype
string_transform signed trans [] = fault
string_transform signed trans (c ∷ cs) =
    let rest = string_transform signed trans cs in
    if c == 0
    then done (c ∷ cs)
    else (call_ctype trans (char_value signed c) >>= λ x. rest >>= λ r. done (as_char x ∷ r))

-- `toupper` and `tolower` of the C library, on the values of an `unsigned char`.
pub record Ctype : Type 0 where
  pub toupper : ℕ → ℕ
  pub tolower : ℕ → ℕ

-- STRING2UPPER and STRING2LOWER
unfoldable pub string2upper : Bool → Ctype → List ℕ → Run (List ℕ)
string2upper signed lib s = string_transform signed lib.toupper s

unfoldable pub string2lower : Bool → Ctype → List ℕ → Run (List ℕ)
string2lower signed lib s = string_transform signed lib.tolower s

abbrev pub all_ascii : List ℕ → Bool
all_ascii [] = true
all_ascii (c ∷ cs) = ltb c 128 && all_ascii cs

-- The bytes of a text in a string, none of them 0, nor 255, which is EOF where `char` is signed.
abbrev pub AreChars : List ℕ → Type 0
AreChars [] = Unit
AreChars (c ∷ cs) = (0 < c) × (c < 255) × AreChars cs

-- The C library gives the value of an `unsigned char` for one.
abbrev pub IsCtype : (ℕ → ℕ) → Type 0
IsCtype trans = (c : ℕ) → c < 256 → trans c < 256

module _ (trans : ℕ → ℕ) (law : IsCtype trans) where
  -- What the macro makes of a string, with what lies behind its zero.
  abbrev pub transformed : Bool → List ℕ → List ℕ → Run (List ℕ)
  transformed signed text behind =
      if signed && not (all_ascii text) then fault else done (map trans text ++ 0 ∷ behind)

  -- What the loop does with a byte that is not 0, and with the rest.
  abbrev round : Bool → ℕ → Run (List ℕ) → Run (List ℕ)
  round signed c rest =
      call_ctype trans (char_value signed c) >>= λ x. rest >>= λ r. done (as_char x ∷ r)

  fault_then : (x : Run ℤ) → (x >>= λ y. fault >>= λ r. done (as_char y ∷ r)) ≡ fault
  fault_then (done y) = refl
  fault_then fault = refl

  round-plain :
      (signed : Bool) (c : ℕ) (rest : List ℕ)
      → c < 256
      → char_value signed c ≡ pos c
      → round signed c (done rest) ≡ done (trans c ∷ rest)
  unfolding call_ctype
  round-plain signed c rest h plain =
      rw plain (ap (λ n. done (n ∷ rest)) (let small = law c h in omega arith))

  call-high :
      (n : ℕ) (rest : Run (List ℕ))
      → 0 < n
      → (call_ctype trans (negsuc n) >>= λ x. rest >>= λ r. done (as_char x ∷ r)) ≡ fault
  unfolding call_ctype
  call-high zero rest h = absurd (omega arith)
  call-high (suc n) rest h = refl

  round-high : (c : ℕ) (rest : Run (List ℕ)) → 128 ≤ c → c < 255 → round true c rest ≡ fault
  unfolding call_ctype
  round-high c rest high below = rw (le→leb 128 c high) (call-high (255 - c) rest (omega arith))

  round-transformed :
      (signed : Bool) (c : ℕ) (text behind : List ℕ)
      → c < 255
      → round signed c (transformed signed text behind) ≡ transformed signed (c ∷ text) behind
  round-transformed false c text behind below =
      round-plain false c (map trans text ++ 0 ∷ behind) (omega arith) refl
  round-transformed true c text behind below = elim (Bool-cases (ltb c 128)) [
    | inl low ↦ elim (Bool-cases (all_ascii text)) [
      | inl ascii ↦
          rw (low, ascii)
            (round-plain true c (map trans text ++ 0 ∷ behind) (omega arith)
              (ground (arith, ltb→lt c 128 low)))
      | inr other ↦ rw (low, other) (fault_then (call_ctype trans (char_value true c)))
    ]
    | inr high ↦ rw high (round-high c (transformed true text behind) (ground (arith, high)) below)
  ]

  loop-transformed :
      (signed : Bool) (text behind : List ℕ)
      → AreChars text
      → string_transform signed trans (text ++ 0 ∷ behind) ≡ transformed signed text behind
  unfolding string_transform
  loop-transformed false [] behind h = refl
  loop-transformed true [] behind h = refl
  loop-transformed signed (c ∷ text) behind (positive, below, h) =
      let differs : (c == 0) ≡ false = ground arith in
      rw (differs, loop-transformed signed text behind h)
        (round-transformed signed c text behind below)

-- What the C standard says of the two functions in the "C" locale: a letter of one case becomes the
-- letter of the other, and all other characters stay.
pub record IsLawful (lib : Ctype) : Type 0 where
  pub toupper_letter : (c : ℕ) → 97 ≤ c → c ≤ 122 → lib.toupper c ≡ c - 32
  pub toupper_low : (c : ℕ) → c < 97 → lib.toupper c ≡ c
  pub toupper_high : (c : ℕ) → 122 < c → c < 256 → lib.toupper c ≡ c
  pub tolower_letter : (c : ℕ) → 65 ≤ c → c ≤ 90 → lib.tolower c ≡ c + 32
  pub tolower_low : (c : ℕ) → c < 65 → lib.tolower c ≡ c
  pub tolower_high : (c : ℕ) → 90 < c → c < 256 → lib.tolower c ≡ c

-- Whether `c` is a letter of the case that begins at `a`.
abbrev pub is_letter : ℕ → ℕ → Bool
is_letter a c = leb a c && leb c (a + 25)

-- The letter in the other case.
abbrev pub upper : ℕ → ℕ
upper c = if is_letter 97 c then c - 32 else c

abbrev pub lower : ℕ → ℕ
lower c = if is_letter 65 c then c + 32 else c

map_same :
    (f g : ℕ → ℕ)
    → ((c : ℕ) → c < 256 → f c ≡ g c)
    → (xs : List ℕ) → AreChars xs
    → map f xs ≡ map g xs
map_same f g same [] h = refl
map_same f g same (x ∷ xs) (positive, below, h) =
    rw (same x (omega arith), map_same f g same xs h) refl

module _ (lib : Ctype) (law : IsLawful lib) where
  toupper-upper : (c : ℕ) → c < 256 → lib.toupper c ≡ upper c
  toupper-upper c small = elim (Bool-cases (leb 97 c)) [
    | inl at_least ↦ elim (Bool-cases (leb c 122)) [
      | inl at_most ↦
          law.toupper_letter c (ground (arith, at_least)) (ground (arith, at_most))
          ∙ sym (rw (at_least, at_most) refl)
      | inr above ↦
          law.toupper_high c (ground (arith, above)) small ∙ sym (rw (at_least, above) refl)
    ]
    | inr below ↦ law.toupper_low c (ground (arith, below)) ∙ sym (rw below refl)
  ]

  tolower-lower : (c : ℕ) → c < 256 → lib.tolower c ≡ lower c
  tolower-lower c small = elim (Bool-cases (leb 65 c)) [
    | inl at_least ↦ elim (Bool-cases (leb c 90)) [
      | inl at_most ↦
          law.tolower_letter c (ground (arith, at_least)) (ground (arith, at_most))
          ∙ sym (rw (at_least, at_most) refl)
      | inr above ↦
          law.tolower_high c (ground (arith, above)) small ∙ sym (rw (at_least, above) refl)
    ]
    | inr below ↦ law.tolower_low c (ground (arith, below)) ∙ sym (rw below refl)
  ]

  toupper-IsCtype : IsCtype lib.toupper
  toupper-IsCtype c h = rw (toupper-upper c h) (ground arith)

  tolower-IsCtype : IsCtype lib.tolower
  tolower-IsCtype c h = rw (tolower-lower c h) (ground arith)

  -- What a string becomes, with what lies behind its zero.
  abbrev pub cased : (ℕ → ℕ) → Bool → List ℕ → List ℕ → Run (List ℕ)
  cased case signed text behind =
      if signed && not (all_ascii text) then fault else done (map case text ++ 0 ∷ behind)

  -- STRING2UPPER and STRING2LOWER, on a string of bytes that are neither 0 nor 255, in the "C"
  -- locale: each letter a to z up to the zero becomes the capital letter, and the other way round,
  -- every other byte and what lies behind the zero stay. Where `char` is signed this holds for
  -- ASCII only: a byte above 127 becomes a negative argument, which is outside what the functions
  -- of the C library are defined on.
  pub string_transform-cased :
      (signed : Bool) (text behind : List ℕ)
      → AreChars text
      → (string2upper signed lib (text ++ 0 ∷ behind) ≡ cased upper signed text behind)
        × (string2lower signed lib (text ++ 0 ∷ behind) ≡ cased lower signed text behind)
  unfolding string2upper string2lower
  string_transform-cased signed text behind h = (
    rw (← map_same lib.toupper upper toupper-upper text h)
        (loop-transformed lib.toupper toupper-IsCtype signed text behind h),
    rw (← map_same lib.tolower lower tolower-lower text h)
        (loop-transformed lib.tolower tolower-IsCtype signed text behind h),
  )
