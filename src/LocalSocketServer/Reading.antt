-- ===== src/LocalSocketServer/Reading.antt =====
-- read_buffer of toolbox/src/main/cpp/local_socket_server.c: that it ends, and which reads it made.
use my_toolbox.Base.{
  ℕ, zero, suc, ◌+◌, ◌-◌, ◌≡◌, refl, ◌≤◌, ◌<◌, inl, inr, Bool-cases, false, List, [], ◌++◌,
  append_assoc, append-nil, ◌==◌, ◌∙◌, ap, done, length, length-append, arith,
}
use my_toolbox.LocalSocketServer.{read_buffer}

module _ {S : Type 0} (read : ℕ → S → List ℕ × S) where
  -- `read` gives no more than it is asked for.
  abbrev pub IsBounded : Type 0
  IsBounded = (n : ℕ) (s : S) → length (read n s).0 ≤ n

  -- `s'` is what is left of the source when reads for `left` bytes have given `bytes`: none is
  -- made for no bytes, an empty one is the last, and after another one the reads are for what is
  -- missing.
  pub data Reads : (left : ℕ) → S → List ℕ → S → Type 0 where
    full :
        {left : ℕ} {s : S} {bytes : List ℕ} {s' : S}
        → left ≡ 0
        → bytes ≡ []
        → s' ≡ s
        → Reads left s bytes s'
    dry :
        {left : ℕ} {s : S} {bytes : List ℕ} {s' : S}
        → 0 < left
        → length (read left s).0 ≡ 0
        → bytes ≡ []
        → s' ≡ (read left s).1
        → Reads left s bytes s'
    chunk :
        {left : ℕ} {s : S} {bytes rest : List ℕ} {s' : S}
        → 0 < left
        → 0 < length (read left s).0
        → Reads (left - length (read left s).0) (read left s).1 rest s'
        → bytes ≡ (read left s).0 ++ rest
        → Reads left s bytes s'

  abbrev Outcome : ℕ → ℕ → List ℕ → S → Type 0
  Outcome fuel left got s =
      (bytes : List ℕ) × (s' : S) × (read_buffer read fuel left got s ≡ done (got ++ bytes, s'))
      × Reads left s bytes s'
      × (length bytes ≤ left)

  after_chunk :
      (fuel left : ℕ) (got : List ℕ) (s : S)
      → IsBounded
      → (left == 0) ≡ false
      → (length (read left s).0 == 0) ≡ false
      → Outcome fuel (left - length (read left s).0) (got ++ (read left s).0) (read left s).1
      → Outcome (suc fuel) left got s
  unfolding read_buffer
  after_chunk fuel left got s bounded some_left nonempty (rest, s', runs, reads, small) = (
    (read left s).0 ++ rest,
    s',
    rw (some_left, nonempty)
        (runs ∙ ap (λ b. done (b, s')) (append_assoc got (read left s).0 rest)),
    chunk (ground arith) (ground arith) reads refl,
    omega (arith, length-append (read left s).0 rest, bounded left s),
  )

  read_buffer-from :
      (fuel left : ℕ) (got : List ℕ) (s : S) → IsBounded → left < fuel → Outcome fuel left got s
  unfolding read_buffer
  read_buffer-from zero left got s bounded h = absurd (omega arith)
  read_buffer-from (suc fuel) left got s bounded h = elim (Bool-cases (left == 0)) [
    | inl e ↦ ([], s, rw (e, append-nil) refl, full (ground arith) refl refl, omega arith)
    | inr e ↦ elim (Bool-cases (length (read left s).0 == 0)) [
      | inl d ↦ (
        [],
        (read left s).1,
        rw (e, d, append-nil) refl,
        dry (ground arith) (ground arith) refl refl,
        omega arith,
      )
      | inr d ↦ after_chunk fuel left got s bounded e d (
          read_buffer-from fuel (left - length (read left s).0) (got ++ (read left s).0)
            (read left s).1 bounded (ground arith))
    ]
  ]

  -- read_buffer ends after `left` rounds at most, if a read gives no more bytes than it is asked
  -- for, and gives the bytes of the reads, in their order and `left` at most: each read is for
  -- what is still missing, and only an empty one or the last missing byte ends them.
  pub read_buffer-Reads :
      (left : ℕ) (s : S)
      → IsBounded
      → (bytes : List ℕ) × (s' : S) × (read_buffer read (left + 1) left [] s ≡ done (bytes, s'))
        × Reads left s bytes s'
        × (length bytes ≤ left)
  read_buffer-Reads left s bounded = read_buffer-from (left + 1) left [] s bounded (omega arith)
