-- ===== src/AutoCoverBufferJni/Tests.antt =====
-- On toolbox/src/main/cpp/jni_auto_cover_buffer.c.
-- A log that answers reads behind its first byte, and the theorems over it at concrete data.
use my_toolbox.Base.{
  ℕ, ◌-◌, ◌≡◌, refl, ◌⊎◌, inl, inr, Option, none, some, List, [], ◌∷◌, ◌++◌, done, ℤ, pos, negsuc,
  length, take, drop, arith,
}
use my_toolbox.JavaArray.{store_at}
use my_toolbox.Lcu.AutoCover.{AutoCover, IsLawful, IsErrorCode, IsCount}
use my_toolbox.AutoCoverBufferJni.{read}

abbrev log_read : Option (List ℕ) → ℕ → ℕ → ℤ × List ℕ
log_read none read_pos n = (negsuc 0, [])
log_read (some b) read_pos n = (pos (length (take n (drop read_pos b))), take n (drop read_pos b))

abbrev log_write : Option (List ℕ) → List ℕ → ℕ → ℤ × Option (List ℕ)
log_write none source n = (negsuc 0, none)
log_write (some b) source n = (pos n, some (b ++ take n source))

abbrev log_available : Option (List ℕ) → ℕ → ℤ
log_available none read_pos = negsuc 0
log_available (some b) read_pos = pos (length b - read_pos)

abbrev pub log : AutoCover
log = record {
  Buffer = List ℕ;
  create = λ n. some [];
  available_read = log_available;
  read = log_read;
  write = log_write;
}

log_write-answer :
    (b : Option (List ℕ)) (source : List ℕ) (n : ℕ)
    → IsCount n (log_write b source n).0 ⊎ IsErrorCode (log_write b source n).0
log_write-answer none source n = inr (0, refl, omega arith)
log_write-answer (some b) source n = inl (n, refl, omega arith)

pub log-IsLawful : IsLawful log
log-IsLawful = record { write_answer = log_write-answer }

-- Three bytes are wanted from the second on, and two are there.
read-two :
    read log (some (7 ∷ 8 ∷ 9 ∷ [])) (pos 1) (some (0 ∷ 0 ∷ 0 ∷ 0 ∷ [])) (pos 1) (pos 3)
    ≡ done (record { ret = pos 2; buffer = some (7 ∷ 8 ∷ 9 ∷ []); array = 0 ∷ 8 ∷ 9 ∷ 0 ∷ [] })
unfolding read store_at
read-two = refl
