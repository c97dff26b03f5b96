-- ===== src/Lcu/AutoCover.antt =====
-- The auto cover buffer of lcu/ring/autocover_buffer.h, behind its documentation.
use my_toolbox.Base.{ℕ, ◌≡◌, ◌≤◌, ◌<◌, ◌⊎◌, Option, List, ℤ, pos, negsuc}

-- auto_cover_buf_create without a lock, _available_read, _read and _write. A handle is `none` if
-- it is NULL. What is read comes back as a list behind the result; `write` is given the bytes
-- behind the source pointer.
pub record AutoCover : Type 1 where
  pub Buffer : Type 0
  pub create : ℕ → Option Buffer
  pub available_read : Option Buffer → (read_pos : ℕ) → ℤ
  pub read : Option Buffer → (read_pos req_read_len : ℕ) → ℤ × List ℕ
  pub write : Option Buffer → List ℕ → (write_len : ℕ) → ℤ × Option Buffer

-- auto_cover_buf_error_code: -1 to -4.
abbrev pub IsErrorCode : ℤ → Type 0
IsErrorCode code = (k : ℕ) × (code ≡ negsuc k) × (k < 4)

-- A number of bytes, at most `n`.
abbrev pub IsCount : ℕ → ℤ → Type 0
IsCount n ret = (k : ℕ) × (ret ≡ pos k) × (k ≤ n)

-- What the header documents: a write gives the bytes' number or an error code.
pub record IsLawful (A : AutoCover) : Type 0 where
  pub write_answer :
      (b : Option A.Buffer) (source : List ℕ) (n : ℕ)
      → IsCount n (A.write b source n).0 ⊎ IsErrorCode (A.write b source n).0
