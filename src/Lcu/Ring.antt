-- ===== src/Lcu/Ring.antt =====
-- The ring buffer of lcu/ring/ringbuffer.h, behind its documentation.
use my_toolbox.Base.{ℕ, ◌-◌, ◌≡◌, min, Option, List, [], ◌++◌, length, take, drop}

-- RingBuffer_create, _available_read, _available_write, _read, _peek, _discard, _write and _clear.
-- What is read comes back as a list, and `write` is given the bytes behind the source pointer.
-- `contents` and `capacity` are the view that the documentation speaks of.
pub record Ring : Type 1 where
  pub Buffer : Type 0
  pub create : ℕ → Option Buffer
  pub available_read : Buffer → ℕ
  pub available_write : Buffer → ℕ
  pub read : Buffer → ℕ → Buffer × List ℕ
  pub peek : Buffer → ℕ → List ℕ
  pub discard : Buffer → ℕ → Buffer × ℕ
  pub write : Buffer → List ℕ → ℕ → Buffer × ℕ
  pub clear : Buffer → Buffer
  pub contents : Buffer → List ℕ
  pub capacity : Buffer → ℕ

-- What the header documents of them.
pub record IsLawful (R : Ring) : Type 0 where
  pub available_read : (b : R.Buffer) → R.available_read b ≡ length (R.contents b)
  pub available_write : (b : R.Buffer) → R.available_write b ≡ R.capacity b - length (R.contents b)
  pub read_bytes : (b : R.Buffer) (n : ℕ) → (R.read b n).1 ≡ take n (R.contents b)
  pub read_rest : (b : R.Buffer) (n : ℕ) → R.contents (R.read b n).0 ≡ drop n (R.contents b)
  pub read_capacity : (b : R.Buffer) (n : ℕ) → R.capacity (R.read b n).0 ≡ R.capacity b
  pub peek_bytes : (b : R.Buffer) (n : ℕ) → R.peek b n ≡ take n (R.contents b)
  pub discard_count : (b : R.Buffer) (n : ℕ) → (R.discard b n).1 ≡ min n (length (R.contents b))
  pub discard_rest : (b : R.Buffer) (n : ℕ) → R.contents (R.discard b n).0 ≡ drop n (R.contents b)
  pub discard_capacity : (b : R.Buffer) (n : ℕ) → R.capacity (R.discard b n).0 ≡ R.capacity b
  pub write_count :
      (b : R.Buffer) (source : List ℕ) (n : ℕ)
      → (R.write b source n).1 ≡ min n (R.available_write b)
  pub write_bytes :
      (b : R.Buffer) (source : List ℕ) (n : ℕ)
      → R.contents (R.write b source n).0
        ≡ R.contents b ++ take (min n (R.available_write b)) source
  pub write_capacity :
      (b : R.Buffer) (source : List ℕ) (n : ℕ) → R.capacity (R.write b source n).0 ≡ R.capacity b
  pub clear_bytes : (b : R.Buffer) → R.contents (R.clear b) ≡ []
  pub clear_capacity : (b : R.Buffer) → R.capacity (R.clear b) ≡ R.capacity b
