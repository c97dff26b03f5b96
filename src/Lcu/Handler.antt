-- ===== src/Lcu/Handler.antt =====
-- The message queue handler of lcu/ring/msg_queue_handler.h and lcu/ring/msg_queue_errno.h.
use my_toolbox.Base.{ℕ, ◌≡◌, ◌≢◌, Option, some, List, [], ◌∷◌, ◌++◌, ℤ, pos}

-- msg_q_handler_status_e; `other` is a value of the C `int` outside the enumeration.
pub data Status : Type 0 where
  ready_to_go about_to_stop : Status
  other : ℕ → Status

-- msg_q_code_e
pub data Code : Type 0 where
  success generic_fail null_handle again empty full buf_not_enough : Code

-- The C value of a code.
abbrev pub code_value : Code → ℤ
code_value success = pos 0
code_value generic_fail = pos 1
code_value null_handle = pos 2
code_value again = pos 3
code_value empty = pos 4
code_value full = pos 5
code_value buf_not_enough = pos 6

-- A queue_msg_t as the queue holds it: `obj` is its payload of `obj_len` bytes.
pub record Message : Type 0 where
  pub what : ℤ
  pub arg1 : ℤ
  pub arg2 : ℤ
  pub obj_len : ℤ
  pub obj : List ℕ

-- `pending` is the queue's content, oldest first; no function of the header shows it.
pub record Handler : Type 1 where
  pub Queue : Type 0
  pub create : ℕ → Option Queue
  pub push : Queue → Message → Queue × Code
  pub pending : Queue → List Message

-- What the header documents: a push that returns 0 has put the message at the tail, any other
-- push has failed.
pub record IsLawful (A : Handler) : Type 0 where
  pub pending-create : (n : ℕ) (q : A.Queue) → A.create n ≡ some q → A.pending q ≡ []
  pub pending-push :
      (q : A.Queue) (m : Message)
      → (A.push q m).1 ≡ success
      → A.pending (A.push q m).0 ≡ A.pending q ++ m ∷ []
  pub pending-push_failed :
      (q : A.Queue) (m : Message)
      → (A.push q m).1 ≢ success
      → A.pending (A.push q m).0 ≡ A.pending q
