-- ===== src/MsgQueueJni/Push/Retry.antt =====
-- On toolbox/src/main/cpp/jni_msg_queue_handler.c.
-- The retry loop of pushMsg: where it stops, and what it leaves in the queue.
use my_toolbox.Base.{
  ℕ, zero, suc, ◌≡◌, refl, sym, ◌∙◌, ◌⊎◌, inl, inr, ◌<◌, ◌≢◌, some, List, [], ◌∷◌, ◌++◌, append-nil,
  append_assoc, arith, done,
}
use my_toolbox.Lcu.Handler.{
  Handler, IsLawful, Message, Code, success, generic_fail, null_handle, again, empty, full,
  buf_not_enough,
}
use my_toolbox.MsgQueueJni.{QueueMsg}
use my_toolbox.MsgQueueJni.Push.{message_of, push_in, rounds}

Code-full : (c : Code) → (c ≡ full) ⊎ (c ≢ full)
Code-full full = inl refl
Code-full success = inr (λ p. cc)
Code-full generic_fail = inr (λ p. cc)
Code-full null_handle = inr (λ p. cc)
Code-full again = inr (λ p. cc)
Code-full empty = inr (λ p. cc)
Code-full buf_not_enough = inr (λ p. cc)

-- What a push that ends with a code has put into the queue.
abbrev pub sent : Code → Message → List Message
sent success m = m ∷ []
sent _ m = []

module _ (A : Handler) (wait : ℕ → A.Queue → A.Queue) (msg : Message) where
  -- The queue at the `i`-th attempt of `k`, where all before it have met a full queue.
  unfoldable pub queue_at : ℕ → A.Queue → ℕ → A.Queue
  queue_at k q zero = q
  queue_at zero q (suc i) = q
  queue_at (suc k) q (suc i) = queue_at k (wait k (A.push q msg).0) i

  abbrev pub code_at : ℕ → A.Queue → ℕ → Code
  code_at k q i = (A.push (queue_at k q i) msg).1

  module _ (m : QueueMsg) (fits : message_of m ≡ some msg) where
    push_in-push : (q : A.Queue) → push_in A q (some m) ≡ done (A.push q msg)
    unfolding push_in
    push_in-push q = ground arith

    rounds-full :
        (k : ℕ) (q : A.Queue) (c : Code)
        → (A.push q msg).1 ≡ full
        → rounds A wait (suc k) (some m) (q, c)
          ≡ rounds A wait k (some m) (wait k (A.push q msg).0, full)
    unfolding rounds
    rounds-full k q c e = ground (arith, push_in-push q)

    rounds-stop :
        (k : ℕ) (q : A.Queue) (c : Code)
        → (A.push q msg).1 ≢ full
        → rounds A wait (suc k) (some m) (q, c) ≡ done (A.push q msg)
    unfolding rounds
    rounds-stop k q c e = ground (arith, push_in-push q)

    -- The loop stops at the first attempt that does not meet a full queue, with that attempt's
    -- code.
    pub rounds-queue_at :
        (k i : ℕ) (q : A.Queue) (c : Code)
        → i < k
        → ((j : ℕ) → j < i → code_at k q j ≡ full)
        → code_at k q i ≢ full
        → rounds A wait k (some m) (q, c) ≡ done (A.push (queue_at k q i) msg)
    unfolding queue_at
    rounds-queue_at zero i q c h before stop = absurd (omega arith)
    rounds-queue_at (suc k) zero q c h before stop = rounds-stop k q c stop
    rounds-queue_at (suc k) (suc i) q c h before stop =
        rw (rounds-full k q c (before 0 (omega arith)))
          (rounds-queue_at k i _ full (omega arith) (λ j lt. before (suc j) (omega arith)) stop)

    -- If every attempt meets a full queue, the loop gives up after the last, with that code.
    pub rounds-exhausted :
        (k : ℕ) (q : A.Queue)
        → ((j : ℕ) → j < k → code_at k q j ≡ full)
        → rounds A wait k (some m) (q, full) ≡ done (queue_at k q k, full)
    unfolding queue_at rounds
    rounds-exhausted zero q all = refl
    rounds-exhausted (suc k) q all =
        rw (rounds-full k q full (all 0 (omega arith)))
          (rounds-exhausted k _ (λ j lt. all (suc j) (omega arith)))

    -- The same from any code, where there is a round at all.
    pub rounds-exhausted_from :
        (k : ℕ) (q : A.Queue) (c : Code)
        → ((j : ℕ) → j < suc k → code_at (suc k) q j ≡ full)
        → rounds A wait (suc k) (some m) (q, c) ≡ done (queue_at (suc k) q (suc k), full)
    unfolding queue_at
    rounds-exhausted_from k q c all =
        rw (rounds-full k q c (all 0 (omega arith)))
          (rounds-exhausted k _ (λ j lt. all (suc j) (omega arith)))

-- The queue's content after the loop: a rest of what was there, and the message if it was sent.
pub record Log (A : Handler) (msg : Message) (q q' : A.Queue) (code : Code) : Type 0 where
  pub taken : List Message
  pub kept : List Message
  pub before : taken ++ kept ≡ A.pending q
  pub after : A.pending q' ≡ kept ++ sent code msg

-- While pushMsg sleeps, messages leave the queue at its front only.
abbrev pub Consumes : (A : Handler) → (ℕ → A.Queue → A.Queue) → Type 0
Consumes A wait =
    (k : ℕ) (q : A.Queue) → (taken : List Message) × (taken ++ A.pending (wait k q) ≡ A.pending q)

sent-failed : (c : Code) (m : Message) → c ≢ success → sent c m ≡ []
sent-failed success m bad = absurd (bad refl)
sent-failed generic_fail m bad = refl
sent-failed null_handle m bad = refl
sent-failed again m bad = refl
sent-failed empty m bad = refl
sent-failed full m bad = refl
sent-failed buf_not_enough m bad = refl

module _ (A : Handler) (L : IsLawful A) (msg : Message) where
  Log-push : (q : A.Queue) (c : Code) → (A.push q msg).1 ≡ c → Log A msg q (A.push q msg).0 c
  Log-push q success e = record {
    taken = [];
    kept = A.pending q;
    before = refl;
    after = L.pending-push q msg e;
  }
  Log-push q c e = record {
    taken = [];
    kept = A.pending q;
    before = refl;
    after = L.pending-push_failed q msg (rw e (cc)) ∙ sym (append-nil (A.pending q));
  }

  Log-same : (q : A.Queue) (c : Code) → c ≢ success → Log A msg q q c
  Log-same q c bad = record {
    taken = [];
    kept = A.pending q;
    before = refl;
    after = rw (sent-failed c msg bad) (sym (append-nil (A.pending q)));
  }

  Log-wait :
      (q q' r : A.Queue) (c : Code) (gone : List Message)
      → gone ++ A.pending q' ≡ A.pending q
      → Log A msg q' r c
      → Log A msg q r c
  Log-wait q q' r c gone e l = record {
    taken = gone ++ l.taken;
    kept = l.kept;
    before = rw append_assoc (rw l.before e);
    after = l.after;
  }

  -- The loop ends, and its queue is told by a log.
  pub rounds-Log :
      (wait : ℕ → A.Queue → A.Queue)
      → Consumes A wait
      → (m : QueueMsg) → message_of m ≡ some msg
      → (k : ℕ) (q : A.Queue) (c : Code) → c ≢ success
      → (q' : A.Queue) × (c' : Code) × (rounds A wait k (some m) (q, c) ≡ done (q', c'))
        × Log A msg q q' c'
  unfolding rounds
  rounds-Log wait consumes m fits zero q c bad = (q, c, refl, Log-same q c bad)
  rounds-Log wait consumes m fits (suc k) q c bad = elim (Code-full (A.push q msg).1) [
    | inl is_full ↦
        let full_bad : full ≢ success = λ p. cc in
        let q1 = (A.push q msg).0 in
        let (gone, e) = consumes k q1 in
        let (q', c', runs, l) = rounds-Log wait consumes m fits k (wait k q1) full full_bad in
        (
          q',
          c',
          rounds-full A wait msg m fits k q c is_full ∙ runs,
          Log-wait q (wait k q1) q' c' gone (e ∙ L.pending-push_failed q msg (rw is_full full_bad))
              l,
        )
    | inr stop ↦ (
      (A.push q msg).0,
      (A.push q msg).1,
      rounds-stop A wait msg m fits k q c stop,
      Log-push q (A.push q msg).1 refl,
    )
  ]
