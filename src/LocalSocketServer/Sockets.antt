-- ===== src/LocalSocketServer/Sockets.antt =====
-- What toolbox/src/main/cpp/local_socket_server.c opens and closes.
use my_toolbox.Base.{
  ℕ, zero, suc, ◌≡◌, ◌<◌, refl, ap, Option, none, List, [], ◌∷◌, true, if◌then◌else◌, ℤ, pos,
  negsuc, lt_nat, arith, ◌∙◌, Bool-cases, ◌⊎◌, inl, inr,
}
use my_toolbox.LocalSocketServer.{
  Config, Server, Process, close_socket, is_invalid, start, join, stop, Round, close_server_sockfd,
  round, thread_fun, same_fd,
}

abbrev pub IsNat : ℤ → Type 0
IsNat (pos n) = Unit
IsNat (negsuc n) = 1 < 0

-- `socket` gives a descriptor, or -1.
abbrev pub AreDescriptors : List Round → Type 0
AreDescriptors [] = Unit
AreDescriptors (r ∷ rounds) = ((r.socket ≡ negsuc 0) ⊎ IsNat r.socket) × AreDescriptors rounds

-- The descriptors that `socket` has given, the last one first, in front of others.
unfoldable pub given_onto : List Round → List ℤ → List ℤ
given_onto [] fds = fds
given_onto (r ∷ rounds) fds = given_onto rounds (if lt_nat r.socket 0 then fds else r.socket ∷ fds)

same_fd_refl : (fd : ℤ) → same_fd fd fd ≡ true
same_fd_refl (pos n) = ground arith
same_fd_refl (negsuc n) = ground arith

round-given :
    (fd : ℤ) (r : Round) (p : Process)
    → r.socket ≡ fd
    → (fd ≡ negsuc 0) ⊎ IsNat fd
    → ((round r p).sockets ≡ p.sockets)
      × ((round r p).closed ≡ (if lt_nat fd 0 then p.closed else fd ∷ p.closed))
unfolding round close_server_sockfd
round-given (pos n) r p e h =
    let same = same_fd_refl (pos n) in (rw e (ground arith), rw e (ground arith))
round-given (negsuc zero) r p e h = (rw e refl, rw e refl)
round-given (negsuc (suc n)) r p e (inl h) = absurd (ground arith)
round-given (negsuc (suc n)) r p e (inr h) = absurd (omega arith)

-- Whatever `socket`, `bind` and `listen` answer in however many rounds, if `socket` gives a
-- descriptor or -1: the thread ends with the open sockets with which it began, and what it has
-- closed are the descriptors that `socket` gave it, each of them once, in their order.
pub thread_fun-sockets :
    (rounds : List Round) (p : Process)
    → AreDescriptors rounds
    → ((thread_fun rounds p).sockets ≡ p.sockets)
      × ((thread_fun rounds p).closed ≡ given_onto rounds p.closed)
unfolding thread_fun given_onto
thread_fun-sockets [] p h = (refl, refl)
thread_fun-sockets (r ∷ rounds) p h =
    let (s, c) = thread_fun-sockets rounds (round r p) h.1 in
    let (s', c') = round-given r.socket r p refl h.0 in (s ∙ s', c ∙ ap (given_onto rounds) c')

-- A server that was started and is stopped gives back its block and leaves no handle; but stop
-- closes the descriptor that happened to lie where malloc put `client_fd`, which nothing ever
-- sets, unless it was -1.
pub stop-start :
    (junk : ℤ) (id : ℕ) (config : Config) (handle : Option Server) (p : Process)
    → let started = start true junk (pos 0) id config handle p in
      let stopped = stop started.handle started.process in
      (started.ret ≡ pos 0)
      × (stopped.ret ≡ pos 0)
      × (stopped.handle ≡ none)
      × (stopped.process.blocks ≡ p.blocks)
      × (stopped.process.closed ≡ (if is_invalid junk then p.closed else junk ∷ p.closed))
unfolding start stop join close_socket
stop-start junk id config handle p = elim (Bool-cases (is_invalid junk)) [
  | inl e ↦ rw e (refl, refl, refl, ground arith, refl)
  | inr e ↦ rw e (refl, refl, refl, ground arith, refl)
]
