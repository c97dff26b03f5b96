-- ===== src/LocalSocketServer.antt =====
-- toolbox/src/main/cpp/local_socket_server.c: the server behind its handle, the thread that it
-- starts, and the reading of a buffer. The system calls answer by their arguments here.
pub mod Reading
pub mod Sockets
mod Tests
use my_toolbox.Base.{
  ℕ, zero, suc, ◌+◌, ◌-◌, ◌≡◌, Option, none, some, List, [], ◌∷◌, ◌++◌, Bool, true, false, not,
  ◌==◌, if◌then◌else◌, Run, done, fault, ℤ, pos, negsuc, lt_nat, length,
}

-- server_config_t, less its two callbacks, which nothing calls.
pub record Config : Type 0 where
  pub socket_name : List ℕ
  pub once_read_size : ℤ

-- socket_server_t. `none` is the thread id -1; a descriptor is a C `int`.
pub record Server : Type 0 where
  pub config : Config
  pub process_thread_id : Option ℕ
  pub client_fd : ℤ
  pub flag_exit : Bool

-- What the process has done: its blocks of `malloc`, the open descriptors that `socket` has given
-- the thread, and those that it has closed, the last one first, and the seconds that the thread
-- has slept.
pub record Process : Type 0 where
  pub blocks : ℕ
  pub sockets : List ℤ
  pub closed : List ℤ
  pub slept : ℕ

abbrev pub is_invalid : ℤ → Bool
is_invalid (pos n) = false
is_invalid (negsuc n) = n == 0

unfoldable pub close_socket : Server → Process → Server × Process
close_socket s p =
    if is_invalid s.client_fd
    then (s, p)
    else (record s { client_fd = negsuc 0 }, record p { closed = s.client_fd ∷ p.closed })

-- What a start gives back: its result, and what `*handle_p` is then.
pub record Started : Type 0 where
  pub ret : ℤ
  pub handle : Option Server
  pub process : Process

-- local_socket_server_start. `junk` is what `malloc` has left where `client_fd` lies; `created`
-- is the result of `pthread_create`, with the thread's id if it is 0.
unfoldable pub start :
    Bool → (junk : ℤ) → (created : ℤ) → ℕ → Config → Option Server → Process → Started
start false junk created id config handle p = record {
  ret = negsuc 0;
  handle = handle;
  process = p;
}
start true junk (pos zero) id config handle p = record {
  ret = pos 0;
  handle = some (record {
    config = config;
    process_thread_id = some id;
    client_fd = junk;
    flag_exit = false;
  });
  process = record p { blocks = p.blocks + 1 };
}
start true junk (pos (suc e)) id config handle p = record {
  ret = pos (suc e);
  handle = none;
  process = p;
}
start true junk (negsuc e) id config handle p = record {
  ret = negsuc e;
  handle = none;
  process = p;
}

-- The part of local_socket_server_stop that waits for the thread.
unfoldable pub join : Server → Process → Server × Process
join s p = elim (s.process_thread_id) [
  | none ↦ (s, p)
  | some _ ↦ let (s', p') = close_socket s p in (record s' { process_thread_id = none }, p')
]

unfoldable pub stop : Option Server → Process → Started
stop none p = record { ret = negsuc 0; handle = none; process = p }
stop (some s) p =
    let (s', p') = join (record s { flag_exit = true }) p in
    record { ret = pos 0; handle = none; process = record p' { blocks = p'.blocks - 1 } }

-- The answers of a round of the thread: the results of `socket`, `bind` and `listen`.
pub record Round : Type 0 where
  pub socket : ℤ
  pub bind : ℤ
  pub listen : ℤ

abbrev pub is_zero : ℤ → Bool
is_zero (pos n) = n == 0
is_zero (negsuc n) = false

abbrev pub same_fd : ℤ → ℤ → Bool
same_fd (pos m) (pos n) = m == n
same_fd (pos m) (negsuc n) = false
same_fd (negsuc m) (pos n) = false
same_fd (negsuc m) (negsuc n) = m == n

-- The open descriptors after a `close`.
abbrev pub without : ℤ → List ℤ → List ℤ
without fd [] = []
without fd (x ∷ xs) = if same_fd fd x then xs else x ∷ without fd xs

-- label_close_server_sockfd
unfoldable pub close_server_sockfd : (server_sockfd : ℤ) → Process → Process
close_server_sockfd server_sockfd p =
    if is_invalid server_sockfd
    then p
    else record p { sockets = without server_sockfd p.sockets; closed = server_sockfd ∷ p.closed }

-- The body of the loop of thread_fun_socket_server.
unfoldable pub round : Round → Process → Process
round r p =
    if lt_nat r.socket 0
    then close_server_sockfd r.socket (record p { slept = p.slept + 2 })
    else let opened = record p { sockets = r.socket ∷ p.sockets } in
      if not (is_zero r.bind)
      then close_server_sockfd r.socket (record opened { slept = opened.slept + 2 })
      else if not (is_zero r.listen)
      then close_server_sockfd r.socket (record opened { slept = opened.slept + 1 })
      else close_server_sockfd r.socket opened

-- The loop, for the rounds that begin before `flag_exit` is seen.
unfoldable pub thread_fun : List Round → Process → Process
thread_fun [] p = p
thread_fun (r ∷ rounds) p = thread_fun rounds (round r p)

-- read_buffer over a source of bytes: `read left s` is what `read` gives for `left` bytes at
-- most, the empty list for a result of 0 or below. The fuel bounds the rounds.
module _ {S : Type 0} (read : ℕ → S → List ℕ × S) where
  unfoldable pub read_buffer : (fuel left : ℕ) → List ℕ → S → Run (List ℕ × S)
  read_buffer zero left got s = fault
  read_buffer (suc fuel) left got s =
      let (chunk, s') = read left s in
      let more = read_buffer fuel (left - length chunk) (got ++ chunk) s' in
      if left == 0 then done (got, s) else (if length chunk == 0 then done (got, s') else more)
