-- ===== src/LocalSocketServer/Tests.antt =====
-- Runs of toolbox/src/main/cpp/local_socket_server.c.
use my_toolbox.Base.{
  ℕ, ◌≡◌, refl, ◌≤◌, inl, inr, none, List, [], ◌∷◌, true, min, done, pos, negsuc, length,
  length-take, take, drop, arith,
}
use my_toolbox.LocalSocketServer.{
  Config, Process, start, stop, Round, thread_fun, round, close_server_sockfd, read_buffer,
}
use my_toolbox.LocalSocketServer.Reading.{IsBounded, Reads, read_buffer-Reads}
use my_toolbox.LocalSocketServer.Sockets.{given_onto, thread_fun-sockets, stop-start}

-- A socket that gives two bytes at most at once.
abbrev by_two : ℕ → List ℕ → List ℕ × List ℕ
by_two n s = (take (min n 2) s, drop (min n 2) s)

by_two-IsBounded : IsBounded by_two
by_two-IsBounded n s = omega (arith, length-take (min n 2) s)

read_buffer-by_two : read_buffer by_two 4 3 [] (1 ∷ 2 ∷ 3 ∷ 4 ∷ []) ≡ done (1 ∷ 2 ∷ 3 ∷ [], 4 ∷ [])
unfolding read_buffer
read_buffer-by_two = refl

read_buffer-Reads_example :
    (bytes : List ℕ) × (s' : List ℕ) × (read_buffer by_two 4 3 [] (1 ∷ 2 ∷ 3 ∷ 4 ∷ [])
      ≡ done (bytes, s'))
    × Reads by_two 3 (1 ∷ 2 ∷ 3 ∷ 4 ∷ []) bytes s'
    × (length bytes ≤ 3)
read_buffer-Reads_example = read_buffer-Reads by_two 3 (1 ∷ 2 ∷ 3 ∷ 4 ∷ []) by_two-IsBounded

abbrev quiet : Process
quiet = record { blocks = 0; sockets = pos 4 ∷ []; closed = []; slept = 0 }

abbrev bad_rounds : List Round
bad_rounds =
    record { socket = negsuc 0; bind = pos 0; listen = pos 0 }
    ∷ record { socket = pos 5; bind = negsuc 0; listen = pos 0 }
    ∷ record { socket = pos 6; bind = pos 0; listen = pos 0 }
    ∷ []

thread_fun-slept : (thread_fun bad_rounds quiet).slept ≡ 4
unfolding thread_fun round close_server_sockfd
thread_fun-slept = refl

thread_fun-sockets_example :
    ((thread_fun bad_rounds quiet).sockets ≡ pos 4 ∷ [])
    × ((thread_fun bad_rounds quiet).closed ≡ pos 6 ∷ pos 5 ∷ [])
unfolding given_onto
thread_fun-sockets_example = thread_fun-sockets bad_rounds quiet (inl refl, (inr tt, (inr tt, tt)))

abbrev config : Config
config = record { socket_name = 115 ∷ []; once_read_size = pos 16 }

stop-start_example :
    let started = start true (pos 7) (pos 0) 3 config none quiet in
    let stopped = stop started.handle started.process in
    (started.ret ≡ pos 0)
    × (stopped.ret ≡ pos 0)
    × (stopped.handle ≡ none)
    × (stopped.process.blocks ≡ 0)
    × (stopped.process.closed ≡ pos 7 ∷ [])
stop-start_example = stop-start (pos 7) 3 config none quiet
