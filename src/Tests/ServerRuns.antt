-- ===== src/Tests/ServerRuns.antt =====
-- The alarm server with one slot: a connection, one too many, and the end of the first.
use mathlib.Core.List.{Perm}
use pytvt.Alarm.Server.{
  Received, chunk, timed_out, AlarmServer, new_server, serve, finish, connect, ended, Serves, idle,
  later,
}
use pytvt.Alarm.Server.Slots.{server_conserves}
use pytvt.Prelude.{◌+◌, ◌≡◌, refl, true, some, List, [], ◌∷◌, ◌++◌, length}

abbrev one_slot : AlarmServer
one_slot = record { max_connections = 1; slots = 1; threads = []; accepted = []; closed = [] }

one_slot-made : new_server 1 ≡ some one_slot
unfolding new_server
one_slot-made = refl

abbrev refused_second : AlarmServer
refused_second = (serve 2 true (serve 1 true one_slot).1).1

abbrev first_ended : AlarmServer
first_ended = finish 1 [] refused_second

first_ended-reached : Serves one_slot first_ended
unfolding serve
first_ended-reached =
    later (later (later idle (connect 1 true one_slot)) (connect 2 true (serve 1 true one_slot).1))
      (ended 1 [] [] refused_second refl)

server_conserves_example :
    (first_ended.slots + length first_ended.threads ≡ 1)
    × Perm (first_ended.threads ++ first_ended.closed) first_ended.accepted
server_conserves_example = server_conserves 1 one_slot first_ended one_slot-made first_ended-reached

-- The second connection is closed at once, the first at its end.
closed_in_turn : first_ended.closed ≡ 1 ∷ 2 ∷ []
unfolding serve finish
closed_in_turn = refl

abbrev answers : List Received
answers = chunk (123 ∷ []) ∷ chunk (125 ∷ []) ∷ timed_out ∷ chunk (0 ∷ []) ∷ []
