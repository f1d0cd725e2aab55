-- ===== src/Examples/Sessions.antt =====
-- The threads of the server, at concrete inputs.
use hybrid_ftp.Base.{refl, false, none, [], ◌∷◌, arith}
use hybrid_ftp.Udp.Socket.{close_descriptor}
use hybrid_ftp.Server.{
  ServerState, filled, add_record, clients_add, all_inactive, server_init, end_session,
}
use hybrid_ftp.Server.Table.{is_full}
use hybrid_ftp.Server.Sessions.{
  World, times, client_comes, thread_closes, thread_ends, History, at_first, then_also, new_world,
  IsCounted, table-IsCounted,
}

abbrev two_places : ServerState
two_places = record {
  listen_fd = none;
  server_port = 0;
  is_running = false;
  clients = filled 3 [] 1 ∷ filled 4 [] 2 ∷ [];
}

-- A client comes with descriptor 7 and its thread closes it; the next client gets 7 again, and then the
-- first thread gives up its record.
abbrev one_came : World
one_came = record {
  table = (clients_add (new_world two_places 2121 5).table 7 [] 100).0;
  serving = 7 ∷ [];
  closed_ones = [];
}

abbrev one_closed : World
one_closed = record {
  table = one_came.table;
  serving = close_descriptor 7 (7 ∷ []);
  closed_ones = 7 ∷ [];
}

abbrev two_came : World
two_came = record {
  table = (clients_add one_closed.table 7 [] 101).0;
  serving = 7 ∷ close_descriptor 7 (7 ∷ []);
  closed_ones = 7 ∷ [];
}

abbrev one_ended : World
one_ended = record {
  table = end_session two_came.table 7;
  serving = 7 ∷ close_descriptor 7 (7 ∷ []);
  closed_ones = close_descriptor 7 (7 ∷ []);
}

History-one_ended : History (new_world two_places 2121 5) one_ended
unfolding new_world server_init all_inactive clients_add add_record is_full times close_descriptor
History-one_ended =
    then_also
      (then_also
        (then_also
          (then_also at_first (client_comes (new_world two_places 2121 5) 7 [] 100 refl refl))
          (thread_closes one_came 7 (omega arith)))
        (client_comes one_closed 7 [] 101 refl refl))
      (thread_ends two_came 7 (omega arith))

table-IsCounted_example : IsCounted one_ended
table-IsCounted_example = table-IsCounted two_places 2121 5 History-one_ended
