-- ===== src/Tests/Connectors.antt =====
-- A connector that is started once, whose server refuses it, and whose `retry` starts it again.
use my_net.Common.{◌+◌, ◌≤◌, ◌≡◌, refl, true, false, some, [], ◌∷◌}
use my_net.Connector.{
  new_connector, econnrefused, retry, start_task, Methods, start, connect, answer, start_in_loop,
  Run, Trace, new, starts_again, runs_start,
}
use my_net.Connector.Sockets.{sockets_of, start_tasks, Trace-sockets}

abbrev methods : Methods
methods = record {
  called = λ call c. (c, start_task ∷ []);
  remove_and_reset_channel = λ c. (some 0, record c { has_channel = false });
}

abbrev refused : Run methods
refused = record {
  connector = record new_connector { connect_wanted = true };
  tasks = start_task ∷ [];
  starts = 1;
  given = start_task ∷ [];
  made = 1;
  sockets = some 8 ∷ [];
  calls = retry (some 8) ∷ [];
}

refused_run : Trace methods refused
unfolding start start_in_loop connect answer
refused_run =
    runs_start [] [] (some 8) (some econnrefused)
      (record {
        connector = record new_connector { connect_wanted = true };
        got = some 8 ∷ [];
        calls = retry (some 8) ∷ [];
        given = start_task ∷ [];
      })
      (starts_again new) refl refl

Trace-sockets_example :
    (sockets_of refused.calls ≡ refused.sockets)
    × (refused.made + start_tasks refused.tasks ≤ refused.starts + start_tasks refused.given)
Trace-sockets_example = Trace-sockets methods refused_run
