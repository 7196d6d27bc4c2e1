-- ===== src/Logbuf/Tests.antt =====
-- Runs of the ring buffer.
use gluetun_proton_list_upda.Prelude.{ℕ, ◌≡◌, refl, List, [], ◌∷◌}
use gluetun_proton_list_upda.Logbuf.{Record, new_buffer, append, reset, records}
use gluetun_proton_list_upda.Logbuf.Ring.{Op, log, clear, run, history, recent, records-run}

abbrev line : ℕ → Record
line n = record { time = n; level = "INFO"; message = "m"; attrs = [] }

abbrev wrapped : List Op
wrapped = log (line 1) ∷ log (line 2) ∷ clear ∷ log (line 3) ∷ log (line 4) ∷ log (line 5) ∷ []

wrapped_newest_first : records (run (new_buffer 2) wrapped) 0 ≡ line 5 ∷ line 4 ∷ []
unfolding records run new_buffer append reset
wrapped_newest_first = refl

records-run_example : records (run (new_buffer 2) wrapped) 1 ≡ recent 2 1 (history [] wrapped)
records-run_example = records-run 2 1 wrapped
