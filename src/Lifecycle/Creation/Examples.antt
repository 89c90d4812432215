-- ===== src/Lifecycle/Creation/Examples.antt =====
-- A run of a stored graph of two tasks.
use run_mesh.Base.{String, ◌≡◌, ◌≢◌, true, str_eq, eq_iff, none, arith, Holds}
use run_mesh.Lifecycle.Invariant.{IsSound, LeaseIsValid}
use run_mesh.Lifecycle.Invariant.Tables.{Table}
use run_mesh.Lifecycle.Creation.Growth.{start, create, Growth-IsSound}
use run_mesh.Store.CreateRun.{create_run}
use run_mesh.Store.Examples.{clock, library, first, db_after, run_after, created_example}
use run_mesh.Lifecycle.Creation.Ids.{DrawsFresh}
use run_mesh.Lifecycle.Creation.Created.{HasMaps, create_run-IsSound}

library-DrawsFresh : DrawsFresh clock library
library-DrawsFresh = record { injective = λ m n e. omega arith; unused = λ n le. (tt, tt, tt) }

other_key : ◌≢◌ {A = String} "b" "a"
other_key e = let same : str_eq "b" "a" ≡ true = (eq_iff "b" "a").1 e in absurd (ground arith)

library-HasMaps : HasMaps library
library-HasMaps = (((other_key, tt), (tt, tt)), tt)

library-IsSound : IsSound library
library-IsSound = ((tt, tt), tt)

create_run-IsSound_example :
    Holds (λ r. IsSound r.1) (create_run clock 7 none 5 "k" "" none library)
create_run-IsSound_example =
    create_run-IsSound clock 7 none library library-DrawsFresh library-IsSound library-HasMaps 5 "k"
      "" none

Growth-IsSound_example : IsSound (db_after first) × Table LeaseIsValid (db_after first).tasks
Growth-IsSound_example =
    Growth-IsSound {db = library} {db' = db_after first}
      (create start clock 7 none 5 "k" "" none (run_after first, true) library-DrawsFresh
        library-HasMaps created_example)
      library-IsSound (tt, tt)
