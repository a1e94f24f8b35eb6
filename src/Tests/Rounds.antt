-- ===== src/Tests/Rounds.antt =====
-- Runs of the loop: a download is added, and a signal ends the daemon.
use filetransferdaemon.Prelude.{ℕ, refl, some, List, [], ◌∷◌, text_eq, lookup}
use filetransferdaemon.Commands.{cmd_code}
use filetransferdaemon.World.{World}
use filetransferdaemon.Object.{Object}
use filetransferdaemon.FtdApp.Stopping.{shut_down}
use filetransferdaemon.Daemon.{Arrival, message, signal, loop, main}
use filetransferdaemon.Daemon.Turns.{start, turn}
use filetransferdaemon.Daemon.Shutdown.{IsEmpty, shutdown_leaves_nothing, main_leaves_nothing}
use filetransferdaemon.Tests.{world, lib, request}
use filetransferdaemon.Tests.Heap.{add_new, empty, next_daemon, adds, adds-IsPlainTurn}

abbrev as_they_are : ℕ → Object → Object
as_they_are p o = o

shutdown_leaves_nothing_example : IsEmpty (shut_down world as_they_are next_daemon.app)
shutdown_leaves_nothing_example =
    shutdown_leaves_nothing world.uid_to_user (turn start adds) (refl, λ p. refl)
      (tt, adds-IsPlainTurn) world as_they_are

abbrev first_two : List (World × Arrival)
first_two = (world, message 10 (some add_new)) ∷ (world, signal 15) ∷ []

main_leaves_nothing_example : IsEmpty (main world as_they_are 3 first_two empty.app).0.app
unfolding main loop request lookup text_eq lib cmd_code
main_leaves_nothing_example =
    main_leaves_nothing world.uid_to_user world as_they_are 3 first_two empty.app
      ((λ p. refl), refl) ((refl, (refl, refl)), ((refl, tt), tt)) refl refl
