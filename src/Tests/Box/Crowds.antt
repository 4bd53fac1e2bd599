-- ===== src/Tests/Box/Crowds.antt =====
-- A server of MP5 with one thread, for the theorem on its schedules.
use mathlib.Core.Option.{some-injective}
use sp.Base.{
  ℕ, zero, suc, ◌≡◌, refl, subst, sym, true, false, Option, some, none, List, [], ◌∷◌, codes,
  get_elem?, Bytes, arith,
}
use sp.Box.Config as Config
use sp.Box.Config.{server_fields}
use sp.Box.Config.Lines.{render}
use sp.Box.Daemon.Configure.{parse_arg, daemon_flag}
use sp.Box.Daemon.Configure.Same.{extended, parse_arg-same}
use sp.Box.Pool.{TaskThread, waiting}
use sp.Box.Daemon.{req_login, req_end}
use sp.Box.Crowd.{Step, arrive, ready, go_on, is_free, crowd_run, start_crowd}
use sp.Box.Crowd.Alone.{works_on, IsLeft}
use sp.Box.Crowd.Schedule.{crowd_run-alone}
use sp.Tests.Box.Daemons.{host, no_files, setup}

-- A login, the thread comes to wait, and the next request of the connection is given to it.
abbrev steps : List Step
steps = arrive 5 (req_login (codes "ann") (codes "pw")) ∷ go_on 0 ∷ go_on 0 ∷ ready 5 req_end ∷ []

start-IsLeft : IsLeft (start_crowd host no_files 1).threads 5
unfolding start_crowd works_on
start-IsLeft zero t g w =
    let e : ◌≡◌ {A = Option ℕ} none (some 5) =
      subst (λ x. works_on x ≡ some 5) (sym (some-injective _ _ g)) w in
    absurd (cc)
start-IsLeft (suc i) t g w = absurd (cc)

abbrev on_task : TaskThread ℕ
on_task = record { place = waiting; busy = true; locked = false; arg = some 5 }

thread_0 :
    get_elem? (crowd_run host setup (start_crowd host no_files 1) steps).threads 0 ≡ some on_task
unfolding crowd_run start_crowd
thread_0 = refl

crowd_run-alone_example :
    (◌≡◌ {A = ℕ} 0 0)
    × (is_free (crowd_run host setup (start_crowd host no_files 1) steps).client 5 ≡ false)
unfolding works_on
crowd_run-alone_example =
    crowd_run-alone host setup no_files 1 steps (start-IsLeft, (tt, (tt, (tt, tt)))) 0 0 on_task
      on_task 5 thread_0 thread_0 refl refl

abbrev lines : List (Bytes × Bytes)
lines =
    (codes "path", codes "dir")
    ∷ (codes "thread", codes "3")
    ∷ (codes "account_path", codes "acc")
    ∷ []

parse_arg-same_example :
    parse_arg (some (render lines)) (codes "-d" ∷ [])
    ≡ extended (daemon_flag (codes "-d" ∷ [])) lines (Config.parse_arg (render lines) server_fields)
parse_arg-same_example = parse_arg-same lines (codes "-d" ∷ []) (omega arith)
