-- ===== src/Bench/Tests.antt =====
-- Runs of scripts/bench.py on a small machine: two CPUs on two cores, with `energy` that always works.
use fake_big_little.Prelude.{
  ℕ, ◌<◌, ◌≡◌, refl, true, false, not, ◌||◌, none, some, List, [], ◌∷◌, arith, if◌then◌else◌,
  length, mem, ◌+◌, ◌==◌,
}
use fake_big_little.Prelude.Int.{pos}
use fake_big_little.Prelude.Sorting.{sorted}
use fake_big_little.Prelude.Decimal.{int, strip}
use fake_big_little.Prelude.Texts.{codes, text_eq, split}
use fake_big_little.Json.{Value, real, Fields, field}
use fake_big_little.Bench.World.{
  Scheduler, absent, timeout_expired, Env, World, exited, ok, err, ◌>>=◌, ◌>>◌, now, branch, pure,
  finally, swallow, for_each, sleep, ask,
}
use fake_big_little.Bench.Output.{collect_json, classify_json}
use fake_big_little.Bench.Cooling.{
  measure_idle_floor, cooldown, cool_loop, cool_target, read_temp, pkg_temp_c,
}
use fake_big_little.Bench.CpuList.{cpulist, parse_cpulist, parse_cpulist-cpulist}
use fake_big_little.Bench.Partition.{
  default_partition, default_partition_splits, default_partition_keeps_siblings,
}
use fake_big_little.Bench.Epp.{
  partitioned_mapping, uniform_mapping, read_epp_all, restore_epp, apply_epp, write_epp,
}
use fake_big_little.Bench.Session.{
  Args, Bench, all_of_them, only_rail, measured_run, cool_down, first, make_dirs, save, record_run,
  run_path, run,
}
use fake_big_little.Bench.Experiments.{e1_rail, rail_arms, rail_arm}
use fake_big_little.Bench.Ab.{AbArm, is_loaded, e3_arms, timed_build, wait_attached}
use fake_big_little.Bench.Driver.{
  Host, init, session, go, plan, plan_totals, experiments, warmup, when, wants_rail, wants_poison,
  wants_coupling, wants_ab,
}
use fake_big_little.Bench.Driver.Init.{init-Covers, Unready, go_refuses}
use fake_big_little.Bench.Restore.{go_restores_epp}
use fake_big_little.Bench.Protocol.Fixed.{Covers}
use fake_big_little.Bench.Protocol.Count.{session_saves_plan}
use fake_big_little.Bench.Cooling.Limits.{Returns, cooldown-Returns, measure_idle_floor-Returns}
use fake_big_little.Bench.Partition.Halves.{default_partition_halves}
use fake_big_little.Bench.Ab.Attach.{Waited, wait_attached-Waited}
use fake_big_little.Bench.Ab.Processes.{timed_build_timeout}
use fake_big_little.Bench.Progress.Whole.{Attaches}

abbrev machine : Env
machine = record {
  nr_cpus = 2;
  core_id = λ c. c;
  accepts = λ _ _ _. true;
  hwmon = λ _. [];
  scx_state = λ _. none;
  outcome = λ _. exited (pos 0) [];
  took = λ _. 8000;
  starts = λ _. true;
  exited_early = λ _. false;
  terminates = λ _. true;
  stdout_of = λ _. [];
  writable = λ _. true;
  loads = λ _. none;
}

abbrev start : World
start = record {
  epp = λ _. codes "default";
  scheduler = absent;
  pinging = false;
  time = 0;
  asked = 0;
  saved = [];
}

abbrev options : Args
options = record {
  choice = only_rail;
  reps = 1;
  dur = 8000;
  big_override = none;
  cool_to = pos 60000;
  cool_max = 2000;
  cool_margin = pos 5000;
  floor_probe = 0;
  plan_only = false;
  settle = 1000;
  allow_battery = false;
}

abbrev bench : Bench
bench = record {
  args = options;
  big = 1 ∷ [];
  little = 0 ∷ [];
  saved_epp = read_epp_all machine start;
  idle_floor = none;
}

abbrev in_order : ℕ → List AbArm
in_order _ = e3_arms

abbrev host : Host
host = record {
  is_root = false;
  has_energy = true;
  has_pinger = true;
  has_spin = true;
  has_bls = true;
  has_workload = true;
  has_msr = true;
  scaling_driver = some (codes "intel_pstate");
  supplies = [];
}

bench-Covers : Covers 2 bench
bench-Covers c h = ground arith

go_restores_epp_example : (go machine host in_order bench start).1.epp 1 ≡ codes "default"
go_restores_epp_example =
    go_restores_epp machine host in_order bench start 1 refl (omega arith) (λ _. refl)

init-Covers_example : Covers 2 (record bench {
  big = 1 ∷ [];
  little = 0 ∷ [];
  args = record options { big_override = some (codes "1") };
})
unfolding init parse_cpulist split int sorted
init-Covers_example =
    init-Covers machine (record options { big_override = some (codes "1") }) start _ refl

parse_cpulist-cpulist_example :
    parse_cpulist (cpulist (7 ∷ 0 ∷ 1 ∷ 2 ∷ [])) ≡ some (sorted (7 ∷ 0 ∷ 1 ∷ 2 ∷ []))
parse_cpulist-cpulist_example = parse_cpulist-cpulist (7 ∷ 0 ∷ 1 ∷ 2 ∷ []) (λ e. absurd (cc))

-- Four CPUs on two cores, as on a machine with two threads to each core.
abbrev core_of : ℕ → ℕ
core_of c = if c == 0 || c == 2 then 0 else 1

default_partition_splits_example :
    mem 2 (default_partition 4 core_of).1 ≡ not (mem 2 (default_partition 4 core_of).0)
default_partition_splits_example = default_partition_splits 4 core_of 2 (omega arith)

default_partition_keeps_siblings_example :
    mem 1 (default_partition 4 core_of).0 ≡ mem 3 (default_partition 4 core_of).0
default_partition_keeps_siblings_example =
    default_partition_keeps_siblings 4 core_of 1 3 (omega arith) (omega arith) refl

-- Where the session ends.
abbrev end : World
end = (session machine in_order bench start).1

session_ends : session machine in_order bench start ≡ (ok 0, end)
unfolding session ◌>>=◌ measure_idle_floor now branch pure ◌>>◌ warmup run finally restore_epp
    read_epp_all swallow experiments when wants_rail for_each e1_rail rail_arms rail_arm
    measured_run cool_down cooldown cool_loop cool_target sleep ask read_temp apply_epp write_epp
    first make_dirs save record_run wants_poison wants_coupling wants_ab uniform_mapping
    partitioned_mapping text_eq collect_json run_path pkg_temp_c classify_json strip
session_ends = refl

session_saves_plan_example : length end.saved ≡ 0 + (plan_totals options (plan machine bench)).0
session_saves_plan_example =
    session_saves_plan machine in_order bench start end 0 bench-Covers (λ _. refl) refl refl
      session_ends

abbrev energy_object : Fields
energy_object =
    field (codes "wall_s") (real (codes "8.0021"))
      (field (codes "pkg_j") (Value.int (pos 150)) Fields.end)

-- The machine where sched_ext is loaded, and each line is read as what `energy` prints.
abbrev attaching : Env
attaching = record machine { scx_state = λ _. some (codes "bls"); loads = λ _. some energy_object }

abbrev ab_bench : Bench
ab_bench = record bench { args = record options { choice = all_of_them } }

attaching-Attaches : Attaches attaching
unfolding is_loaded text_eq
attaching-Attaches = record { stays = λ _. refl; loaded = λ _. refl }

-- A host on which nothing is missing, where the scheduler of another is loaded.
abbrev ready_host : Host
ready_host = record host { is_root = true }

go_refuses_example :
    go attaching ready_host in_order bench start ≡ (ok 1, record start { asked = 1 })
go_refuses_example =
    go_refuses attaching ready_host in_order bench start refl
      (Unready.other_scheduler (attaching-Attaches.loaded 0))

cooldown-Returns_example : Returns 13000 (cooldown machine (pos 60000) 10000 1000 start)
cooldown-Returns_example = cooldown-Returns machine (pos 60000) 10000 1000 start

measure_idle_floor-Returns_example : Returns 6000 (measure_idle_floor machine 5000 start)
measure_idle_floor-Returns_example = measure_idle_floor-Returns machine 5000 start

-- The machine, but a process that gets SIGTERM does not end in time.
abbrev stuck : Env
stuck = record machine { terminates = λ _. false }

abbrev attached : World
attached = record start { scheduler = Scheduler.attached }

abbrev strict_arm : AbArm
strict_arm = record {
  name = codes "scx-partitioned-strict";
  scx = true;
  partitioned = true;
  strict = true;
}

timed_build_timeout_example :
    timed_build stuck bench strict_arm 0 none attached
    ≡ (err timeout_expired, record attached { asked = 4; time = 38000; pinging = true })
timed_build_timeout_example =
    timed_build_timeout stuck attached bench strict_arm 0 none (pos 0) [] refl refl refl refl

-- On a machine without sched_ext the wait takes its ten seconds.
wait_attached-Waited_example : Waited machine 10000 start (wait_attached machine 52 10000 start)
wait_attached-Waited_example = wait_attached-Waited machine 52 10000 start (omega arith)

default_partition_halves_example : core_of 2 < core_of 3
unfolding default_partition sorted
default_partition_halves_example =
    default_partition_halves 4 core_of 2 3 (omega arith) (omega arith) refl refl
