-- ===== src/Lib.antt =====
-- A model of fake-big-little: the harness that measures whether per-core EPP makes fast and slow
-- cores out of equal ones (scripts/bench.py), the statistics that judge the measurements
-- (scripts/analyze.py), the power model that predicts them (sim/rail_model.py), and the generator of
-- the project that is compiled (scripts/workload.py).
--
-- The harness sets the EPP of each CPU, runs `energy` around a workload, and saves a file for each
-- run; the statistics read these files and decide what may be claimed of them. The power model
-- stands by itself.
--
-- * Json holds what `json.loads` returns. Its parser is a parameter of the harness (`Env.loads`).
-- * Bench/World is the machine as the harness sees it: the EPP files, the processes of ours that run,
--   the time and the files saved. A step is a function from a world to a result or an exception and
--   the next world. What the kernel, the sensors and the tools answer comes from `Env`, a function
--   of the number of questions asked before, so no theorem assumes how they answer, unless it says
--   so. Each command takes as long as `Env` says. Of the scheduler the world holds what the script
--   knows: that it has started one, or has seen it attached.
-- * Bench/CpuList, Partition, Epp, Output, Cooling, Session, Experiments, Ab and Driver hold the
--   functions of scripts/bench.py under their names (`cpulist`, `default_partition`, `apply_epp`,
--   `classify_json`, `cooldown`, `e1_rail`, `e3_one`, `preflight`, `go`, ...). The class `Bench` is
--   a record; `record` is `record_run`, and what the loops of e1, e1b and e2 share is `measured_run`.
-- * Bench/Rules, Bench/Protocol and Bench/Progress hold the logic for these steps: relations that each
--   step keeps, the runs that a step makes, and the steps that return on a machine that cooperates.
--   A `Spec` is a run as the arms of the experiment define it.
-- * Analyze/Floats is the arithmetic over a structure of doubles `Floats`, of which nothing is assumed;
--   Analyze/Fixed is one instance, to run the model with. Analyze/Rows, Groups, Distributions,
--   Resampling, Effects, Contrast, Gates, Placement, Frequency and Report hold the stages of
--   scripts/analyze.py in the order in which `analyze` calls them, functions under their names. A
--   row of the table is a record whose numbers are a function of their column. Analyze/Summary,
--   RunFiles and Sanitize are what `main` does around them. The lines that are printed are data in
--   place of texts.
-- * Rail is sim/rail_model.py: the power of a package and the bisection for the frequency under a
--   power cap. Rail/Light, Partition and Crossover are its experiments A, B and C; Rail/Samples reads
--   the measurements, Rail/Calibrate fits three parameters to them, with the solver of Rail/Linear.
--   Rail/Exact names the laws of exact arithmetic that the theorems on the fit assume, since they are
--   not those of doubles; the field of two elements in Rail/Parity has them.
-- * Workload is scripts/workload.py: the texts that it writes, and the system calls on the directory one
--   after the other, so that a run can be interrupted between them.
--
-- Loops with a time limit run on fuel: `cool_loop` asks every two seconds and gets a round for each
-- two seconds of its limit and one more, `sample_until` likewise for each second, and
-- `wait_attached` asks every 200 ms for ten seconds, with 52 rounds. The bisection has the 60 rounds
-- of the source. The sweep of experiment C has 145 rounds, one for each multiple of 25 MHz from 400
-- MHz to the highest ceiling, 4 GHz.
--
-- Not modelled: the description of the host in the saved files; what is printed, but for the errors
-- of the line of `record`; output of the scheduler and the pinger that is no text; the CSV and
-- Markdown reports; the random choices (parameters in `Chance`) and `math` (parameters in `Special`);
-- the tables and plots of the power model; and the programs in C.
pub mod Prelude
pub mod Json
pub mod Bench
pub mod Analyze
pub mod Rail
pub mod Workload
