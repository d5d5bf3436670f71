-- ===== src/Rail/FitTests.antt =====
-- Runs of `_solve_linear`, `load_samples` and `calibrate` of sim/rail_model.py.
use fake_big_little.Prelude.{
  ◌≡◌, refl, Bool, true, false, none, some, List, [], ◌∷◌, length, ◌+◌, ◌||◌, All, if◌then◌else◌,
  arith,
}
use fake_big_little.Prelude.Int.{ℤ, pos, ltb_ℤ}
use fake_big_little.Prelude.Texts.{Text, codes, text_eq}
use fake_big_little.Prelude.Decimal.{int}
use fake_big_little.Analyze.Floats.{Floats}
use fake_big_little.Analyze.Fixed.{fixed, fixed_with}
use fake_big_little.Rail.{Params, package_power}
use fake_big_little.Rail.Parity.{parity, parity-Exact}
use fake_big_little.Rail.Linear.{Vec, Equation, triple, solve_linear}
use fake_big_little.Rail.Linear.Solves.{Every, Holds, solve_linear_solves}
use fake_big_little.Rail.Samples.{LogRow, Sample, load_samples}
use fake_big_little.Rail.Calibrate.{Info, design, residual, Calibration, calibrate, calibrated}
use fake_big_little.Rail.Samples.Counts.{Sound, load_samples-Sound}
use fake_big_little.Rail.Calibrate.Fits.{Fitted, calibrate-Fitted}
use fake_big_little.Rail.Calibrate.Physical.{
  Physical, new_params, calibrate-Physical, calibrate_forgets,
}
use fake_big_little.Rail.Calibrate.Residual.{residual-package_power}

-- The first pivot is in the second row.
abbrev system : Vec (Equation Bool 3) 3
system =
    triple (triple false true true, true) (triple true false true, false)
      (triple true true true, true)

solved : solve_linear parity 3 system ≡ some (triple false true false)
unfolding solve_linear
solved = refl

solve_linear_solves_example : Every (Holds parity (triple false true false)) system
solve_linear_solves_example =
    solve_linear_solves parity parity-Exact 3 system (triple false true false) solved

abbrev beta : Params Bool
beta = record { c_eff = true; k_leak = true; p_sa_floor = true }

-- Every cell is 1, so the siblings of a core are active for 1 + 1.
abbrev full : LogRow
full _ = some (codes "1")

abbrev sample : Sample Bool
sample = record {
  t_s = none;
  pkg_w = true;
  core_w = none;
  uncore_w = none;
  dram_w = none;
  psys_w = none;
  temp_c = true;
  phys = (true, false) ∷ (true, true) ∷ [];
}

residual-package_power_example :
    residual parity beta (design parity (λ x. x) (λ x. x) beta sample)
    ≡ parity.sub true (package_power parity (λ x. x) (λ x. x) beta sample.phys true true).total
residual-package_power_example =
    residual-package_power parity (λ x. x) (λ x. x) parity-Exact beta beta sample refl

abbrev parity_run : Calibration Bool
parity_run = calibrate parity (λ x. x) (λ x. x) beta (full ∷ full ∷ full ∷ full ∷ [])

-- The rows of the run, and what they are fitted to.
abbrev fit : Params Bool
fit = record { c_eff = false; k_leak = false; p_sa_floor = false }

abbrev report : Info Bool
report = record {
  n_samples_used = 4;
  n_rows_skipped = 0;
  fit = fit;
  prior = beta;
  clamped_to_prior = codes "C_eff" ∷ [];
  residual_rms_w = false;
  residual_max_abs_w = some true;
  r_squared = none;
}

parity_run_fit : parity_run ≡ calibrated fit report
unfolding calibrate
parity_run_fit = refl

-- Cells with digits are read as thousandths.
abbrev reads : Floats ℤ
reads = fixed_with (λ t. elim (int t) [ none ↦ none | some n ↦ some (pos n) ]) fixed.ratio

-- A row with a power, a frequency and an activity.
abbrev measured : Text → Text → Text → LogRow
measured watts mhz busy name =
    if text_eq name (codes "pkg_w")
    then some watts
    else if text_eq name (codes "cpu0_mhz")
        || text_eq name (codes "cpu1_mhz")
        || text_eq name (codes "cpu2_mhz")
        || text_eq name (codes "cpu7_mhz")
    then some mhz
    else if text_eq name (codes "cpu0_busy")
    then some busy
    else none

abbrev log : List LogRow
log =
    measured (codes "9000") (codes "2400000") (codes "900")
    ∷ measured (codes "5000") (codes "1200000") (codes "500")
    ∷ measured (codes "nan") (codes "1200000") (codes "500")
    ∷ measured (codes "14000") (codes "3700000") (codes "1000")
    ∷ measured (codes "2500") (codes "800000") (codes "100")
    ∷ []

abbrev prior : Params ℤ
prior = record { c_eff = pos 2200; k_leak = pos 10; p_sa_floor = pos 900 }

abbrev log_run : Calibration ℤ
log_run = calibrate reads (λ x. x) (λ x. x) prior log

calibrate-Fitted_example :
    Fitted parity
      (λ x. x)
      (λ x. x)
      beta
      (load_samples parity (full ∷ full ∷ full ∷ full ∷ [])).0
      fit
calibrate-Fitted_example =
    calibrate-Fitted parity (λ x. x) (λ x. x) parity-Exact beta (full ∷ full ∷ full ∷ full ∷ []) fit
      report parity_run_fit

abbrev log_fit : Params ℤ
log_fit = record { c_eff = pos 1747; k_leak = pos 0; p_sa_floor = pos 3416 }

abbrev log_report : Info ℤ
log_report = record {
  n_samples_used = 4;
  n_rows_skipped = 1;
  fit = log_fit;
  prior = prior;
  clamped_to_prior = [];
  residual_rms_w = pos 731;
  residual_max_abs_w = some (pos 1190);
  r_squared = some (pos 933);
}

log_run_fit : log_run ≡ calibrated log_fit log_report
unfolding calibrate int
log_run_fit = refl

calibrate-Physical_example : Physical reads log_fit
calibrate-Physical_example =
    calibrate-Physical reads (λ x. x) (λ x. x) refl refl prior log log_fit log_report log_run_fit

calibrate_forgets_example :
    new_params reads (λ x. x) (λ x. x) log_run
    ≡ new_params reads (λ x. x) (λ x. x) (calibrate reads (λ x. x) (λ x. x) log_fit log)
calibrate_forgets_example = calibrate_forgets reads (λ x. x) (λ x. x) prior log_fit log

above : (x y : ℤ) → ltb_ℤ x y ≡ true → ltb_ℤ y x ≡ false
above x y h = ground arith

not_above_itself : (x : ℤ) → ltb_ℤ x x ≡ false
not_above_itself x = ground arith

load_samples-Sound_example :
    let (samples, skipped) = load_samples reads log in
    (length samples + skipped ≡ 5) × All (Sound reads) samples
load_samples-Sound_example = load_samples-Sound reads above refl not_above_itself log
